-- ===== src/Lib.antt =====
-- Verification of the memory profiler's native library, the crate in memapi/.
--
-- The program. A preloaded C library (filprofiler/_filpreload.c) intercepts malloc, free, mmap and
-- munmap and the interpreter's calls and returns, and reports them through the extern "C" functions of
-- memapi/src/lib.rs to memapi/src/memorytracking.rs. There each thread has a callstack, and all threads
-- share one tracker behind a mutex. The tracker numbers callstacks, keeps the live allocations by
-- address and the anonymous mappings as address ranges (memapi/src/rangemap.rs), counts the bytes in
-- use for each callstack, and records the usage at the peak. At the end, or when memory runs out, it
-- reports bytes by callstack as lines for a flamegraph.
--
-- The files and the code:
--   RangeMap       memapi/src/rangemap.rs: Range, RangeMap with add, remove, size, as_hashmap. `remove`
--                  is `remove_loop`, whose body is `remove_one`. RangeMap/Reference is StupidRangeMap,
--                  the reference of the file's property test; RangeMap/Agreement and
--                  RangeMap/Coalesced relate the two.
--   Callstack      FunctionId, CallSiteId, Callstack of memapi/src/memorytracking.rs (as all below):
--                  start_call, finish_call, new_line_number, in_python. Callstack/Frames describes
--                  them, which is no code, by the running frame and its callers.
--   Text           get_filename, get_function_name, Callstack::as_string. What the C code left in
--                  memory behind the pointers is the parameter `Memory`.
--   Interner       CallstackInterner: get_or_insert_id, get_reverse_map. The callback is a function on
--                  a state, here the tracker's list of usages.
--   Allocation     Allocation: new and size, with sizes kept in 32 bits.
--   Tracker        AllocationTracker: check_if_new_peak, add_memory_usage, remove_memory_usage,
--                  get_callstack_id, add_allocation, free_allocation, add_anon_mmap, free_anon_mmap.
--                  Tracker/Accounting states its invariant, the books; Tracker/History the
--                  high-water mark over a history of calls.
--   Report         combine_callstacks and to_lines.
--   Dump           write_lines, write_flamegraph, dump_to_flamegraph, dump_peak_to_flamegraph, on a
--                  `Disk` any of whose operations may fail. inferno's from_files and the text of a
--                  size in MiB are parameters. Dump/Graphs, which is no code, describes the graphs.
--   Process        the free functions behind memapi/src/lib.rs (start_call, finish_call,
--                  new_line_number, add_allocation, free_allocation, get_allocation_size,
--                  free_anon_mmap, reset), oom_break_glass, and the loop of oom_dump that frees.
--   Oom            oom_dump as a whole: the fork, whose result is an argument, the freeing, the dump
--                  and the exit.
--   CString        the paths that lib.rs reads: CStr::from_ptr and to_str.
--   Interface      the extern "C" functions of memapi/src/lib.rs. `serve` is any one of them that changes
--                  state, on the thread that makes it; Interface/Reach are the worlds that calls lead to.
--   Profile        the specification of the tracker, which is no code: what is in use by address and by
--                  callstack, without ids, compressed sizes, ranges or the order of maps. `profile` is
--                  the profile that a tracker stands for, and `change` what a call does to it.
--   Base, Word, HashMap: shared lists and sums, machine words, and the standard library's maps.
--   PropertyTests  the property tests of memorytracking.rs, as functions of what they draw;
--                  PropertyTests/Ranges the one of rangemap.rs, whose shuffles are permutations.
--   Tests          runs of the theorems on concrete data; Tests/Units the unit tests of
--                  memorytracking.rs, which the checker runs on the model.
--
-- How it is modelled. A method on `&mut self` returns the new value. A failed assert, an index out of
-- bounds and an unwrap of None are `panic` (Outcome). Numbers are natural numbers; a release build on a
-- 64-bit target is modelled, in which `usize` and `u32` arithmetic and casts wrap (Word). A HashMap or
-- BTreeMap is a list of entries with distinct keys; the order of a HashMap, which the program does not
-- fix, is that of the list. The mutex makes each call one step, and an interleaving is a sequence of
-- steps. `panic` ends the process, since it unwinds into C.
--
-- Bounds and fuel. Ids are `u32` and `max_id` counts them, so an operation that may take a new id asks
-- for room below 2 ^ 32. Sums and the ends of ranges are asked to fit 64 bits, as addresses and sizes of
-- real memory do. Loops are recursions on lists and on lengths; the digits of a number
-- (`decimal_before`) run on fuel, which is the number's successor and more than its digits, and the
-- reading of a C string on the bytes from its pointer to the end of the address space.
--
-- Not modelled: the texts of the messages on the error output, which are data here; what libc::free
-- does to the blocks that oom_dump gives it, of which the model keeps the addresses; a failing look
-- at the output directory, and its missing parents, which create_dir_all makes too (the model makes the
-- last directory only); calls of other threads between the two times that add_allocation takes the mutex
-- at address 0, of which the first only frees the emergency memory;
-- memapi/src/callstack.rs, all of which is commented out; the C library, the Python package
-- (filprofiler/), the benchmarks, the end-to-end tests and the build files.
pub mod Base
pub mod Word
pub mod HashMap
pub mod RangeMap
pub mod Callstack
pub mod Interner
pub mod Allocation
pub mod Tracker
pub mod Text
pub mod Profile
pub mod Report
pub mod Dump
pub mod CString
pub mod Oom
pub mod Interface
pub mod Process
pub mod PropertyTests
mod Tests
