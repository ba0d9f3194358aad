-- ===== src/Tests/Books.antt =====
-- Runs of the lemmas on the tracker and the process (memapi/src/memorytracking.rs, memapi/src/lib.rs)
-- on concrete trackers.
use filprofiler.Base.{
  ℕ, ◌+◌, ◌≡◌, ◌==◌, ◌≢◌, ◌↔◌, refl, arith, List, ◌∷◌, [], ℕ_discrete, true, false, some, lookup,
  done, max, ltb, if◌then◌else◌,
}
use filprofiler.Callstack.{Callstack-discrete}
use filprofiler.Interner
use filprofiler.HashMap
use filprofiler.Word.{add_u32, add_usize, sub_usize}
use filprofiler.Allocation.{Allocation, new_allocation, size}
use filprofiler.Allocation.Rounding.{tracked, size-new_allocation_small}
use filprofiler.Tracker
use filprofiler.Tracker.{AllocationTracker, new_tracker, check_if_new_peak}
use filprofiler.Tracker.Slots.{usage_of}
use filprofiler.Tracker.Accounting.{IsAccounted, allocation_bytes, new_tracker-IsAccounted}
use filprofiler.Tracker.Accounting.Allocating.{Allocates, add_allocation-Allocates}
use filprofiler.RangeMap.Bytes.{held_bytes}
use filprofiler.Tracker.Accounting.Overwriting.{add_allocation_overwrites}
use filprofiler.Tracker.Accounting.Freeing.{Frees, free_allocation-Frees}
use filprofiler.Tracker.Accounting.Mapping.{Maps, add_anon_mmap-Maps}
use filprofiler.Tracker.Accounting.Unmapping.{Unmaps, free_anon_mmap-Unmaps}
use filprofiler.Tracker.History.{allocates, frees, step, IsSound, History, start, next}
use filprofiler.Tracker.History.HighWater.{peak_usage_of, History-peak}
use filprofiler.Process
use filprofiler.Process.{Process, new_process, running, oom_free}
use filprofiler.Process.Sizes.{get_allocation_size-add_allocation}
use filprofiler.Process.Emergency.{is_in, IsLargePython, oom_free-FreesLarge}
use filprofiler.Tests.{flat, deep, busy, busy-IsAccounted}

add_allocation-Allocates_example :
    (t' : AllocationTracker) × (Tracker.add_allocation busy 3 5000 flat ≡ done t')
    × IsAccounted t'
    × Allocates busy 3 5000 flat t'
unfolding lookup ℕ_discrete
add_allocation-Allocates_example =
    add_allocation-Allocates busy 3 5000 flat busy-IsAccounted refl (omega arith)
      (omega (arith, size-new_allocation_small 0 5000 (omega arith)))

free_allocation-Frees_example :
    (t' : AllocationTracker) × (Tracker.free_allocation busy 1 ≡ done t')
    × IsAccounted t'
    × Frees busy 1 t'
free_allocation-Frees_example = free_allocation-Frees busy 1 busy-IsAccounted

add_anon_mmap-Maps_example :
    (t' : AllocationTracker) × (Tracker.add_anon_mmap busy 120 100 flat ≡ done t')
    × IsAccounted t'
    × Maps busy 120 100 flat t'
add_anon_mmap-Maps_example =
    add_anon_mmap-Maps busy 120 100 flat busy-IsAccounted (omega arith) (omega arith) (omega arith)

free_anon_mmap-Unmaps_example :
    (t' : AllocationTracker) × (Tracker.free_anon_mmap busy 120 100 ≡ done t')
    × IsAccounted t'
    × Unmaps busy 120 100 t'
free_anon_mmap-Unmaps_example = free_anon_mmap-Unmaps busy 120 100 busy-IsAccounted (omega arith)

-- The tracker after the first allocation of a program.
abbrev after_one : AllocationTracker
after_one = record {
  current_allocations = (1, record { callstack_id = 0; compressed_size = 1000 }) ∷ [];
  current_anon_mmaps = record { ranges = [] };
  interner = record { max_id = 1; callstack_to_id = (deep, 0) ∷ [] };
  current_memory_usage = 1000 ∷ [];
  peak_memory_usage = [];
  current_allocated_bytes = 1000;
  peak_allocated_bytes = 0;
  spare_memory = 16777216;
  default_path = [];
}

-- The tracker after the allocation is given back.
abbrev pub after_two : AllocationTracker
after_two = record after_one {
  current_allocations = [];
  current_memory_usage = 0 ∷ [];
  current_allocated_bytes = 0;
  peak_memory_usage = 1000 ∷ [];
  peak_allocated_bytes = 1000;
}

one_call : step (allocates 1 1000 deep) (new_tracker []) ≡ done after_one
unfolding step Tracker.add_allocation new_tracker Tracker.get_callstack_id Interner.get_or_insert_id
    Callstack-discrete lookup HashMap.insert HashMap.remove Tracker.add_memory_usage new_allocation
    size ℕ_discrete add_u32 add_usize
one_call = refl

two_calls : step (frees 1) after_one ≡ done after_two
unfolding step Tracker.free_allocation lookup HashMap.remove check_if_new_peak
    Tracker.remove_memory_usage size ℕ_discrete sub_usize
two_calls = refl

abbrev pub two_calls_usage : ℕ → ℕ
two_calls_usage id =
    if ltb (max 0 1000) 0
    then usage_of after_two id
    else if ltb 0 1000
    then usage_of after_one id
    else 0

pub two_calls-History : History after_two 1000 two_calls_usage
unfolding lookup new_tracker
two_calls-History =
    next
      (next (start []) (allocates 1 1000 deep)
        (refl, omega arith, omega (arith, size-new_allocation_small 0 1000 (omega arith))) one_call)
      (frees 1) tt two_calls

History-peak_example :
    IsSound after_two
    × ((check_if_new_peak after_two).peak_allocated_bytes ≡ 1000)
    × ((id : ℕ) → peak_usage_of after_two id ≡ two_calls_usage id)
History-peak_example = History-peak two_calls-History

-- A process that has made no allocation, and one with the allocations of `busy`.
abbrev fresh_process : Process
fresh_process = record { threads = λ t. deep; allocations = new_tracker [] }

abbrev busy_process : Process
busy_process = record { threads = λ t. deep; allocations = busy }

get_allocation_size-add_allocation_example :
    (p' : Process) × (Process.add_allocation fresh_process 1 16 1000 9 false ≡ done (running p'))
    × IsAccounted p'.allocations
    × (p'.threads ≡ fresh_process.threads)
    × (Process.get_allocation_size p' 16 ≡ tracked 0 1000)
    × ((q : ℕ)
        → q ≢ 16
        → Process.get_allocation_size p' q ≡ Process.get_allocation_size fresh_process q)
unfolding new_tracker lookup
get_allocation_size-add_allocation_example =
    get_allocation_size-add_allocation fresh_process 1 16 1000 9 (new_tracker-IsAccounted [])
      (omega arith) refl (omega arith)
      (omega (arith, size-new_allocation_small 0 1000 (omega arith)))

oom_free-FreesLarge_example :
    (freed : List ℕ) × (oom_free busy ≡ done freed)
    × ((address : ℕ)
        → (is_in address freed ≡ true) ↔ (
            (alloc : Allocation) × (lookup ℕ_discrete address busy.current_allocations ≡ some alloc)
            × IsLargePython busy.interner alloc))
oom_free-FreesLarge_example = oom_free-FreesLarge busy busy-IsAccounted

add_allocation_overwrites_example :
    (t' : AllocationTracker) × (Tracker.add_allocation busy 1 5000 flat ≡ done t')
    × ((id : ℕ)
        → usage_of t' id
          ≡ allocation_bytes id t'.current_allocations
            + held_bytes (λ v. v == id) t'.current_anon_mmaps.ranges
            + (if 0 == id then size (record { callstack_id = 0; compressed_size = 1000 }) else 0))
unfolding lookup ℕ_discrete
add_allocation_overwrites_example =
    add_allocation_overwrites busy 1 5000 flat (record { callstack_id = 0; compressed_size = 1000 })
      busy-IsAccounted refl (omega arith)
      (omega (arith, size-new_allocation_small 0 5000 (omega arith)))
