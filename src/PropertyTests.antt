-- ===== src/PropertyTests.antt =====
-- The property tests of the tracker in memapi/src/memorytracking.rs, as functions of what they draw.
-- An assertion that fails panics. Where a test compares a floating-point quotient of two sizes with a
-- decimal fraction, both are multiplied out.
pub mod Sizes
pub mod Adding
pub mod Freeing
pub mod Mapping
pub mod Unmapping
pub mod Ranges
use native.Mathlib.Decide.{dec_lt}
use filprofiler.Word
use filprofiler.Base.{
  suc, ite, ℕ, ◌+◌, ◌*◌, ◌/◌, ◌-◌, ◌^◌, ◌≤◌, ◌<◌, ◌≡◌, ◌==◌, ltb, leb, if◌then◌else◌, Bool, true,
  false, List, [], ◌∷◌, lookup, get_elem?, set, some, none, Outcome, done, panic, ◌>>=◌, unwrap,
  refl, arith, ℕ_discrete, lt→ltb,
}
use filprofiler.Word.{
  usize_mod, mul_usize, add_usize, sub_usize, add_usize_exact, sub_usize_exact, mul_usize_exact,
}
use filprofiler.HashMap
use filprofiler.Text.{text}
use filprofiler.Dump.{Path-discrete}
use filprofiler.Callstack
use filprofiler.Callstack.{Callstack, Callstack-discrete, new_callstack}
use filprofiler.Interner
use filprofiler.Interner.{CallstackInterner}
use filprofiler.RangeMap
use filprofiler.RangeMap.{RangeMap}
use filprofiler.Allocation
use filprofiler.Allocation.{Allocation, new_allocation, mib, high_32bit}
use filprofiler.Allocation.Rounding.{
  tracked, tracked-le, size-new_allocation_small, size-new_allocation_large,
}
use filprofiler.Tracker
use filprofiler.Tracker.{
  AllocationTracker, new_tracker, add_allocation, free_allocation, add_anon_mmap, free_anon_mmap,
  check_if_new_peak,
}

abbrev pub assert : Bool → Outcome (Unit {0})
assert true = done tt
assert false = panic

abbrev is_zero_only : List ℕ → Bool
is_zero_only (n ∷ []) = n == 0
is_zero_only _ = false

unfoldable pub small_allocation : ℕ → Outcome (Unit {0})
small_allocation size = assert (size == Allocation.size (new_allocation 0 size))

unfoldable pub large_allocation : ℕ → Outcome (Unit {0})
large_allocation size =
    let result_size = Allocation.size (new_allocation 0 size) in
    let diff =
      if ltb size result_size then sub_usize result_size size else sub_usize size result_size in
    assert (leb diff (mib / 2))

unfoldable pub correct_allocation_size_tracked : ℕ → Outcome (Unit {0})
correct_allocation_size_tracked size = do
  tracker ← add_allocation (new_tracker (text ".")) 0 size new_callstack
  tracker ← add_anon_mmap tracker 1 (mul_usize size 2) new_callstack
  usage ← unwrap (get_elem? tracker.current_memory_usage 0)
  _ ← assert (ltb (999 * usage) (1000 * mul_usize size 3))
  _ ← assert (ltb (1000 * mul_usize size 3) (1001 * usage))
  tracker ← free_allocation tracker 0
  tracker ← free_anon_mmap tracker 1 (mul_usize size 2)
  assert (is_zero_only tracker.current_memory_usage)

-- The callstack of the block with an index: one call, of a function with that pointer.
unfoldable pub call_of : ℕ → Callstack
call_of i =
    Callstack.start_call new_callstack 0
      (record { function = record { function = i }; line_number = 0 })

-- The first loop of `current_allocated_matches_sum_of_allocations`, from an index on. The usage that
-- it expects is the list of the sizes themselves.
unfoldable pub add_blocks : ℕ → List ℕ → AllocationTracker → Outcome AllocationTracker
add_blocks i [] tracker = done tracker
add_blocks i (size ∷ sizes) tracker = do
  tracker ← add_allocation tracker i size (call_of i)
  add_blocks (suc i) sizes tracker

-- `iter().sum()`
unfoldable pub sum_usize : List ℕ → ℕ
sum_usize [] = 0
sum_usize (n ∷ ns) = add_usize n (sum_usize ns)

abbrev pub is_same : List ℕ → List ℕ → Bool
is_same k l = ite (Path-discrete k l) true false

-- Its second loop.
unfoldable pub free_blocks :
    List ℕ → List ℕ → ℕ → List ℕ → AllocationTracker → Outcome AllocationTracker
free_blocks sizes [] expected_sum expected tracker = done tracker
free_blocks sizes (i ∷ free_indices) expected_sum expected tracker = do
  size ← unwrap (get_elem? sizes i)
  let expected_sum = sub_usize expected_sum size
  tracker ← free_allocation tracker i
  old ← unwrap (get_elem? expected i)
  let expected = set expected i (sub_usize old size)
  _ ← assert (tracker.current_allocated_bytes == expected_sum)
  _ ← assert (is_same tracker.current_memory_usage expected)
  free_blocks sizes free_indices expected_sum expected tracker

unfoldable pub current_allocated_matches_sum_of_allocations : List ℕ → List ℕ → Outcome (Unit {0})
current_allocated_matches_sum_of_allocations allocated_sizes free_indices = do
  tracker ← add_blocks 0 allocated_sizes (new_tracker (text "."))
  let expected_sum = sum_usize allocated_sizes
  _ ← assert (tracker.current_allocated_bytes == expected_sum)
  _ ← assert (is_same tracker.current_memory_usage allocated_sizes)
  tracker ← free_blocks allocated_sizes free_indices expected_sum allocated_sizes tracker
  assert (tracker.peak_allocated_bytes == expected_sum)

-- The same with mappings, each at 10000 times its index.
unfoldable pub add_mappings : ℕ → List ℕ → AllocationTracker → Outcome AllocationTracker
add_mappings i [] tracker = done tracker
add_mappings i (size ∷ sizes) tracker = do
  tracker ← add_anon_mmap tracker (mul_usize i 10000) size (call_of i)
  add_mappings (suc i) sizes tracker

unfoldable pub free_mappings :
    List ℕ → List ℕ → ℕ → List ℕ → AllocationTracker → Outcome AllocationTracker
free_mappings sizes [] expected_sum expected tracker = done tracker
free_mappings sizes (i ∷ free_indices) expected_sum expected tracker = do
  size ← unwrap (get_elem? sizes i)
  let expected_sum = sub_usize expected_sum size
  tracker ← free_anon_mmap tracker (mul_usize i 10000) size
  old ← unwrap (get_elem? expected i)
  let expected = set expected i (sub_usize old size)
  _ ← assert (tracker.current_allocated_bytes == expected_sum)
  _ ← assert (is_same tracker.current_memory_usage expected)
  free_mappings sizes free_indices expected_sum expected tracker

unfoldable pub current_allocated_anon_maps_matches_sum_of_allocations :
    List ℕ → List ℕ → Outcome (Unit {0})
current_allocated_anon_maps_matches_sum_of_allocations allocated_sizes free_indices = do
  tracker ← add_mappings 0 allocated_sizes (new_tracker (text "."))
  let expected_sum = sum_usize allocated_sizes
  _ ← assert (tracker.current_allocated_bytes == expected_sum)
  _ ← assert (is_same tracker.current_memory_usage allocated_sizes)
  tracker ← free_mappings allocated_sizes free_indices expected_sum allocated_sizes tracker
  assert (tracker.peak_allocated_bytes == expected_sum)
