-- ===== src/Tests/Units/Peaks.antt =====
-- `peak_allocations_only_updated_on_new_peaks` of memapi/src/memorytracking.rs, run on the model.
use filprofiler.Allocation
use filprofiler.Callstack
use filprofiler.Dump
use filprofiler.HashMap
use filprofiler.Interner
use filprofiler.Tracker
use filprofiler.Word
use filprofiler.Base.{
  ℕ, ◌==◌, ltb, Bool, true, false, List, [], ◌∷◌, length, lookup, some, none, Outcome, done, ◌>>=◌,
  ◌≡◌, refl, ℕ_discrete,
}
use filprofiler.Callstack.{Callstack}
use filprofiler.RangeMap
use filprofiler.RangeMap.{as_hashmap}
use filprofiler.Text.{text}
use filprofiler.Tracker.{
  AllocationTracker, new_tracker, add_allocation, free_allocation, add_anon_mmap, free_anon_mmap,
  check_if_new_peak,
}
use filprofiler.PropertyTests.{assert, is_same}
use filprofiler.Tests.Units.{site, called}

-- The key is there.
abbrev contains_key {ℓ} : {A : Type ℓ} → ℕ → List (ℕ × A) → Bool
contains_key k m = elim (lookup ℕ_discrete k m) [ none ↦ false | some _ ↦ true ]

abbrev cs1 : Callstack
cs1 = called (site 0 2)

abbrev cs2 : Callstack
cs2 = called (site 1 4)

-- The blocks, up to the free of the second one.
unfoldable peaks_of_blocks : Outcome AllocationTracker
peaks_of_blocks = do
  tracker ← add_allocation (new_tracker (text ".")) 1 1000 cs1
  let tracker = check_if_new_peak tracker
  _ ← assert (is_same tracker.current_memory_usage (1000 ∷ []))
  _ ← assert (is_same tracker.current_memory_usage tracker.peak_memory_usage)
  _ ← assert (tracker.peak_allocated_bytes == 1000)
  let previous_peak = tracker.peak_memory_usage
  tracker ← free_allocation tracker 1
  _ ← assert (tracker.current_allocated_bytes == 0)
  _ ← assert (is_same tracker.current_memory_usage (0 ∷ []))
  _ ← assert (is_same previous_peak tracker.peak_memory_usage)
  _ ← assert (tracker.peak_allocated_bytes == 1000)
  tracker ← add_allocation tracker 3 123 cs1
  _ ← assert (is_same tracker.current_memory_usage (123 ∷ []))
  let tracker = check_if_new_peak tracker
  _ ← assert (is_same previous_peak tracker.peak_memory_usage)
  _ ← assert (tracker.peak_allocated_bytes == 1000)
  tracker ← add_allocation tracker 2 2000 cs2
  let tracker = check_if_new_peak tracker
  _ ← assert (is_same tracker.current_memory_usage (123 ∷ 2000 ∷ []))
  _ ← assert (is_same tracker.current_memory_usage tracker.peak_memory_usage)
  _ ← assert (tracker.peak_allocated_bytes == 2123)
  done tracker

-- The mappings, with the peak that the blocks have left.
unfoldable peaks_of_mappings : AllocationTracker → Outcome (Unit {0})
peaks_of_mappings tracker = do
  let previous_peak = tracker.peak_memory_usage
  tracker ← free_allocation tracker 2
  _ ← assert (is_same tracker.current_memory_usage (123 ∷ 0 ∷ []))
  tracker ← add_anon_mmap tracker 50000 1000 cs2
  _ ← assert (is_same tracker.current_memory_usage (123 ∷ 1000 ∷ []))
  let tracker = check_if_new_peak tracker
  _ ← assert (tracker.current_allocated_bytes == 1123)
  _ ← assert (tracker.peak_allocated_bytes == 2123)
  _ ← assert (is_same tracker.peak_memory_usage previous_peak)
  _ ← assert (length tracker.current_allocations == 1)
  _ ← assert (contains_key 3 tracker.current_allocations)
  _ ← assert (ltb 0 (RangeMap.size tracker.current_anon_mmaps))
  tracker ← add_anon_mmap tracker 600000 2000 cs2
  _ ← assert (is_same tracker.current_memory_usage (123 ∷ 3000 ∷ []))
  let tracker = check_if_new_peak tracker
  _ ← assert (is_same tracker.current_memory_usage tracker.peak_memory_usage)
  _ ← assert (tracker.current_allocated_bytes == 3123)
  _ ← assert (tracker.peak_allocated_bytes == 3123)
  tracker ← free_anon_mmap tracker 50000 1000
  _ ← assert (is_same tracker.current_memory_usage (123 ∷ 2000 ∷ []))
  let tracker = check_if_new_peak tracker
  _ ← assert (tracker.current_allocated_bytes == 2123)
  _ ← assert (tracker.peak_allocated_bytes == 3123)
  _ ← assert (RangeMap.size tracker.current_anon_mmaps == 2000)
  _ ← assert (contains_key 600000 (as_hashmap tracker.current_anon_mmaps))
  tracker ← free_anon_mmap tracker 600100 1000
  _ ← assert (is_same tracker.current_memory_usage (123 ∷ 1000 ∷ []))
  _ ← assert (tracker.current_allocated_bytes == 1123)
  _ ← assert (tracker.peak_allocated_bytes == 3123)
  assert (RangeMap.size tracker.current_anon_mmaps == 1000)

unfoldable peak_allocations_only_updated_on_new_peaks : Outcome (Unit {0})
peak_allocations_only_updated_on_new_peaks = peaks_of_blocks >>= peaks_of_mappings

peak_allocations_only_updated_on_new_peaks_passes :
    peak_allocations_only_updated_on_new_peaks ≡ done tt
unfolding peak_allocations_only_updated_on_new_peaks peaks_of_blocks add_allocation
    Tracker.add_memory_usage Tracker.get_callstack_id Interner.get_or_insert_id lookup new_tracker
    Dump.Path-discrete check_if_new_peak Word.add_usize Allocation.size Allocation.new_allocation
    ℕ_discrete free_allocation HashMap.insert Tracker.remove_memory_usage Word.sub_usize
    Callstack.Callstack-discrete called Callstack.start_call HashMap.remove Word.add_u32
    peaks_of_mappings add_anon_mmap RangeMap.add RangeMap.new_range RangeMap.size
    RangeMap.range_size free_anon_mmap RangeMap.remove RangeMap.remove_loop RangeMap.remove_one
    as_hashmap RangeMap.collect RangeMap.intersection Tracker.remove_each
peak_allocations_only_updated_on_new_peaks_passes = refl
