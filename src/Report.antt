-- ===== src/Report.antt =====
-- memapi/src/memorytracking.rs: the report of the tracker, by callstack id (`combine_callstacks`) and
-- as lines of text (`to_lines`).
pub mod Current
pub mod Peak
pub mod Names
pub mod Lines
pub mod ByName
pub mod Total
pub mod Remapped
use filprofiler.Base.{
  ℕ, zero, suc, ltb, if◌then◌else◌, Bool, true, false, List, [], ◌∷◌, ◌++◌, length, get_elem?,
  lookup, Outcome, done, ◌>>=◌, unwrap, ℕ_discrete,
}
use filprofiler.Word.{as_u32}
use filprofiler.HashMap.{HashMap, insert, add_entry}
use filprofiler.RangeMap.{as_hashmap}
use filprofiler.Callstack.{Callstack}
use filprofiler.Interner.{get_reverse_map}
use filprofiler.Allocation.{Allocation, size}
use filprofiler.Text.{Memory, text, decimal, as_string}
use filprofiler.Tracker.{AllocationTracker, check_if_new_peak}

-- the loop over `peak_memory_usage`, from the index `i`
unfoldable pub collect_peak : ℕ → List ℕ → HashMap ℕ ℕ → HashMap ℕ ℕ
collect_peak i [] by_call = by_call
collect_peak i (size ∷ rest) by_call =
    collect_peak (suc i) rest
      (if ltb 0 size then insert ℕ_discrete (as_u32 i) size by_call else by_call)

-- the loop over the values of `current_allocations`
unfoldable pub collect_allocations : HashMap ℕ Allocation → HashMap ℕ ℕ → HashMap ℕ ℕ
collect_allocations [] by_call = by_call
collect_allocations ((_, allocation) ∷ rest) by_call =
    collect_allocations rest
      (add_entry ℕ_discrete allocation.callstack_id (size allocation) by_call)

-- the loop over the values of `current_anon_mmaps.as_hashmap()`
unfoldable pub collect_mmaps : HashMap ℕ (ℕ × ℕ) → HashMap ℕ ℕ → HashMap ℕ ℕ
collect_mmaps [] by_call = by_call
collect_mmaps ((_, (size, callstack_id)) ∷ rest) by_call =
    collect_mmaps rest (add_entry ℕ_discrete callstack_id size by_call)

-- The tracker with its peak checked, and the bytes by callstack id. If `peak` is false, those of the
-- current allocations.
unfoldable pub combine_callstacks : AllocationTracker → Bool → AllocationTracker × HashMap ℕ ℕ
unfolding collect_peak collect_allocations collect_mmaps
combine_callstacks self peak =
    let tracker = check_if_new_peak self in
    let by_call =
      if peak
      then collect_peak 0 tracker.peak_memory_usage []
      else collect_mmaps (as_hashmap tracker.current_anon_mmaps)
          (collect_allocations tracker.current_allocations []) in
    (tracker, by_call)

module _ (memory : Memory) where
  -- the closure of `to_lines`
  unfoldable pub to_line : HashMap ℕ Callstack → Bool → ℕ × ℕ → Outcome (List ℕ)
  to_line id_to_callstack to_be_post_processed (callstack_id, size) = do
    callstack ← unwrap (lookup ℕ_discrete callstack_id id_to_callstack)
    done (as_string memory callstack to_be_post_processed ++ (text " " ++ decimal size))

  -- `by_call.map(...)`
  unfoldable pub map_lines : HashMap ℕ Callstack → Bool → HashMap ℕ ℕ → Outcome (List (List ℕ))
  unfolding to_line
  map_lines id_to_callstack to_be_post_processed [] = done []
  map_lines id_to_callstack to_be_post_processed (e ∷ rest) = do
    line ← to_line id_to_callstack to_be_post_processed e
    lines ← map_lines id_to_callstack to_be_post_processed rest
    done (line ∷ lines)

  unfoldable pub to_lines :
      AllocationTracker → Bool → Bool → Outcome (AllocationTracker × List (List ℕ))
  unfolding map_lines
  to_lines self peak to_be_post_processed =
      let (tracker, by_call) = combine_callstacks self peak in
      let id_to_callstack = get_reverse_map tracker.interner in
      do lines ← map_lines id_to_callstack to_be_post_processed by_call; done (tracker, lines)
