-- ===== src/Tests/Units/Lines.antt =====
-- `combine_callstacks_and_sum_allocations` of memapi/src/memorytracking.rs, run on the model.
use filprofiler.Allocation
use filprofiler.Base
use filprofiler.Dump
use filprofiler.HashMap
use filprofiler.Interner
use filprofiler.RangeMap
use filprofiler.Report
use filprofiler.Text
use filprofiler.Tracker
use filprofiler.Word
use filprofiler.Base.{
  ℕ, ◌==◌, ltb, ◌&&◌, if◌then◌else◌, Bool, true, false, List, [], ◌∷◌, Outcome, done, ◌>>=◌, ◌≡◌,
  refl,
}
use filprofiler.Callstack
use filprofiler.Callstack.{Callstack}
use filprofiler.Text.{text}
use filprofiler.Tracker.{AllocationTracker, new_tracker, add_allocation, add_anon_mmap}
use filprofiler.Report.{to_lines}
use filprofiler.PropertyTests.{assert, is_same}
use filprofiler.Tests.Units.{locations, site, called}

-- The order of the bytes.
abbrev is_before : List ℕ → List ℕ → Bool
is_before [] l = true
is_before (a ∷ k) [] = false
is_before (a ∷ k) (b ∷ l) = if ltb a b then true else (a == b && is_before k l)

abbrev place : List ℕ → List (List ℕ) → List (List ℕ)
place a [] = a ∷ []
place a (b ∷ ls) = if is_before a b then a ∷ b ∷ ls else b ∷ place a ls

-- `sort`
abbrev sort : List (List ℕ) → List (List ℕ)
sort [] = []
sort (l ∷ ls) = place l (sort ls)

abbrev are_lists : List (List ℕ) → List (List ℕ) → Bool
are_lists [] [] = true
are_lists [] (l ∷ ls) = false
are_lists (k ∷ ks) [] = false
are_lists (k ∷ ks) (l ∷ ls) = is_same k l && are_lists ks ls

unfoldable combine_callstacks_and_sum_allocations : Outcome (Unit {0})
combine_callstacks_and_sum_allocations = do
  let cs1 = Callstack.start_call (called (site 0 1)) 0 (site 1 2)
  let cs2 = called (site 2 3)
  let cs3 = Callstack.start_call (called (site 0 7)) 0 (site 1 2)
  tracker ← add_allocation (new_tracker (text ".")) 1 1000 cs1
  tracker ← add_allocation tracker 2 234 cs2
  tracker ← add_anon_mmap tracker 3 50000 cs1
  tracker ← add_allocation tracker 4 6000 cs3
  let expected =
      text "a:1 (af);TB@@a:1@@TB;b:2 (bf);TB@@b:2@@TB 51000"
      ∷ text "c:3 (cf);TB@@c:3@@TB 234"
      ∷ text "a:7 (af);TB@@a:7@@TB;b:2 (bf);TB@@b:2@@TB 6000"
      ∷ []
  (tracker, result) ← to_lines locations tracker true true
  _ ← assert (are_lists (sort expected) (sort result))
  let expected2 =
      text "a:1 (af);b:2 (bf) 51000" ∷ text "c:3 (cf) 234" ∷ text "a:7 (af);b:2 (bf) 6000" ∷ []
  (tracker, result2) ← to_lines locations tracker true false
  assert (are_lists (sort expected2) (sort result2))

combine_callstacks_and_sum_allocations_passes : combine_callstacks_and_sum_allocations ≡ done tt
unfolding combine_callstacks_and_sum_allocations add_allocation Tracker.add_memory_usage
    Tracker.get_callstack_id Interner.get_or_insert_id Base.lookup new_tracker HashMap.insert
    Callstack.Callstack-discrete called Callstack.start_call Base.ℕ_discrete HashMap.remove
    Word.add_u32 add_anon_mmap RangeMap.add RangeMap.new_range to_lines Report.combine_callstacks
    Tracker.check_if_new_peak Word.add_usize Allocation.size Allocation.new_allocation
    Interner.get_reverse_map Text.as_string Callstack.is_empty Text.join Text.frame
    Text.get_filename locations Text.decimal Dump.Path-discrete Text.get_function_name Text.marker
combine_callstacks_and_sum_allocations_passes = refl
