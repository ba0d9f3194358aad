-- ===== src/Tests/Reports.antt =====
-- Runs of the lemmas on the reports (memapi/src/memorytracking.rs) on concrete trackers.
use filprofiler.Base.{
  ℕ, ◌≡◌, ◌+◌, refl, arith, List, true, false, some, none, lookup, done, sum_by, ltb, if◌then◌else◌,
  ℕ_discrete,
}
use filprofiler.HashMap.{amount, insert}
use filprofiler.Tracker.{AllocationTracker, add_anon_mmap, check_if_new_peak}
use filprofiler.Report.Remapped.{combine_callstacks_remapped}
use filprofiler.RangeMap.{as_hashmap, range_size}
use filprofiler.Word.{sub_usize}
use filprofiler.Tests.{flat, busy, busy-IsAccounted, busy-IsDisjoint, all_a}
use filprofiler.Tracker.Slots.{usage_of}
use filprofiler.Report.{combine_callstacks, to_lines}
use filprofiler.Report.Peak.{History-combine_callstacks, combine_callstacks_total}
use filprofiler.Report.Current.{combine_callstacks_current}
use filprofiler.Report.Total.{combine_callstacks_current_total}
use filprofiler.Report.Lines.{Shows, to_lines-Shows}
use filprofiler.Tests.Books.{after_two, two_calls_usage, two_calls-History}

History-combine_callstacks_example :
    lookup ℕ_discrete 0 (combine_callstacks after_two true).1
    ≡ (if ltb 0 (two_calls_usage 0) then some (two_calls_usage 0) else none)
History-combine_callstacks_example = History-combine_callstacks two_calls-History 0

combine_callstacks_total_example :
    sum_by (λ e. e.1) (combine_callstacks busy true).1
    ≡ (combine_callstacks busy true).0.peak_allocated_bytes
combine_callstacks_total_example = combine_callstacks_total busy busy-IsAccounted

combine_callstacks_current_example :
    amount ℕ_discrete 0 (combine_callstacks busy false).1 ≡ usage_of busy 0
combine_callstacks_current_example =
    combine_callstacks_current busy 0 busy-IsAccounted busy-IsDisjoint

to_lines-Shows_example :
    (lines : List (List ℕ)) × (to_lines all_a busy true false
      ≡ done (check_if_new_peak busy, lines))
    × Shows all_a (check_if_new_peak busy).interner false lines (combine_callstacks busy true).1
to_lines-Shows_example = to_lines-Shows all_a busy true false busy-IsAccounted

combine_callstacks_current_total_example :
    sum_by (λ e. e.1) (combine_callstacks busy false).1 ≡ busy.current_allocated_bytes
combine_callstacks_current_total_example =
    combine_callstacks_current_total busy busy-IsAccounted busy-IsDisjoint

-- The mapping of `busy` as the report sees it.
fifty_bytes : lookup ℕ_discrete 100 (as_hashmap busy.current_anon_mmaps) ≡ some (50, 0)
unfolding as_hashmap range_size sub_usize insert lookup ℕ_discrete
fifty_bytes = refl

combine_callstacks_remapped_example :
    (t' : AllocationTracker) × (add_anon_mmap busy 100 30 flat ≡ done t')
    × (t'.current_allocated_bytes ≡ 401080)
    × (sum_by (λ e. e.1) (combine_callstacks t' false).1 + 50 ≡ t'.current_allocated_bytes)
combine_callstacks_remapped_example =
    combine_callstacks_remapped busy 100 30 50 0 flat busy-IsAccounted busy-IsDisjoint fifty_bytes
      (omega arith) (omega arith) (omega arith) (omega arith)
