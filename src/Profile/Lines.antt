-- ===== src/Profile/Lines.antt =====
-- The lines of the peak (`to_lines(true)` of memapi/src/memorytracking.rs) as what the profile says,
-- in an order that is left open.
use mathlib.Core.List.{Perm, map}
use mathlib.Core.List.Perm
use filprofiler.Base.{
  ℕ, ◌<◌, ◌≡◌, ◌∙◌, sym, ap, ltb, if◌then◌else◌, Bool, true, List, [], length, lookup, Option-cases,
  inl, inr, some, none, refl, arith, done,
}
use filprofiler.Word.{u32_mod}
use filprofiler.HashMap.{HashMap, IsUnique}
use filprofiler.HashMap.Order.{perm_of}
use filprofiler.Callstack.{Callstack, Callstack-discrete}
use filprofiler.Interner.Numbering.{id_of}
use filprofiler.Text.{Memory}
use filprofiler.Tracker.{AllocationTracker, check_if_new_peak, new_tracker}
use filprofiler.Tracker.Peak.{same_interner}
use filprofiler.Tracker.Accounting.{IsAccounted, check_if_new_peak-IsAccounted}
use filprofiler.Tracker.History.{Call}
use filprofiler.Profile.Runs.{run, run-new_tracker_refines}
use filprofiler.Report.{combine_callstacks, to_lines}
use filprofiler.Report.Names.{combine_callstacks-KeysBelow}
use filprofiler.Report.Peak.{combine_callstacks_peak}
use filprofiler.Report.ByName.{
  by_callstack, line_of, lookup-by_callstack, by_callstack-IsUnique, map_lines-by_callstack,
}
use filprofiler.Profile.{profile, nothing_used, replay, AreAllowed}
use filprofiler.Profile.Shown.{collect_peak-IsUnique}

-- The peak of a tracker by callstack.
abbrev peak_entries : AllocationTracker → HashMap Callstack ℕ
peak_entries t = by_callstack (check_if_new_peak t).interner (combine_callstacks t true).1

module _ (t : AllocationTracker) (a : IsAccounted t) where
  to_lines-peak_entries :
      (memory : Memory) (post : Bool)
      → to_lines memory t true post
        ≡ done (check_if_new_peak t, map (line_of memory post) (peak_entries t))
  unfolding to_lines combine_callstacks
  to_lines-peak_entries memory post =
      let c = check_if_new_peak-IsAccounted t a in
      rw
        (map_lines-by_callstack (check_if_new_peak t).interner c.numbered memory post
          (combine_callstacks t true).1 (combine_callstacks-KeysBelow t true a))
        refl

  peak_entries-IsUnique : IsUnique Callstack-discrete (peak_entries t)
  unfolding combine_callstacks
  peak_entries-IsUnique =
      by_callstack-IsUnique (check_if_new_peak t).interner
        (check_if_new_peak-IsAccounted t a).numbered (combine_callstacks t true).1
        (collect_peak-IsUnique 0 (check_if_new_peak t).peak_memory_usage [] tt)

  -- The callstacks with bytes at the peak, with these bytes.
  lookup-peak_entries :
      (cs : Callstack)
      → lookup Callstack-discrete cs (peak_entries t)
        ≡ (if ltb 0 ((profile t).peak_usage cs) then some ((profile t).peak_usage cs) else none)
  unfolding profile
  lookup-peak_entries cs =
      lookup-by_callstack (check_if_new_peak t).interner
        (check_if_new_peak-IsAccounted t a).numbered cs (combine_callstacks t true).1
      ∙ rw (same_interner t) (elim (Option-cases (id_of t.interner cs)) [
        | inl e ↦ ground (arith, e)
        | inr (id, e) ↦ ground (arith, e, combine_callstacks_peak t id a)
      ])

-- Trackers with the same bytes at the peak for each callstack have the same lines, up to order.
to_lines-perm :
    (memory : Memory) (post : Bool) (t t' : AllocationTracker)
    → IsAccounted t
    → IsAccounted t'
    → ((cs : Callstack) → (profile t).peak_usage cs ≡ (profile t').peak_usage cs)
    → (lines lines' : List (List ℕ)) × (to_lines memory t true post
        ≡ done (check_if_new_peak t, lines))
      × (to_lines memory t' true post ≡ done (check_if_new_peak t', lines'))
      × Perm lines lines'
to_lines-perm memory post t t' a a' same = (
  map (line_of memory post) (peak_entries t),
  map (line_of memory post) (peak_entries t'),
  to_lines-peak_entries t a memory post,
  to_lines-peak_entries t' a' memory post,
  Perm.map (line_of memory post) (
      perm_of Callstack-discrete (peak_entries t) (peak_entries t') (peak_entries-IsUnique t a)
        (peak_entries-IsUnique t' a')
        (λ cs.
          lookup-peak_entries t a cs
          ∙ ap (λ (n : ℕ). if ltb 0 n then some n else none) (same cs)
          ∙ sym (lookup-peak_entries t' a' cs))),
)

-- When two sequences of fewer than 2 ^ 32 calls each, which the profile allows in their turns, give
-- each callstack the same bytes at the peak of the profile, neither panics on a new tracker, and
-- the lines that `to_lines` of the peak gives after the one are a permutation of those after the
-- other.
pub to_lines-run-perm :
    (memory : Memory) (post : Bool) (path path' : List ℕ) (cs cs' : List Call)
    → length cs < u32_mod
    → length cs' < u32_mod
    → AreAllowed nothing_used cs
    → AreAllowed nothing_used cs'
    → ((k : Callstack)
        → (replay cs nothing_used).peak_usage k ≡ (replay cs' nothing_used).peak_usage k)
    → (t t' : AllocationTracker) × (lines lines' : List (List ℕ)) × (run cs (new_tracker path)
        ≡ done t)
      × (run cs' (new_tracker path') ≡ done t')
      × (to_lines memory t true post ≡ done (check_if_new_peak t, lines))
      × (to_lines memory t' true post ≡ done (check_if_new_peak t', lines'))
      × Perm lines lines'
to_lines-run-perm memory post path path' cs cs' few few' ok ok' same =
    let (t, ran, sound, is) = run-new_tracker_refines path cs few ok in
    let (t', ran', sound', is') = run-new_tracker_refines path' cs' few' ok' in
    let (lines, lines', shown, shown', perm) =
      to_lines-perm memory post t t' sound.accounted sound'.accounted
        (λ k. ap (λ p. p.peak_usage k) is ∙ same k ∙ sym (ap (λ p. p.peak_usage k) is')) in
    (t, t', lines, lines', ran, ran', shown, shown', perm)
