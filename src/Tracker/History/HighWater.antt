-- ===== src/Tracker/History/HighWater.antt =====
-- The peak that `AllocationTracker` (memapi/src/memorytracking.rs) records in a history.
use filprofiler.Base.{ℕ, ◌≡◌, max, ltb, if◌then◌else◌, get_or, refl, subst, arith, List, done}
use filprofiler.Tracker.{AllocationTracker, new_tracker, check_if_new_peak}
use filprofiler.Tracker.Slots.{usage_of}
use filprofiler.Tracker.Peak.{peak_is_max}
use filprofiler.Tracker.Accounting.{new_tracker-IsAccounted}
use filprofiler.Tracker.History.{
  History, start, next, IsSound, Moves, up, down, step, step-Moves, Call, IsAdmissible,
}

-- The usage of a callstack at the recorded peak, once that is checked.
abbrev pub peak_usage_of : AllocationTracker → ℕ → ℕ
peak_usage_of t id = get_or (check_if_new_peak t).peak_memory_usage id 0

abbrev pub RecordsPeak : AllocationTracker → ℕ → (ℕ → ℕ) → Type 0
RecordsPeak t high usage =
    ((check_if_new_peak t).peak_allocated_bytes ≡ high) × ((id : ℕ) → peak_usage_of t id ≡ usage id)

module _ (t t' : AllocationTracker) (high : ℕ) (usage : ℕ → ℕ) (r : RecordsPeak t high usage) where
  pub Moves-high :
      Moves t t' → (check_if_new_peak t').peak_allocated_bytes ≡ max high t'.current_allocated_bytes
  Moves-high (up id bytes charged total same_peak same_usage) =
      omega (arith, peak_is_max t, peak_is_max t', r.0, total, same_peak)
  Moves-high (down less peak peak_usage) =
      omega (arith, peak_is_max t, peak_is_max t', r.0, less, peak)

  pub Moves-usage :
      Moves t t'
      → (id : ℕ)
      → peak_usage_of t' id
        ≡ (if ltb high t'.current_allocated_bytes then usage_of t' id else usage id)
  unfolding check_if_new_peak
  Moves-usage (up i bytes charged total same_peak same_usage) id =
      ground (arith, charged id, r.0, r.1 id, total, same_peak, same_usage)
  Moves-usage (down less peak peak_usage) id = ground (arith, r.0, r.1 id, less, peak, peak_usage)

pub new_tracker-IsSound : (path : List ℕ) → IsSound (new_tracker path)
unfolding new_tracker
new_tracker-IsSound path = record {
  accounted = new_tracker-IsAccounted path;
  disjoint = λ a. omega arith;
}

new_tracker-RecordsPeak : (path : List ℕ) → RecordsPeak (new_tracker path) 0 (λ id. 0)
unfolding new_tracker check_if_new_peak
new_tracker-RecordsPeak path = (refl, λ id. refl)

-- The outcome of an admissible call, given the call.
step_outcome :
    (t t' : AllocationTracker) (c : Call)
    → IsSound t
    → IsAdmissible t c
    → step c t ≡ done t'
    → IsSound t' × Moves t t'
step_outcome t t' c s ok e =
    let (t'', ran, s', m) = step-Moves t c s ok in
    let same : t'' ≡ t' = cc (ran, e) in subst (λ x. IsSound x × Moves t x) same (s', m)

-- After every history (a new tracker, then any sequence of calls each of which is admissible: an
-- allocation at a free address, a mapping of free addresses, a freeing of any address, an unmapping
-- of any addresses, within the word sizes), the tracker is sound; and once the peak is checked, the
-- recorded peak is the high-water mark of the bytes in use, and the recorded usage of each
-- callstack is its usage when that mark was first reached.
pub History-peak :
    {t : AllocationTracker} {high : ℕ} {usage : ℕ → ℕ}
    → History t high usage
    → IsSound t
      × ((check_if_new_peak t).peak_allocated_bytes ≡ high)
      × ((id : ℕ) → peak_usage_of t id ≡ usage id)
History-peak (start path) =
    let (peak, used) = new_tracker-RecordsPeak path in (new_tracker-IsSound path, peak, used)
History-peak (next {t} {t'} {high} {usage} h c ok e) =
    let (s, peak, used) = History-peak h in
    let (s', m) = step_outcome t t' c s ok e in
    (s', Moves-high t t' high usage (peak, used) m, Moves-usage t t' high usage (peak, used) m)
