-- ===== src/Report/Peak.antt =====
-- `combine_callstacks(true)` of memapi/src/memorytracking.rs.
use filprofiler.Base.{
  ℕ, suc, ◌+◌, ◌-◌, ◌≤◌, ◌≡◌, ◌==◌, ltb, if◌then◌else◌, true, List, [], ◌∷◌, lookup, none, some,
  leb, ◌&&◌, get_or, sum_by, sum, length, refl, ap, ◌∙◌, arith, ℕ_discrete,
}
use filprofiler.Word.{u32_mod, as_u32}
use filprofiler.HashMap.{insert_absent, HashMap, insert, lookup-insert_self, lookup-insert_ne}
use filprofiler.Tracker.{AllocationTracker, check_if_new_peak}
use filprofiler.Tracker.Accounting.{IsAccounted, check_if_new_peak-IsAccounted}
use filprofiler.Tracker.History.{History}
use filprofiler.Tracker.History.HighWater.{peak_usage_of, History-peak}
use filprofiler.Report.{collect_peak, combine_callstacks}

lookup-insert_cond :
    (i id bytes : ℕ) (m : HashMap ℕ ℕ)
    → lookup ℕ_discrete id (if ltb 0 bytes then insert ℕ_discrete i bytes m else m)
      ≡ (if ltb 0 bytes && (i == id) then some bytes else lookup ℕ_discrete id m)
lookup-insert_cond i id bytes m = elim (ℕ_discrete id i) [
  | yes p ↦ ground (arith, lookup-insert_self ℕ_discrete i bytes m)
  | no p ↦ ground (arith, lookup-insert_ne ℕ_discrete i id bytes m p)
]

lookup-collect_peak :
    (i id : ℕ) (l : List ℕ) (m : HashMap ℕ ℕ)
    → i + length l ≤ u32_mod
    → lookup ℕ_discrete id (collect_peak i l m) ≡ (
        if leb i id && ltb 0 (get_or l (id - i) 0)
        then some (get_or l (id - i) 0)
        else lookup ℕ_discrete id m)
unfolding collect_peak
lookup-collect_peak i id [] m h = ground arith
lookup-collect_peak i id (bytes ∷ l) m h = ground (
  arith,
  lookup-collect_peak (suc i) id l (if ltb 0 bytes then insert ℕ_discrete (as_u32 i) bytes m else m)
      (omega arith),
  lookup-insert_cond (as_u32 i) id bytes m,
  get_or_later i id bytes l,
)
  where
    get_or_later :
        (i id bytes : ℕ) (l : List ℕ)
        → get_or (bytes ∷ l) (id - i) 0 ≡ (if ltb i id then get_or l (id - suc i) 0 else bytes)
    get_or_later i id bytes l = ground arith

-- The check leaves the report's vector as long as there are callstacks at most.
peak_fits :
    (t : AllocationTracker)
    → IsAccounted t
    → 0 + length (check_if_new_peak t).peak_memory_usage ≤ u32_mod
peak_fits t a = let c = check_if_new_peak-IsAccounted t a in omega (arith, c.peak_slots, c.ids_last)

-- The report of the peak has an entry for exactly the callstacks that had bytes at the recorded
-- peak, with those bytes.
pub combine_callstacks_peak :
    (t : AllocationTracker) (id : ℕ)
    → IsAccounted t
    → lookup ℕ_discrete id (combine_callstacks t true).1
      ≡ (if ltb 0 (peak_usage_of t id) then some (peak_usage_of t id) else none)
unfolding combine_callstacks lookup
combine_callstacks_peak t id a =
    ground
      (arith, lookup-collect_peak 0 id (check_if_new_peak t).peak_memory_usage [] (peak_fits t a))

-- After every history, the report of the peak has an entry for exactly the callstacks that had
-- bytes in use when the high-water mark was first reached, with the bytes that each had then.
pub History-combine_callstacks :
    {t : AllocationTracker} {high : ℕ} {usage : ℕ → ℕ}
    → History t high usage
    → (id : ℕ)
    → lookup ℕ_discrete id (combine_callstacks t true).1
      ≡ (if ltb 0 (usage id) then some (usage id) else none)
History-combine_callstacks {t} {high} {usage} h id =
    let (s, peak, used) = History-peak h in
    combine_callstacks_peak t id s.accounted
    ∙ ap (λ (n : ℕ). if ltb 0 n then some n else none) (used id)

-- No key is `i` or above.
abbrev IsBelow : ℕ → HashMap ℕ ℕ → Type 0
IsBelow i m = (k : ℕ) → i ≤ k → lookup ℕ_discrete k m ≡ none

sum_by-collect_peak :
    (i : ℕ) (l : List ℕ) (m : HashMap ℕ ℕ)
    → i + length l ≤ u32_mod
    → IsBelow i m
    → sum_by (λ e. e.1) (collect_peak i l m) ≡ sum l + sum_by (λ e. e.1) m
unfolding collect_peak
sum_by-collect_peak i [] m h b = omega arith
sum_by-collect_peak i (bytes ∷ l) m h b =
    let same : as_u32 i ≡ i = omega arith in
    let inserted : insert ℕ_discrete i bytes m ≡ (i, bytes) ∷ m =
      insert_absent ℕ_discrete i bytes m (b i (omega arith)) in
    sum_by-collect_peak (suc i) l (if ltb 0 bytes then insert ℕ_discrete (as_u32 i) bytes m else m)
      (omega arith) (λ k le. ground (arith, b k, lookup-insert_cond (as_u32 i) k bytes m))
    ∙ ground (arith, same, inserted)

-- When the books are in order, the sizes in the report of the peak add up to the recorded peak.
pub combine_callstacks_total :
    (t : AllocationTracker)
    → IsAccounted t
    → sum_by (λ e. e.1) (combine_callstacks t true).1
      ≡ (combine_callstacks t true).0.peak_allocated_bytes
unfolding combine_callstacks lookup
combine_callstacks_total t a =
    let c = check_if_new_peak-IsAccounted t a in
    omega (
      arith,
      c.peak_total,
      sum_by-collect_peak 0 (check_if_new_peak t).peak_memory_usage [] (peak_fits t a)
          (λ k le. refl),
    )
