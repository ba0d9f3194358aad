-- ===== src/Profile/Peaks.antt =====
-- The peak of a profile against the peak that memapi/src/memorytracking.rs records by id.
use filprofiler.Base.{
  ℕ, ◌≤◌, ◌≡◌, Bool, ltb, if◌then◌else◌, max, refl, ap, ◌∙◌, inl, inr, arith, List, [], ◌∷◌, length,
  get_or, Option-cases, zero, suc,
}
use filprofiler.Callstack.{Callstack}
use filprofiler.Interner.{CallstackInterner}
use filprofiler.Interner.Numbering.{id_of}
use filprofiler.Interner.Extension.{Extends, by_name, by_name-Extends}
use filprofiler.Tracker.{AllocationTracker, check_if_new_peak}
use filprofiler.Tracker.Peak.{peak_is_max, same_interner}
use filprofiler.Tracker.Slots.{usage_of}
use filprofiler.Tracker.Accounting.{IsAccounted, check_if_new_peak-IsAccounted}
use filprofiler.Tracker.History.{Moves}
use filprofiler.Tracker.History.HighWater.{peak_usage_of, Moves-high, Moves-usage}

get_or_beyond : (l : List ℕ) (i : ℕ) → length l ≤ i → get_or l i 0 ≡ 0
get_or_beyond [] i h = refl
get_or_beyond (x ∷ l) zero h = absurd (omega arith)
get_or_beyond (x ∷ l) (suc i) h = get_or_beyond l i (omega arith)

module _ (t : AllocationTracker) (a : IsAccounted t) where
  -- The next id has nothing yet.
  pub usage_of_new : (id : ℕ) → id ≡ t.interner.max_id → usage_of t id ≡ 0
  usage_of_new id e = get_or_beyond t.current_memory_usage id (omega (arith, a.slots))

  peak_usage_of_new : (id : ℕ) → id ≡ t.interner.max_id → peak_usage_of t id ≡ 0
  peak_usage_of_new id e = get_or_beyond (check_if_new_peak t).peak_memory_usage id (
      omega (
        arith,
        (check_if_new_peak-IsAccounted t a).peak_slots,
        ap (λ (i : CallstackInterner). i.max_id) (same_interner t),
      ))

by_name_if :
    (i : CallstackInterner) (b : Bool) (f g h : ℕ → ℕ)
    → ((k : ℕ) → f k ≡ (if b then g k else h k))
    → (cs : Callstack) → by_name i f cs ≡ (if b then by_name i g cs else by_name i h cs)
by_name_if i b f g h e cs = elim (Option-cases (id_of i cs)) [
  | inl unknown ↦ ground (arith, unknown)
  | inr (k, known) ↦ ground (arith, known, e k)
]

module _ (t t' : AllocationTracker) (m : Moves t t') where
  pub Moves-peak :
      (check_if_new_peak t').peak_allocated_bytes
      ≡ max (check_if_new_peak t).peak_allocated_bytes t'.current_allocated_bytes
  Moves-peak = Moves-high t t' _ _ (refl, λ id. refl) m

  Moves-peak_usage :
      (k : ℕ)
      → peak_usage_of t' k ≡ (
          if ltb (check_if_new_peak t).peak_allocated_bytes t'.current_allocated_bytes
          then usage_of t' k
          else peak_usage_of t k)
  Moves-peak_usage = Moves-usage t t' _ _ (refl, λ id. refl) m

  -- A call that may take a new id.
  pub Moves-Extends :
      (cs : Callstack) (id : ℕ)
      → IsAccounted t
      → IsAccounted t'
      → Extends t.interner cs t'.interner id
      → (k : Callstack)
      → by_name t'.interner (peak_usage_of t') k ≡ (
          if ltb (check_if_new_peak t).peak_allocated_bytes t'.current_allocated_bytes
          then by_name t'.interner (usage_of t') k
          else by_name t.interner (peak_usage_of t) k)
  Moves-Extends cs id a a' x k =
      by_name_if t'.interner _ _ _ _ Moves-peak_usage k
      ∙ ap
          (λ (n : ℕ).
            if ltb (check_if_new_peak t).peak_allocated_bytes t'.current_allocated_bytes
            then by_name t'.interner (usage_of t') k
            else n)
          (by_name-Extends t.interner t'.interner cs id x a.numbered a'.numbered (peak_usage_of t)
              (peak_usage_of t) 0 (λ i. ground arith) (peak_usage_of_new t a id) k
            ∙ ground arith)

  -- A call that does not raise the total.
  pub Moves-lower :
      t'.current_allocated_bytes ≤ t.current_allocated_bytes
      → t'.interner ≡ t.interner
      → (k : Callstack)
      → by_name t'.interner (peak_usage_of t') k ≡ by_name t.interner (peak_usage_of t) k
  Moves-lower less same k =
      by_name_if t'.interner
        (ltb (check_if_new_peak t).peak_allocated_bytes t'.current_allocated_bytes)
        (peak_usage_of t') (usage_of t') (peak_usage_of t) Moves-peak_usage k
      ∙ rw same (ground (arith, less, peak_is_max t))
