-- ===== src/Profile/Pages.antt =====
-- The bytes that an unmapping of memapi/src/memorytracking.rs takes, counted by id and by callstack.
use filprofiler.Base.{
  ℕ, ◌-◌, ◌≤◌, ◌≡◌, ◌≢◌, ◌==◌, ltb, ltb→lt, true, List, [], ◌∷◌, some, length, All, Option-cases,
  inl, inr, refl, ap, ◌∙◌, arith,
}
use filprofiler.Callstack.{Callstack, Callstack-discrete}
use filprofiler.RangeMap.Points.{values_at}
use filprofiler.RangeMap.Bytes.{sum_range, sum_range-congr, count_if}
use filprofiler.RangeMap.Disjoint.{IsDisjoint}
use filprofiler.Interner.{CallstackInterner}
use filprofiler.Interner.Numbering.{IsNumbered, id_of, lookup_injective}
use filprofiler.Interner.Extension.{by_name}
use filprofiler.Tracker.{AllocationTracker}
use filprofiler.Tracker.Slots.{usage_of}
use filprofiler.Tracker.Accounting.{IsAccounted}
use filprofiler.Tracker.Accounting.Unmapping.{Unmaps}
use filprofiler.Profile.{page_of, is_owned, is_taken}
use filprofiler.Profile.Names.{pages_below, name_of_below}

module _ (i : CallstackInterner) (v : IsNumbered i) where
  count_if-is_owned :
      (k : Callstack) (id : ℕ) (l : List ℕ)
      → id_of i k ≡ some id
      → length l ≤ 1
      → All (λ x. ltb x i.max_id ≡ true) l
      → count_if (λ x. x == id) l ≡ is_owned k (page_of i l)
  count_if-is_owned k id [] known one h = refl
  count_if-is_owned k id (x ∷ []) known one h =
      let (cs, named, there) = name_of_below i x v (ltb→lt _ _ h.0) in
      elim (Callstack-discrete k cs) [
        | yes p ↦
            let same : x ≡ id = ground (arith, p, there, known) in ground (arith, named, same, p)
        | no p ↦
            let differ : x ≢ id = λ q.
              p (lookup_injective id k cs i.callstack_to_id v.distinct known (there ∙ ap some q)) in
            ground (arith, named, differ, p)
      ]
  count_if-is_owned k id (x ∷ y ∷ l) known one h = absurd (omega arith)

  count_if-is_taken :
      (l : List ℕ)
      → length l ≤ 1
      → All (λ x. ltb x i.max_id ≡ true) l
      → count_if (λ _. true) l ≡ is_taken (page_of i l)
  count_if-is_taken [] one h = refl
  count_if-is_taken (x ∷ []) one h =
      let (cs, named, there) = name_of_below i x v (ltb→lt _ _ h.0) in ground (arith, named)
  count_if-is_taken (x ∷ y ∷ l) one h = absurd (omega arith)

module _ (t : AllocationTracker) (a : IsAccounted t) (d : IsDisjoint t.current_anon_mmaps)
    (address bytes : ℕ) (t' : AllocationTracker) (e : Unmaps t address bytes t') where
  pub by_name-Unmaps :
      (k : Callstack)
      → by_name t.interner (usage_of t') k
        ≡ by_name t.interner (usage_of t) k
          - sum_range
              (λ q. is_owned k (page_of t.interner (values_at q t.current_anon_mmaps.ranges)))
              address
              bytes
  by_name-Unmaps k = elim (Option-cases (id_of t.interner k)) [
    | inl unknown ↦ ground (arith, unknown)
    | inr (id, known) ↦
        let counted =
          sum_range-congr (λ q. count_if (λ x. x == id) (values_at q t.current_anon_mmaps.ranges))
            (λ q. is_owned k (page_of t.interner (values_at q t.current_anon_mmaps.ranges))) address
            bytes
            (λ q _.
              count_if-is_owned t.interner a.numbered k id _ known (d q) (pages_below t a q)) in
        rw (known, by_name) (omega (arith, e.credited id, counted))
  ]

  pub total-Unmaps :
      t'.current_allocated_bytes
      ≡ t.current_allocated_bytes
        - sum_range
            (λ q. is_taken (page_of t.interner (values_at q t.current_anon_mmaps.ranges)))
            address
            bytes
  total-Unmaps =
      let counted =
        sum_range-congr (λ q. count_if (λ _. true) (values_at q t.current_anon_mmaps.ranges))
          (λ q. is_taken (page_of t.interner (values_at q t.current_anon_mmaps.ranges))) address
          bytes (λ q _. count_if-is_taken t.interner a.numbered _ (d q) (pages_below t a q)) in
      omega (arith, e.credited_total, counted)
