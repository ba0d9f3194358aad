-- ===== src/RangeMap/Reference/Runs/Whole.antt =====
-- The loop of `StupidRangeMap::as_hashmap` (memapi/src/rangemap.rs) as a whole.
use filprofiler.Base.{
  ℕ, suc, ◌≤◌, ◌≡◌, ◌∙◌, inl, inr, refl, sym, [], ◌∷◌, arith, lookup, Option, Option-cases, none,
  some, ℕ_discrete,
}
use filprofiler.HashMap.{HashMap, IsUnique}
use filprofiler.RangeMap.Reference.{
  Coalescing, StupidRangeMap, coalesce_one, coalesce, as_hashmap, in_order,
}
use filprofiler.RangeMap.Reference.Order.{IsFrom, lookup-below, lookup-in_order, in_order-IsFrom}
use filprofiler.RangeMap.Reference.Runs.{AreRuns, HasSeen, IsGap, HasSeen-gap}
use filprofiler.RangeMap.Reference.Runs.Rounds.{HasSeen-coalesce_one}

module _ {V : Type 0} (f : ℕ → Option V) (runs : ℕ → Option (ℕ × V)) (r : AreRuns f runs) where
  HasSeen-coalesce :
      (dec : Discrete V) (b : ℕ) (rest : HashMap ℕ V) (s : Coalescing V)
      → IsFrom b rest
      → ((a : ℕ) → b ≤ a → lookup ℕ_discrete a rest ≡ f a)
      → HasSeen f runs r b s
      → (c : ℕ) × HasSeen f runs r c (coalesce dec rest s) × ((a : ℕ) → c ≤ a → f a ≡ none)
  unfolding coalesce lookup
  HasSeen-coalesce dec b [] s from same seen = (b, seen, λ a l. sym (same a l))
  HasSeen-coalesce dec b ((k, v) ∷ rest) s from same seen =
      let here : f k ≡ some v = sym (same k from.0) ∙ ground arith in
      let gap : IsGap f runs r b k = λ a l l'.
        sym (same a l)
        ∙ ground (arith, lookup-below (suc k) a rest from.1 (omega (arith, l')), l') in
      HasSeen-coalesce dec (suc k) rest (coalesce_one dec k v s) from.1
        (λ a l. sym (ground (arith, l)) ∙ same a (omega (arith, from.0, l)))
        (HasSeen-coalesce_one f runs r dec k v here s (HasSeen-gap f runs r b k s from.0 gap seen))

  -- The loop starts before all addresses.
  HasSeen-start : HasSeen f runs r 0 (record { result = []; last_entry = none; last_k = 0 })
  unfolding lookup
  HasSeen-start = record {
    entries = λ k. elim (Option-cases (runs k)) [
      | inl e ↦ rw e refl
      | inr ((n, v), e) ↦ ground (arith, e)
    ];
    last = inl (refl, λ a l. absurd (omega arith));
  }

  -- Where the items are those of `f`, the entries of `as_hashmap` are the runs of `f`.
  pub as_hashmap-AreRuns :
      (dec : Discrete V) (m : StupidRangeMap V)
      → IsUnique ℕ_discrete m.items
      → ((a : ℕ) → lookup ℕ_discrete a m.items ≡ f a)
      → (k : ℕ) → lookup ℕ_discrete k (as_hashmap dec m) ≡ runs k
  unfolding as_hashmap
  as_hashmap-AreRuns dec m u same k =
      let (c, seen, end) =
        HasSeen-coalesce dec 0 (in_order m.items) _ (in_order-IsFrom m.items u)
          (λ a _. lookup-in_order a m.items ∙ same a) HasSeen-start in
      seen.entries k ∙ elim (Option-cases (runs k)) [
        | inl e ↦ rw e refl
        | inr ((n, v), e) ↦
            ground
              (arith, e, r.nonempty k n v e, end k, r.holds k n k v e, end c, r.holds k n c v e)
      ]
