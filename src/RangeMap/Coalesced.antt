-- ===== src/RangeMap/Coalesced.antt =====
-- `as_hashmap` of `RangeMap` and of `StupidRangeMap` (memapi/src/rangemap.rs), as the property test
-- compares them.
use native.Mathlib.Decide.{dec_lt}
use filprofiler.Base.{
  Bool-cases, ℕ, suc, ◌+◌, ◌-◌, ◌≤◌, ◌<◌, ◌≡◌, ◌≢◌, inl, inr, max, min, subst, sym, List, [], ◌∷◌,
  ◌++◌, ltb, if◌then◌else◌, arith, lookup, All, All-append, done, ℕ_discrete,
}
use filprofiler.Word.{usize_mod}
use filprofiler.RangeMap.Bounds.{IsProper, chunk, remove_one_lem, new_range_exact}
use filprofiler.RangeMap.Points.{within, values_at, IsWellFormed}
use filprofiler.RangeMap.Removal.{Removes}
use filprofiler.RangeMap.Agreement.{Agrees}
use filprofiler.RangeMap.Starts.{StartsAfresh, IsApart, as_hashmap-Runs}
use filprofiler.RangeMap.Reference
use filprofiler.RangeMap.Reference.{StupidRangeMap}
use filprofiler.RangeMap.Reference.Runs.Whole.{as_hashmap-AreRuns}
use filprofiler.RangeMap.{Range, RangeMap, remove_loop, remove, add, as_hashmap}

module _ {V : Type 0} where
  -- On a `RangeMap` and a `StupidRangeMap` that agree, `as_hashmap` of the two gives the same at
  -- every key, when the address before each range of the former does not hold the range's value.
  pub as_hashmap-Agrees :
      (dec : Discrete V) (m : RangeMap V) (s : StupidRangeMap V)
      → Agrees m s
      → IsApart m
      → (k : ℕ)
      → lookup ℕ_discrete k (as_hashmap m) ≡ lookup ℕ_discrete k (Reference.as_hashmap dec s)
  as_hashmap-Agrees dec m s g apart k =
      sym (
        as_hashmap-AreRuns _ _ (as_hashmap-Runs m g.valid g.disjoint apart) dec s g.unique g.same k)

  chunk-All :
      (P : ℕ → V → Type 0) (start end : ℕ) (v : V)
      → P start v
      → All (λ e. P e.0.start e.1) (chunk start end v)
  chunk-All P start end v h = elim (Bool-cases (ltb start end)) [
    | inl e ↦ rw e (h, tt)
    | inr e ↦ rw e tt
  ]

  starts-map :
      (P Q : ℕ → V → Type 0) (l : List (Range × V))
      → ((start : ℕ) (v : V) → P start v → Q start v)
      → All (λ e. P e.0.start e.1) l
      → All (λ e. Q e.0.start e.1) l
  starts-map P Q [] f h = tt
  starts-map P Q ((r, v) ∷ l) f h = (f r.start v h.0, starts-map P Q l f h.1)

  -- What holds of the starts of the ranges, and of the end of the cut, holds of the new starts.
  remove_loop-starts :
      (P : ℕ → V → Type 0) (cut : Range) (c : IsProper cut) (l : List (Range × V))
      → All (λ e. IsProper e.0) l
      → All (λ e. P e.0.start e.1) l
      → ((v : V) → P cut.end v)
      → All (λ e. P e.0.start e.1) (remove_loop cut (cut.end - cut.start) l).0
  unfolding remove_loop
  remove_loop-starts P cut c [] h q end = tt
  remove_loop-starts P cut c ((r, v) ∷ l) h q end =
      rw (remove_one_lem cut r v c h.0)
        (All-append (λ e. P e.0.start e.1) _ _ pieces (remove_loop-starts P cut c l h.1 q.1 end))
    where
      pieces :
          All
            (λ e. P e.0.start e.1)
            (chunk r.start (min r.end cut.start) v ++ chunk (max r.start cut.end) r.end v)
      pieces =
          All-append (λ e. P e.0.start e.1) _ _ (chunk-All P r.start (min r.end cut.start) v q.0)
            (chunk-All P (max r.start cut.end) r.end v (elim (dec_lt r.start cut.end) [
              | yes p ↦ subst (λ x. P x v) (omega (arith, p)) (end v)
              | no p ↦ subst (λ x. P x v) (omega (arith, p)) q.0
            ]))

  -- A removal leaves the maps apart: its cut is free.
  pub remove-IsApart :
      (m : RangeMap V) (start n : ℕ) (r : RangeMap V × List (V × ℕ))
      → 0 < n
      → start + n < usize_mod
      → IsWellFormed m
      → remove m start n ≡ done r
      → Removes m start n r
      → IsApart m
      → IsApart r.0
  unfolding remove
  remove-IsApart m start n r pos bound h ran s apart =
      let cut : Range = record { start = start; end = start + n } in
      let c : IsProper cut = record { nonempty = omega arith; bounded = bound } in
      let size : cut.end - cut.start ≡ n = omega arith in
      let same : (remove_loop cut n m.ranges).0 ≡ r.0.ranges =
        ground (arith, ran, new_range_exact start n pos bound) in
      let kept =
        remove_loop-starts (StartsAfresh r.0) cut c m.ranges h
          (starts-map (StartsAfresh m) (StartsAfresh r.0) m.ranges
            (λ k v fresh a next e. fresh a next (ground (arith, s.points a, e))) apart)
          (λ v a next e. absurd (ground (arith, s.points a, next, e))) in
      subst (λ l. All (λ e. StartsAfresh r.0 e.0.start e.1) l) same
        (subst (λ k. All (λ e. StartsAfresh r.0 e.0.start e.1) (remove_loop cut k m.ranges).0) size
          kept)

  held_starts :
      (l : List (Range × V)) → All (λ e. IsProper e.0) l → All (λ e. values_at e.0.start l ≢ []) l
  held_starts l h = go l l h (λ a e. e)
    where
      go :
          (l k : List (Range × V))
          → All (λ e. IsProper e.0) k
          → ((a : ℕ) → values_at a l ≡ [] → values_at a k ≡ [])
          → All (λ e. values_at e.0.start l ≢ []) k
      go l [] h f = tt
      go l ((r, v) ∷ k) h f = (
        λ e. ground (arith, f r.start e, h.0.nonempty),
        go l k h.1 (λ a e. ground (arith, f a e)),
      )

  -- Neither the addresses of the range hold anything, nor those next to it.
  abbrev pub IsClear : RangeMap V → ℕ → ℕ → Type 0
  IsClear m start n = (a : ℕ) → start ≤ suc a → a ≤ start + n → values_at a m.ranges ≡ []

  both :
      (P Q : ℕ → V → Type 0) (l : List (Range × V))
      → All (λ e. P e.0.start e.1) l
      → All (λ e. Q e.0.start e.1) l
      → All (λ e. P e.0.start e.1 × Q e.0.start e.1) l
  both P Q [] h k = tt
  both P Q (e ∷ l) h k = ((h.0, k.0), both P Q l h.1 k.1)

  -- A range with clear addresses round it stays apart from the others.
  pub add-IsApart :
      (m m' : RangeMap V) (start n : ℕ) (v : V)
      → 0 < n
      → start + n < usize_mod
      → IsWellFormed m
      → IsClear m start n
      → add m start n v ≡ done m'
      → ((a : ℕ)
          → values_at a m'.ranges
            ≡ values_at a m.ranges ++ (if within start n a then v ∷ [] else []))
      → IsApart m
      → IsApart m'
  unfolding add
  add-IsApart m m' start n v pos bound h clear ran points apart =
      let range : Range = record { start = start; end = start + n } in
      let same : m.ranges ++ (range, v) ∷ [] ≡ m'.ranges =
        ground (arith, ran, new_range_exact start n pos bound) in
      let old =
        starts-map (λ k w. StartsAfresh m k w × (values_at k m.ranges ≢ [])) (StartsAfresh m')
          m.ranges (λ k w p a next e. ground (arith, points a, clear k, p.1, p.0 a next, next, e))
          (both (StartsAfresh m) (λ k w. values_at k m.ranges ≢ []) m.ranges apart
            (held_starts m.ranges h)) in
      subst (λ l. All (λ e. StartsAfresh m' e.0.start e.1) l) same
        (All-append (λ e. StartsAfresh m' e.0.start e.1) m.ranges ((range, v) ∷ []) old
          (λ a next e. absurd (ground (arith, points a, clear a, next, e)), tt))
