-- ===== src/RangeMap/Points.antt =====
-- `RangeMap` of memapi/src/rangemap.rs seen address by address: the values that the ranges over an
-- address hold, in the order of the ranges.
use filprofiler.Base.{
  ℕ, ◌+◌, ◌-◌, ◌<◌, max, min, ◌≡◌, refl, List, [], ◌∷◌, ◌++◌, arith, ltb, leb, ◌&&◌, Bool, true,
  if◌then◌else◌, All, All-append,
}
use filprofiler.RangeMap.Bounds.{IsProper, chunk, loss, remove_one_lem}
use filprofiler.RangeMap.{Range, RangeMap, remove_loop}

abbrev pub contains : Range → ℕ → Bool
contains r a = leb r.start a && ltb a r.end

-- The addresses from `start` to `start + length`.
abbrev pub within : ℕ → ℕ → ℕ → Bool
within start length a = leb start a && ltb a (start + length)

module _ {V : Type 0} where
  abbrev pub values_at : ℕ → List (Range × V) → List V
  values_at a [] = []
  values_at a ((r, v) ∷ rest) = (if contains r a then v ∷ [] else []) ++ values_at a rest

  -- Every range is proper.
  abbrev pub IsWellFormed : RangeMap V → Type 0
  IsWellFormed m = All (λ e. IsProper e.0) m.ranges

  pub values_at-append :
      (a : ℕ) (xs ys : List (Range × V)) → values_at a (xs ++ ys) ≡ values_at a xs ++ values_at a ys
  values_at-append a [] ys = refl
  values_at-append a ((r, v) ∷ xs) ys = ground (arith, values_at-append a xs ys)

  -- The two pieces that a cut leaves hold the value at the range's addresses outside the cut.
  values_at-pieces :
      (a : ℕ) (cut r : Range) (v : V)
      → cut.start < cut.end
      → values_at a (chunk r.start (min r.end cut.start) v ++ chunk (max r.start cut.end) r.end v)
        ≡ (if contains cut a then [] else values_at a ((r, v) ∷ []))
  values_at-pieces a cut r v c = ground arith

  pieces-IsProper :
      (cut r : Range) (v : V)
      → IsProper r
      → All
          (λ e. IsProper e.0)
          (chunk r.start (min r.end cut.start) v ++ chunk (max r.start cut.end) r.end v)
  pieces-IsProper cut r v p = ground arith

  pieces-All :
      (p : V → Bool) (cut r : Range) (v : V)
      → p v ≡ true
      → All
          (λ e. p e.1 ≡ true)
          (chunk r.start (min r.end cut.start) v ++ chunk (max r.start cut.end) r.end v)
  pieces-All p cut r v q = ground arith

  loss-All : (p : V → Bool) (n : ℕ) (v : V) → p v ≡ true → All (λ e. p e.0 ≡ true) (loss n v)
  loss-All p n v q = ground arith

  loss-reports : (n : ℕ) (v : V) → All (λ e. 0 < e.1) (loss n v)
  loss-reports n v = ground arith

  module _ (cut : Range) (c : IsProper cut) where
    pub remove_loop-IsProper :
        (l : List (Range × V))
        → All (λ e. IsProper e.0) l
        → All (λ e. IsProper e.0) (remove_loop cut (cut.end - cut.start) l).0
    unfolding remove_loop
    remove_loop-IsProper [] h = h
    remove_loop-IsProper ((r, v) ∷ l) h =
        rw (remove_one_lem cut r v c h.0)
          (All-append _ _ _ (pieces-IsProper cut r v h.0) (remove_loop-IsProper l h.1))

    pub values_at-remove_loop :
        (a : ℕ) (l : List (Range × V))
        → All (λ e. IsProper e.0) l
        → values_at a (remove_loop cut (cut.end - cut.start) l).0
          ≡ (if contains cut a then [] else values_at a l)
    unfolding remove_loop
    values_at-remove_loop a [] h = ground arith
    values_at-remove_loop a ((r, v) ∷ l) h =
        rw (remove_one_lem cut r v c h.0, values_at-append)
          (rw (values_at-pieces a cut r v c.nonempty, values_at-remove_loop a l h.1) (ground arith))

    -- No value is made up.
    pub remove_loop-All :
        (p : V → Bool) (l : List (Range × V))
        → All (λ e. IsProper e.0) l
        → All (λ e. p e.1 ≡ true) l
        → All (λ e. p e.1 ≡ true) (remove_loop cut (cut.end - cut.start) l).0
          × All (λ e. p e.0 ≡ true) (remove_loop cut (cut.end - cut.start) l).1
    unfolding remove_loop
    remove_loop-All p [] h q = (tt, tt)
    remove_loop-All p ((r, v) ∷ l) h q =
        let (kept, gone) = remove_loop-All p l h.1 q.1 in
        rw (remove_one_lem cut r v c h.0) (
          All-append _ _ _ (pieces-All p cut r v q.0) kept,
          All-append _ _ _ (loss-All p (min r.end cut.end - max r.start cut.start) v q.0) gone,
        )

    -- No report is empty.
    pub remove_loop-reports :
        (l : List (Range × V))
        → All (λ e. IsProper e.0) l
        → All (λ e. 0 < e.1) (remove_loop cut (cut.end - cut.start) l).1
    unfolding remove_loop
    remove_loop-reports [] h = tt
    remove_loop-reports ((r, v) ∷ l) h = rw (remove_one_lem cut r v c h.0) (
        All-append (λ e. 0 < e.1) _ _ (loss-reports (min r.end cut.end - max r.start cut.start) v)
          (remove_loop-reports l h.1))
