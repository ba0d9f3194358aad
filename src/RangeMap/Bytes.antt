-- ===== src/RangeMap/Bytes.antt =====
-- `RangeMap` of memapi/src/rangemap.rs: bytes held and bytes removed, counted for the values that a
-- test selects.
use mathlib.Core.Path.{fun_ext}
use filprofiler.Base.{
  ℕ, zero, suc, ◌+◌, ◌-◌, ◌≤◌, max, min, ◌≡◌, refl, sym, ap, ◌∙◌, List, [], ◌∷◌, ◌++◌, arith, Bool,
  if◌then◌else◌, All, sum_by, sum_by-append, Bool-cases, inl, inr,
}
use filprofiler.RangeMap.Bounds.{IsProper, chunk, loss, remove_one_lem}
use filprofiler.RangeMap.Points.{contains, values_at}
use filprofiler.RangeMap.{Range, remove_loop}

-- The sum of `f` over `start`, …, `start + n - 1`.
abbrev pub sum_range : (ℕ → ℕ) → ℕ → ℕ → ℕ
sum_range f start zero = 0
sum_range f start (suc n) = f start + sum_range f (suc start) n

module _ {V : Type 0} (p : V → Bool) where
  abbrev pub held_bytes : List (Range × V) → ℕ
  held_bytes = sum_by (λ e. if p e.1 then e.0.end - e.0.start else 0)

  abbrev pub removed_bytes : List (V × ℕ) → ℕ
  removed_bytes = sum_by (λ e. if p e.0 then e.1 else 0)

  abbrev pub count_if : List V → ℕ
  count_if = sum_by (λ v. if p v then 1 else 0)

  held_bytes-pieces :
      (cut r : Range) (v : V)
      → IsProper cut
      → IsProper r
      → held_bytes (chunk r.start (min r.end cut.start) v ++ chunk (max r.start cut.end) r.end v)
          + removed_bytes (loss (min r.end cut.end - max r.start cut.start) v)
        ≡ held_bytes ((r, v) ∷ [])
  held_bytes-pieces cut r v c h = ground arith

  module _ (cut : Range) (c : IsProper cut) where
    -- What is removed and what is kept make up what was there.
    pub held_bytes-remove_loop :
        (l : List (Range × V))
        → All (λ e. IsProper e.0) l
        → held_bytes (remove_loop cut (cut.end - cut.start) l).0
            + removed_bytes (remove_loop cut (cut.end - cut.start) l).1
          ≡ held_bytes l
    unfolding remove_loop
    held_bytes-remove_loop [] h = omega arith
    held_bytes-remove_loop ((r, v) ∷ l) h = rw (remove_one_lem cut r v c h.0) (
        omega
          (arith, sum_by-append {0}, held_bytes-pieces cut r v c h.0, held_bytes-remove_loop l h.1))

sum_range-add :
    (f g : ℕ → ℕ) (start n : ℕ)
    → sum_range (λ a. f a + g a) start n ≡ sum_range f start n + sum_range g start n
sum_range-add f g start zero = omega arith
sum_range-add f g start (suc n) = omega (arith, sum_range-add f g (suc start) n)

pub sum_range-congr :
    (f g : ℕ → ℕ) (start n : ℕ)
    → ((a : ℕ) → start ≤ a → f a ≡ g a)
    → sum_range f start n ≡ sum_range g start n
sum_range-congr f g start zero h = refl
sum_range-congr f g start (suc n) h =
    omega
      (arith, h start (omega arith), sum_range-congr f g (suc start) n (λ a k. h a (omega arith)))

pub sum_range-zero : (start n : ℕ) → sum_range (λ a. 0) start n ≡ 0
sum_range-zero start zero = refl
sum_range-zero start (suc n) = omega (arith, sum_range-zero (suc start) n)

-- How many of the addresses of a cut a range contains.
sum_range-contains :
    (r : Range) (start n : ℕ)
    → sum_range (λ a. if contains r a then 1 else 0) start n
      ≡ min r.end (start + n) - max r.start start
sum_range-contains r start zero = omega arith
sum_range-contains r start (suc n) = ground (arith, sum_range-contains r (suc start) n)

module _ {V : Type 0} (p : V → Bool) where
  count_if-values_at :
      (a : ℕ) (r : Range) (v : V) (l : List (Range × V))
      → count_if p (values_at a ((r, v) ∷ l))
        ≡ (if p v then (if contains r a then 1 else 0) else 0) + count_if p (values_at a l)
  count_if-values_at a r v l = ground arith

  removed_bytes-loss : (n : ℕ) (v : V) → removed_bytes p (loss n v) ≡ (if p v then n else 0)
  removed_bytes-loss n v = ground arith

  sum_range-selected :
      (start n : ℕ) (r : Range) (v : V)
      → sum_range (λ a. if p v then (if contains r a then 1 else 0) else 0) start n
        ≡ (if p v then min r.end (start + n) - max r.start start else 0)
  sum_range-selected start n r v = elim (Bool-cases (p v)) [
    | inl e ↦ rw e (sum_range-contains r start n)
    | inr e ↦ rw e (sum_range-zero start n)
  ]

  sum_range-values_at :
      (start n : ℕ) (r : Range) (v : V) (l : List (Range × V))
      → sum_range (λ a. count_if p (values_at a ((r, v) ∷ l))) start n
        ≡ (if p v then min r.end (start + n) - max r.start start else 0)
          + sum_range (λ a. count_if p (values_at a l)) start n
  sum_range-values_at start n r v l =
      ap (λ (f : ℕ → ℕ). sum_range f start n) (fun_ext (λ a. count_if-values_at a r v l))
      ∙ sum_range-add _ _ start n
      ∙ ap (λ (k : ℕ). k + sum_range (λ a. count_if p (values_at a l)) start n)
          (sum_range-selected start n r v)

  -- The bytes removed are those that the view by address has in the cut.
  pub removed_bytes-remove_loop :
      (cut : Range)
      → IsProper cut
      → (l : List (Range × V)) → All (λ e. IsProper e.0) l
      → removed_bytes p (remove_loop cut (cut.end - cut.start) l).1
        ≡ sum_range (λ a. count_if p (values_at a l)) cut.start (cut.end - cut.start)
  unfolding remove_loop
  removed_bytes-remove_loop cut c [] h = sym (sum_range-zero cut.start (cut.end - cut.start))
  removed_bytes-remove_loop cut c ((r, v) ∷ l) h = rw (remove_one_lem cut r v c h.0) (
      ground (
        arith,
        sum_by-append (λ (e : V × ℕ). if p e.0 then e.1 else 0)
            (loss (min r.end cut.end - max r.start cut.start) v)
            (remove_loop cut (cut.end - cut.start) l).1,
        removed_bytes-loss (min r.end cut.end - max r.start cut.start) v,
        sum_range-values_at cut.start (cut.end - cut.start) r v l,
        removed_bytes-remove_loop cut c l h.1,
      ))
