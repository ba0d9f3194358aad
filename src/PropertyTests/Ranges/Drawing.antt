-- ===== src/PropertyTests/Ranges/Drawing.antt =====
-- The ranges that `ranges` of memapi/src/rangemap.rs makes, in any order, and the property test over
-- all of them.
use mathlib.Core.List.{Perm, Permᴰ}
use mathlib.Core.Logic.{∥∥₁_elim}
use filprofiler.Base.{
  ℕ, ◌+◌, ◌*◌, ◌≤◌, ◌<◌, ◌≡◌, inl, inr, refl, sym, subst, List, [], ◌∷◌, arith, lookup, length, All,
  sum_by, done,
}
use filprofiler.Word.{usize_mod, add_usize_exact}
use filprofiler.RangeMap.{empty}
use filprofiler.RangeMap.Reference
use filprofiler.RangeMap.Reference.{new_stupid}
use filprofiler.PropertyTests.Ranges.{ranges_from, adding_removing_ranges}
use filprofiler.PropertyTests.Ranges.Adding.{
  InStep, IsSpaced, AreSpaced, IsDrawn, AreClear, add_each-passes,
}
use filprofiler.PropertyTests.Ranges.Removing.{IsRemovable, remove_ranges_each-passes}

-- The vectors that `ranges` draws: 1 to 19 pairs of numbers from 1 to 19.
abbrev pub IsVec : List (ℕ × ℕ) → Type 0
IsVec vec =
    (1 ≤ length vec)
    × (length vec < 20)
    × All (λ e. (1 ≤ e.0) × (e.0 < 20) × (1 ≤ e.1) × (e.1 < 20)) vec

-- The ranges lie behind an address, are not empty, and leave room for their length again.
abbrev Lies : ℕ → ℕ → ℕ × ℕ → Type 0
Lies low high (start, n) = (low < start) × (0 < n) × (start + n * 2 ≤ high)

reach : List (ℕ × ℕ) → ℕ
reach = sum_by (λ e. e.0 + e.1 * 2)

Lies-weaker :
    (low low' high high' : ℕ) (l : List (ℕ × ℕ))
    → low' ≤ low
    → high ≤ high'
    → All (Lies low high) l
    → All (Lies low' high') l
Lies-weaker low low' high high' [] p q h = tt
Lies-weaker low low' high high' ((s, n) ∷ l) p q h =
    ((omega (arith, h.0.0), h.0.1, omega (arith, h.0.2)), Lies-weaker low low' high high' l p q h.1)

Lies-IsSpaced :
    (s n high : ℕ) (l : List (ℕ × ℕ)) → All (Lies (s + n) high) l → All (IsSpaced (s, n)) l
Lies-IsSpaced s n high [] h = tt
Lies-IsSpaced s n high ((t, k) ∷ l) h = (inl h.0.0, Lies-IsSpaced s n high l h.1)

-- The ranges made from positive shifts and lengths.
record AreMade (low high : ℕ) (l : List (ℕ × ℕ)) : Type 0 where
  lie : All (Lies low high) l
  spaced : AreSpaced l
  lengths : low + sum_by (λ e. e.1) l ≤ high

ranges_from-AreMade :
    (low : ℕ) (vec : List (ℕ × ℕ))
    → All (λ e. (1 ≤ e.0) × (e.0 < 20) × (1 ≤ e.1) × (e.1 < 20)) vec
    → low + reach vec < usize_mod
    → AreMade low (low + reach vec) (ranges_from low vec)
unfolding ranges_from reach
ranges_from-AreMade low [] h room = record { lie = tt; spaced = tt; lengths = omega arith }
ranges_from-AreMade low ((shift, n) ∷ vec) h room =
    let start = add_usize_exact low shift (omega (arith, room)) in
    let end = add_usize_exact (low + shift) n (omega (arith, room)) in
    let rest = ranges_from-AreMade (low + shift + n) vec h.1 (omega (arith, room)) in
    let high = low + (shift + n * 2 + reach vec) in
    rw (start, end)
      (record {
        lie = (
          (omega (arith, h.0.0), omega (arith, h.0.2), omega arith),
          Lies-weaker (low + shift + n) low (low + shift + n + reach vec) high
              (ranges_from (low + shift + n) vec) (omega arith) (omega arith) rest.lie,
        );
        spaced = (
          Lies-IsSpaced (low + shift) n (low + shift + n + reach vec)
              (ranges_from (low + shift + n) vec) rest.lie,
          rest.spaced,
        );
        lengths = omega (arith, rest.lengths);
      })

-- What `prop_shuffle` keeps.
All-perm : (P : ℕ × ℕ → Type 0) (l r : List (ℕ × ℕ)) → Permᴰ l r → All P l → All P r
All-perm P _ _ Permᴰ.nil h = tt
All-perm P (a ∷ l) (b ∷ r) (Permᴰ.cons e d) h = (subst P e h.0, All-perm P l r d h.1)
All-perm P (a ∷ b ∷ l) _ (Permᴰ.swap e f) h = (subst P f h.1.0, (subst P e h.0, h.1.1))
All-perm P l r (Permᴰ.trans {l₂ = m} d e) h = All-perm P m r e (All-perm P l m d h)

IsSpaced-sym : (e f : ℕ × ℕ) → IsSpaced e f → IsSpaced f e
IsSpaced-sym e f (inl p) = inr p
IsSpaced-sym e f (inr p) = inl p

AreSpaced-perm : (l r : List (ℕ × ℕ)) → Permᴰ l r → AreSpaced l → AreSpaced r
AreSpaced-perm _ _ Permᴰ.nil h = tt
AreSpaced-perm (a ∷ l) (b ∷ r) (Permᴰ.cons e d) h =
    (subst (λ x. All (IsSpaced x) r) e (All-perm (IsSpaced a) l r d h.0), AreSpaced-perm l r d h.1)
AreSpaced-perm (a ∷ b ∷ l) (a' ∷ b' ∷ _) (Permᴰ.swap e f) h = (
  (
    subst (λ x. IsSpaced x b') f (subst (λ x. IsSpaced b x) e (IsSpaced-sym a b h.0.0)),
    subst (λ x. All (IsSpaced x) l) f h.1.0,
  ),
  (subst (λ x. All (IsSpaced x) l) e h.0.1, h.1.1),
)
AreSpaced-perm l r (Permᴰ.trans {l₂ = m} d e) h = AreSpaced-perm m r e (AreSpaced-perm l m d h)

sum_by-perm : (f : ℕ × ℕ → ℕ) (l r : List (ℕ × ℕ)) → Permᴰ l r → sum_by f r ≡ sum_by f l
sum_by-perm f _ _ Permᴰ.nil = refl
sum_by-perm f (a ∷ l) (b ∷ r) (Permᴰ.cons e d) = rw (sym e, sum_by-perm f l r d) refl
sum_by-perm f (a ∷ b ∷ l) _ (Permᴰ.swap e g) = rw (sym e, sym g) (omega arith)
sum_by-perm f l r (Permᴰ.trans {l₂ = m} d e) = rw (sum_by-perm f m r e, sum_by-perm f l m d) refl

empty-InStep : InStep empty new_stupid
unfolding Reference.size lookup
empty-InStep = record {
  agrees = record {
    valid = tt;
    disjoint = λ a. omega arith;
    unique = tt;
    same = λ a. refl;
    bytes = refl;
    bounded = omega arith;
  };
  apart = tt;
}

AreClear-empty : (l : List (ℕ × ℕ)) → AreClear empty l
AreClear-empty [] = tt
AreClear-empty (e ∷ l) = (λ a p q. refl, AreClear-empty l)

Lies-IsDrawn :
    (low high : ℕ) (l : List (ℕ × ℕ)) → high < usize_mod → All (Lies low high) l → All IsDrawn l
Lies-IsDrawn low high [] p h = tt
Lies-IsDrawn low high ((s, n) ∷ l) p h =
    ((h.0.1, omega (arith, h.0.2)), Lies-IsDrawn low high l p h.1)

Lies-IsRemovable :
    (low high : ℕ) (l : List (ℕ × ℕ)) → high < usize_mod → All (Lies low high) l → All IsRemovable l
Lies-IsRemovable low high [] p h = tt
Lies-IsRemovable low high ((s, n) ∷ l) p h =
    ((h.0.1, omega (arith, h.0.2)), Lies-IsRemovable low high l p h.1)

reach_bound :
    (vec : List (ℕ × ℕ))
    → All (λ e. (1 ≤ e.0) × (e.0 < 20) × (1 ≤ e.1) × (e.1 < 20)) vec
    → reach vec ≤ 57 * length vec
unfolding reach
reach_bound [] h = omega arith
reach_bound ((s, n) ∷ vec) h = omega (arith, h.0.1, h.0.3, reach_bound vec h.1)

IsVec-AreMade :
    (vec : List (ℕ × ℕ))
    → IsVec vec
    → (reach vec < usize_mod) × AreMade 0 (0 + reach vec) (ranges_from 0 vec)
IsVec-AreMade vec (_, short, drawn) =
    let room : reach vec < usize_mod = omega (arith, reach_bound vec drawn) in
    (room, ranges_from-AreMade 0 vec drawn (omega (arith, room)))

passes_shuffled :
    (vec_add vec_remove add_ranges remove_ranges : List (ℕ × ℕ))
    → IsVec vec_add
    → IsVec vec_remove
    → Permᴰ (ranges_from 0 vec_add) add_ranges
    → Permᴰ (ranges_from 0 vec_remove) remove_ranges
    → adding_removing_ranges add_ranges remove_ranges ≡ done tt
unfolding adding_removing_ranges Reference.size
passes_shuffled vec_add vec_remove add_ranges remove_ranges h k d e =
    let (room, added) = IsVec-AreMade vec_add h in
    let (room', removed) = IsVec-AreMade vec_remove k in
    let drawn = Lies-IsDrawn 0 (0 + reach vec_add) _ (omega (arith, room)) added.lie in
    let removable =
      Lies-IsRemovable 0 (0 + reach vec_remove) _ (omega (arith, room')) removed.lie in
    let (real, stupid, ran, step) =
      add_each-passes add_ranges empty new_stupid empty-InStep
        (All-perm IsDrawn (ranges_from 0 vec_add) add_ranges d drawn)
        (AreSpaced-perm (ranges_from 0 vec_add) add_ranges d added.spaced)
        (AreClear-empty add_ranges)
        (omega (arith, room, added.lengths, sum_by-perm (λ e. e.1) _ _ d)) in
    rw ran (
      remove_ranges_each-passes remove_ranges real stupid step
        (All-perm IsRemovable (ranges_from 0 vec_remove) remove_ranges e removable))

-- The property test `adding_removing_ranges` passes for every two vectors that `ranges` draws and
-- every order into which it shuffles the ranges made of each: after each range that is added, and
-- after each that is removed with twice its length, `RangeMap` and `StupidRangeMap` have the same
-- size and the same `as_hashmap`, and each removal reports the same bytes for each value.
pub adding_removing_ranges_passes :
    (vec_add vec_remove add_ranges remove_ranges : List (ℕ × ℕ))
    → IsVec vec_add
    → IsVec vec_remove
    → Perm (ranges_from 0 vec_add) add_ranges
    → Perm (ranges_from 0 vec_remove) remove_ranges
    → adding_removing_ranges add_ranges remove_ranges ≡ done tt
adding_removing_ranges_passes vec_add vec_remove add_ranges remove_ranges h k p q =
    ∥∥₁_elim p (hlevel) (λ d.
      ∥∥₁_elim q (hlevel)
        (λ e. passes_shuffled vec_add vec_remove add_ranges remove_ranges h k d e))
