-- ===== src/RangeMap/Reference/Loops.antt =====
-- The two loops of `StupidRangeMap` (memapi/src/rangemap.rs), over the addresses of a range.
use filprofiler.Base.{
  ℕ, zero, suc, ap, ◌+◌, ◌≤◌, ◌<◌, ◌≡◌, ◌∙◌, arith, leb, ◌&&◌, if◌then◌else◌, lookup, length,
  Option, none, some, Option-cases, inl, inr, ℕ_discrete,
}
use filprofiler.Word.{usize_mod}
use filprofiler.HashMap.{
  HashMap, IsUnique, insert, insert_absent, amount, insert-IsUnique, remove-IsUnique,
  lookup-insert_self, lookup-insert_ne, lookup-remove_self, lookup-remove_ne, length-remove,
  amount-add_entry_self, amount-add_entry_ne,
}
use filprofiler.RangeMap.Points.{within}
use filprofiler.RangeMap.Bytes.{sum_range, sum_range-congr}
use filprofiler.RangeMap.Reference.{insert_each, remove_at, remove_each}

module _ {V : Type 0} where
  pub insert_each-IsUnique :
      (i n : ℕ) (v : V) (items : HashMap ℕ V)
      → IsUnique ℕ_discrete items
      → IsUnique ℕ_discrete (insert_each i n v items)
  unfolding insert_each
  insert_each-IsUnique i zero v items u = u
  insert_each-IsUnique i (suc n) v items u =
      insert_each-IsUnique (suc i) n v _ (insert-IsUnique ℕ_discrete i v items u)

  lookup-insert :
      (i a : ℕ) (v : V) (items : HashMap ℕ V)
      → lookup ℕ_discrete a (insert ℕ_discrete i v items)
        ≡ (if leb i a && leb a i then some v else lookup ℕ_discrete a items)
  lookup-insert i a v items = elim (ℕ_discrete a i) [
    | yes p ↦ ground (arith, lookup-insert_self ℕ_discrete i v items)
    | no p ↦ ground (arith, lookup-insert_ne ℕ_discrete i a v items)
  ]

  pub lookup-insert_each :
      (i n a : ℕ) (v : V) (items : HashMap ℕ V)
      → lookup ℕ_discrete a (insert_each i n v items)
        ≡ (if within i n a then some v else lookup ℕ_discrete a items)
  unfolding insert_each
  lookup-insert_each i zero a v items = ground arith
  lookup-insert_each i (suc n) a v items = ground (
    arith,
    lookup-insert_each (suc i) n a v (insert ℕ_discrete i v items),
    lookup-insert i a v items,
  )

  pub length-insert_each :
      (i n : ℕ) (v : V) (items : HashMap ℕ V)
      → ((a : ℕ) → i ≤ a → a < i + n → lookup ℕ_discrete a items ≡ none)
      → length (insert_each i n v items) ≡ length items + n
  unfolding insert_each
  length-insert_each i zero v items h = omega arith
  length-insert_each i (suc n) v items h =
      length-insert_each (suc i) n v (insert ℕ_discrete i v items) (λ a p q.
        lookup-insert_ne ℕ_discrete i a v items (omega arith) ∙ h a (omega arith) (omega arith))
      ∙ ground (arith, insert_absent ℕ_discrete i v items (h i (omega arith) (omega arith)))

-- 1 where the value is there, 0 where it is not.
abbrev pub hit : {V : Type 0} → Discrete V → V → Option V → ℕ
hit dec v none = 0
hit dec v (some w) = elim (dec w v) [ yes p ↦ 1 | no p ↦ 0 ]

-- 1 where there is any value.
abbrev pub present : {V : Type 0} → Option V → ℕ
present none = 0
present (some w) = 1

module _ {V : Type 0} (dec : Discrete V) where
  lookup-remove_at :
      (i a : ℕ) (s : HashMap ℕ V × HashMap V ℕ)
      → lookup ℕ_discrete a (remove_at dec i s).0
        ≡ (if leb i a && leb a i then none else lookup ℕ_discrete a s.0)
  unfolding remove_at
  lookup-remove_at i a s = elim (ℕ_discrete a i) [
    | yes p ↦ ground (arith, lookup-remove_self ℕ_discrete i s.0)
    | no p ↦ ground (arith, lookup-remove_ne ℕ_discrete i a s.0)
  ]

  pub remove_at-IsUnique :
      (i : ℕ) (s : HashMap ℕ V × HashMap V ℕ)
      → IsUnique ℕ_discrete s.0
      → IsUnique ℕ_discrete (remove_at dec i s).0
  unfolding remove_at
  remove_at-IsUnique i s u = ground (arith, remove-IsUnique ℕ_discrete i s.0 u)

  -- An item that goes is counted for its value, and for no other.
  pub amount-remove_at :
      (i : ℕ) (v : V) (s : HashMap ℕ V × HashMap V ℕ)
      → IsUnique ℕ_discrete s.0
      → amount dec v s.1 + length s.0 < usize_mod
      → amount dec v (remove_at dec i s).1 ≡ amount dec v s.1 + hit dec v (lookup ℕ_discrete i s.0)
  unfolding remove_at
  amount-remove_at i v s u bound = elim (Option-cases (lookup ℕ_discrete i s.0)) [
    | inl e ↦ rw (e, remove_at) (omega arith)
    | inr (w, e) ↦ elim (dec w v) [
      | yes p ↦
          ground (arith, p, amount-add_entry_self dec v 1 s.1, length-remove ℕ_discrete i w s.0 u e)
      | no p ↦ ground (arith, amount-add_entry_ne dec w v 1 s.1)
    ]
  ]

  pub length-remove_at :
      (i : ℕ) (s : HashMap ℕ V × HashMap V ℕ)
      → IsUnique ℕ_discrete s.0
      → length (remove_at dec i s).0 + present (lookup ℕ_discrete i s.0) ≡ length s.0
  unfolding remove_at
  length-remove_at i s u = elim (Option-cases (lookup ℕ_discrete i s.0)) [
    | inl e ↦ rw (e, remove_at) (omega arith)
    | inr (w, e) ↦ rw (e, remove_at) (omega (arith, length-remove ℕ_discrete i w s.0 u e))
  ]

  pub remove_each-IsUnique :
      (i n : ℕ) (s : HashMap ℕ V × HashMap V ℕ)
      → IsUnique ℕ_discrete s.0
      → IsUnique ℕ_discrete (remove_each dec i n s).0
  unfolding remove_each
  remove_each-IsUnique i zero s u = u
  remove_each-IsUnique i (suc n) s u =
      remove_each-IsUnique (suc i) n (remove_at dec i s) (remove_at-IsUnique i s u)

  pub lookup-remove_each :
      (i n a : ℕ) (s : HashMap ℕ V × HashMap V ℕ)
      → lookup ℕ_discrete a (remove_each dec i n s).0
        ≡ (if within i n a then none else lookup ℕ_discrete a s.0)
  unfolding remove_each
  lookup-remove_each i zero a s = ground arith
  lookup-remove_each i (suc n) a s =
      ground (arith, lookup-remove_each (suc i) n a (remove_at dec i s), lookup-remove_at i a s)

  lookup-remove_at_later :
      (i a : ℕ) (s : HashMap ℕ V × HashMap V ℕ)
      → suc i ≤ a
      → lookup ℕ_discrete a (remove_at dec i s).0 ≡ lookup ℕ_discrete a s.0
  lookup-remove_at_later i a s h = ground (arith, lookup-remove_at i a s)

  -- The loop counts each value once for every address of the range that holds it.
  pub amount-remove_each :
      (i n : ℕ) (v : V) (s : HashMap ℕ V × HashMap V ℕ)
      → IsUnique ℕ_discrete s.0
      → amount dec v s.1 + length s.0 < usize_mod
      → amount dec v (remove_each dec i n s).1
        ≡ amount dec v s.1 + sum_range (λ a. hit dec v (lookup ℕ_discrete a s.0)) i n
  unfolding remove_each
  amount-remove_each i zero v s u bound = omega arith
  amount-remove_each i (suc n) v s u bound =
      let counted = amount-remove_at i v s u bound in
      let left = length-remove_at i s u in
      let once : hit dec v (lookup ℕ_discrete i s.0) ≤ present (lookup ℕ_discrete i s.0) =
        ground arith in
      omega (
        arith,
        counted,
        amount-remove_each (suc i) n v (remove_at dec i s) (remove_at-IsUnique i s u)
            (omega (arith, counted, left, once)),
        sum_range-congr (λ a. hit dec v (lookup ℕ_discrete a (remove_at dec i s).0))
            (λ a. hit dec v (lookup ℕ_discrete a s.0)) (suc i) n
            (λ a h. ap (hit dec v) (lookup-remove_at_later i a s h)),
      )

  -- The loop takes out every item of the range.
  pub length-remove_each :
      (i n : ℕ) (s : HashMap ℕ V × HashMap V ℕ)
      → IsUnique ℕ_discrete s.0
      → length (remove_each dec i n s).0 + sum_range (λ a. present (lookup ℕ_discrete a s.0)) i n
        ≡ length s.0
  unfolding remove_each
  length-remove_each i zero s u = omega arith
  length-remove_each i (suc n) s u = omega (
    arith,
    length-remove_at i s u,
    length-remove_each (suc i) n (remove_at dec i s) (remove_at-IsUnique i s u),
    sum_range-congr (λ a. present (lookup ℕ_discrete a (remove_at dec i s).0))
        (λ a. present (lookup ℕ_discrete a s.0)) (suc i) n
        (λ a h. ap present (lookup-remove_at_later i a s h)),
  )
