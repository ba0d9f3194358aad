-- ===== src/RangeMap/Agreement.antt =====
-- `RangeMap` against `StupidRangeMap`, as the property test of memapi/src/rangemap.rs compares them.
use native.Mathlib.Nat.{zero-add}
use filprofiler.Base.{
  ℕ, ◌+◌, ◌-◌, ◌≤◌, ◌<◌, ◌≡◌, ◌∙◌, refl, sym, ap, List, [], ◌∷◌, arith, Bool, true, false, lookup,
  Option, none, some, done, length, ℕ_discrete,
}
use filprofiler.Word.{usize_mod, add_usize_exact}
use filprofiler.HashMap.{HashMap, IsUnique, amount}
use filprofiler.RangeMap.Points.{values_at, IsWellFormed}
use filprofiler.RangeMap.Bytes.{sum_range, sum_range-congr, held_bytes, removed_bytes, count_if}
use filprofiler.RangeMap.Removal.{remove-Removes, add-values_at, size-held_bytes}
use filprofiler.RangeMap.Disjoint.{IsDisjoint, IsFree, remove-IsDisjoint, add-IsDisjoint}
use filprofiler.RangeMap.Reference
use filprofiler.RangeMap.Reference.{StupidRangeMap}
use filprofiler.RangeMap.Reference.Loops.{
  hit, present, insert_each-IsUnique, lookup-insert_each, length-insert_each, remove_each-IsUnique,
  lookup-remove_each, amount-remove_each, length-remove_each,
}
use filprofiler.RangeMap.{RangeMap, add, remove, size}

-- the value that an address holds, where it holds one at most
abbrev pub first : {V : Type 0} → List V → Option V
first [] = none
first (v ∷ vs) = some v

-- The test that a value is `v`.
abbrev pub is : {V : Type 0} → Discrete V → V → V → Bool
is dec v w = elim (dec w v) [ yes p ↦ true | no p ↦ false ]

-- The two maps hold the same value at each address, and the same number of bytes.
pub record Agrees {V : Type 0} (m : RangeMap V) (s : StupidRangeMap V) : Type 0 where
  pub valid : IsWellFormed m
  pub disjoint : IsDisjoint m
  pub unique : IsUnique ℕ_discrete s.items
  pub same : (a : ℕ) → lookup ℕ_discrete a s.items ≡ first (values_at a m.ranges)
  pub bytes : Reference.size s ≡ held_bytes (λ _. true) m.ranges
  pub bounded : Reference.size s < usize_mod

module _ {V : Type 0} where
  -- `size` of the two maps is the same number.
  pub size-Agrees : (m : RangeMap V) (s : StupidRangeMap V) → Agrees m s → size m ≡ Reference.size s
  size-Agrees m s g = omega (arith, size-held_bytes m g.valid, g.bytes, g.bounded)

  -- On a `RangeMap` and a `StupidRangeMap` that agree, `add` of a range, not empty, within the word
  -- size, none of whose addresses is taken, and with room in the count of bytes, panics in neither,
  -- and they agree afterwards.
  pub add-Agrees :
      (m : RangeMap V) (s : StupidRangeMap V) (start n : ℕ) (v : V)
      → Agrees m s
      → 0 < n
      → start + n < usize_mod
      → IsFree m start n
      → Reference.size s + n < usize_mod
      → (m' : RangeMap V) × (s' : StupidRangeMap V) × (add m start n v ≡ done m')
        × (Reference.add s start n v ≡ done s')
        × Agrees m' s'
  unfolding Reference.add Reference.size
  add-Agrees m s start n v g pos bound free room =
      let (m', added, valid, points, bytes, _) = add-values_at m start n v g.valid bound in
      (
        m',
        record { items = Reference.insert_each start n v s.items },
        added,
        ground (arith, add_usize_exact start n bound, size_eq),
        record {
          valid = valid;
          disjoint = add-IsDisjoint m m' start n v free points g.disjoint;
          unique = insert_each-IsUnique start n v s.items g.unique;
          same = λ a.
              ground (arith, points a, g.same a, lookup-insert_each start n a v s.items, free a);
          bytes = omega (arith, bytes (λ _. true), g.bytes, grown);
          bounded = omega (arith, grown);
        },
      )
    where
      size_eq : start + n - start ≡ n
      size_eq = omega arith

      grown : length (Reference.insert_each start n v s.items) ≡ length s.items + n
      grown =
          length-insert_each start n v s.items
            (λ a p q. g.same a ∙ ap first (free a (ground arith)))

module _ {V : Type 0} (dec : Discrete V) where
  count_if-hit :
      (v : V) (vs : List V) → length vs ≤ 1 → count_if (is dec v) vs ≡ hit dec v (first vs)
  count_if-hit v [] h = refl
  count_if-hit v (w ∷ []) h = ground arith
  count_if-hit v (w ∷ x ∷ vs) h = absurd (omega arith)

  count_if-present : (vs : List V) → length vs ≤ 1 → count_if (λ _. true) vs ≡ present (first vs)
  count_if-present [] h = refl
  count_if-present (w ∷ []) h = refl
  count_if-present (w ∷ x ∷ vs) h = absurd (omega arith)

  -- On a `RangeMap` and a `StupidRangeMap` that agree, `remove` of the same range, not empty and
  -- within the word size, panics in neither; for each value both report the same number of bytes
  -- removed; and they agree afterwards.
  pub remove-Agrees :
      (m : RangeMap V) (s : StupidRangeMap V) (start n : ℕ)
      → Agrees m s
      → 0 < n
      → start + n < usize_mod
      → (m' : RangeMap V) × (gone : List (V × ℕ)) × (s' : StupidRangeMap V) × (counts : HashMap V ℕ)
        × (remove m start n ≡ done (m', gone))
        × (Reference.remove dec s start n ≡ done (s', counts))
        × ((v : V) → removed_bytes (is dec v) gone ≡ amount dec v counts)
        × Agrees m' s'
  unfolding Reference.remove Reference.size lookup
  remove-Agrees m s start n g pos bound =
      let ((m', gone), removed, spec) = remove-Removes m start n g.valid bound in
      let result = Reference.remove_each dec start n (s.items, []) in
      (
        m',
        gone,
        record { items = result.0 },
        result.1,
        removed,
        ground (arith, add_usize_exact start n bound, size_eq),
        λ v.
            spec.reported (is dec v)
            ∙ sum_range-congr _ (λ a. hit dec v (lookup ℕ_discrete a s.items)) start n
                (λ a _.
                  count_if-hit v (values_at a m.ranges) (g.disjoint a)
                  ∙ ap (hit dec v) (sym (g.same a)))
            ∙ omega (arith, counted v),
        record {
          valid = spec.valid;
          disjoint = remove-IsDisjoint m start n (m', gone) spec g.disjoint;
          unique = remove_each-IsUnique dec start n (s.items, []) g.unique;
          same = λ a.
              ground
                (arith, spec.points a, g.same a, lookup-remove_each dec start n a (s.items, []));
          bytes = omega (
            arith,
            spec.conserved (λ _. true),
            spec.reported (λ _. true),
            g.bytes,
            taken,
            all_counted,
          );
          bounded = omega (arith, taken);
        },
      )
    where
      size_eq : start + n - start ≡ n
      size_eq = omega arith

      taken :
          length (Reference.remove_each dec start n (s.items, [])).0
            + sum_range (λ a. present (lookup ℕ_discrete a s.items)) start n
          ≡ length s.items
      taken = length-remove_each dec start n (s.items, []) g.unique

      counted :
          (v : V)
          → amount dec v (Reference.remove_each dec start n (s.items, [])).1
            ≡ sum_range (λ a. hit dec v (lookup ℕ_discrete a s.items)) start n
      counted v =
          let room : 0 + length s.items < usize_mod = omega (arith, g.bounded) in
          amount-remove_each dec start n v (s.items, []) g.unique room ∙ zero-add _

      all_counted :
          sum_range (λ a. count_if (λ _. true) (values_at a m.ranges)) start n
          ≡ sum_range (λ a. present (lookup ℕ_discrete a s.items)) start n
      all_counted = sum_range-congr _ _ start n (λ a _.
          count_if-present (values_at a m.ranges) (g.disjoint a) ∙ ap present (sym (g.same a)))
