-- ===== src/RangeMap/Disjoint.antt =====
-- `RangeMap` of memapi/src/rangemap.rs: ranges that do not overlap, as the kernel's mappings do not,
-- and `as_hashmap`.
use filprofiler.Base.{
  ℕ, ◌∙◌, ◌+◌, ◌≤◌, ◌≡◌, ◌≢◌, refl, List, [], ◌∷◌, ◌++◌, arith, true, if◌then◌else◌, All,
  Bool-cases, inl, inr, length, length-append, sum_by, none, lookup, ℕ_discrete,
}
use filprofiler.HashMap.{HashMap, insert, remove_absent, lookup-insert_ne}
use filprofiler.RangeMap.Bounds.{IsProper}
use filprofiler.RangeMap.Points.{contains, within, values_at, IsWellFormed}
use filprofiler.RangeMap.Removal.{Removes}
use filprofiler.RangeMap.{Range, RangeMap, range_size, collect, as_hashmap}

module _ {V : Type 0} where
  -- No address lies in two ranges.
  abbrev pub IsDisjoint : RangeMap V → Type 0
  IsDisjoint m = (a : ℕ) → length (values_at a m.ranges) ≤ 1

  -- No address from `start` to `start + n` lies in a range.
  abbrev pub IsFree : RangeMap V → ℕ → ℕ → Type 0
  IsFree m start n = (a : ℕ) → within start n a ≡ true → values_at a m.ranges ≡ []

  pub remove-IsDisjoint :
      (m : RangeMap V) (start n : ℕ) (r : RangeMap V × List (V × ℕ))
      → Removes m start n r
      → IsDisjoint m
      → IsDisjoint r.0
  remove-IsDisjoint m start n r s d a = ground (arith, s.points a, d a)

  pub add-IsDisjoint :
      (m m' : RangeMap V) (start n : ℕ) (v : V)
      → IsFree m start n
      → ((a : ℕ)
          → values_at a m'.ranges
            ≡ values_at a m.ranges ++ (if within start n a then v ∷ [] else []))
      → IsDisjoint m
      → IsDisjoint m'
  add-IsDisjoint m m' start n v free s d a = ground (
    arith,
    s a,
    d a,
    free a,
    length-append (values_at a m.ranges) (v ∷ []),
    length-append (values_at a m.ranges) [],
  )

  abbrev pub HasDistinctStarts : List (Range × V) → Type 0
  HasDistinctStarts [] = Unit
  HasDistinctStarts ((r, v) ∷ l) = All (λ e. e.0.start ≢ r.start) l × HasDistinctStarts l

  starts_ne :
      (a : ℕ) (l : List (Range × V))
      → All (λ e. IsProper e.0) l
      → length (values_at a l) ≤ 0
      → All (λ e. e.0.start ≢ a) l
  starts_ne a [] h k = tt
  starts_ne a ((r, v) ∷ l) h k = elim (Bool-cases (contains r a)) [
    | inl e ↦ absurd (ground arith)
    | inr e ↦ (λ q. ground arith, starts_ne a l h.1 (ground arith))
  ]

  pub distinct_starts :
      (l : List (Range × V))
      → All (λ e. IsProper e.0) l
      → ((a : ℕ) → length (values_at a l) ≤ 1)
      → HasDistinctStarts l
  distinct_starts [] h d = tt
  distinct_starts ((r, v) ∷ l) h d = (
    starts_ne r.start l h.1 (ground (arith, d r.start)),
    distinct_starts l h.1 (λ a. ground (arith, d a)),
  )

  -- No range starts at a key of the map.
  abbrev NotIn : HashMap ℕ (ℕ × V) → List (Range × V) → Type 0
  NotIn acc = All (λ e. lookup ℕ_discrete e.0.start acc ≡ none)

  NotIn-insert :
      (k : ℕ) (v : ℕ × V) (acc : HashMap ℕ (ℕ × V)) (l : List (Range × V))
      → lookup ℕ_discrete k acc ≡ none
      → All (λ e. e.0.start ≢ k) l
      → NotIn acc l
      → NotIn (insert ℕ_discrete k v acc) l
  NotIn-insert k v acc [] free ne h = tt
  NotIn-insert k v acc ((r, w) ∷ l) free ne h =
      (lookup-insert_ne ℕ_discrete k r.start v acc ne.0 ∙ h.0, NotIn-insert k v acc l free ne.1 h.1)

  sum_by-collect :
      (g : ℕ × (ℕ × V) → ℕ) (l : List (Range × V)) (acc : HashMap ℕ (ℕ × V))
      → HasDistinctStarts l
      → NotIn acc l
      → sum_by g (collect l acc)
        ≡ sum_by (λ e. g (e.0.start, (range_size e.0, e.1))) l + sum_by g acc
  unfolding collect insert
  sum_by-collect g [] acc d h = omega arith
  sum_by-collect g ((r, v) ∷ l) acc d h =
      sum_by-collect g l (insert ℕ_discrete r.start (range_size r, v) acc) d.1
        (NotIn-insert r.start (range_size r, v) acc l h.0 d.0 h.1)
      ∙ rw (remove_absent ℕ_discrete r.start acc h.0) (omega arith)

  NotIn-empty : (l : List (Range × V)) → NotIn [] l
  unfolding lookup
  NotIn-empty [] = tt
  NotIn-empty (e ∷ l) = (refl, NotIn-empty l)

  -- On well-formed ranges that do not overlap, every sum over the entries of `as_hashmap` is the
  -- sum over the ranges, each taken with its start, its size and its value.
  pub sum_by-as_hashmap :
      (g : ℕ × (ℕ × V) → ℕ) (m : RangeMap V)
      → IsWellFormed m
      → IsDisjoint m
      → sum_by g (as_hashmap m) ≡ sum_by (λ e. g (e.0.start, (range_size e.0, e.1))) m.ranges
  unfolding as_hashmap
  sum_by-as_hashmap g m h d =
      sum_by-collect g m.ranges [] (distinct_starts m.ranges h d) (NotIn-empty m.ranges)
      ∙ omega arith
