-- ===== src/RangeMap/Keys.antt =====
-- `as_hashmap` of `RangeMap` and of `StupidRangeMap` (memapi/src/rangemap.rs): each key stands once.
use filprofiler.Base.{
  ℕ, List, [], ◌∷◌, ◌==◌, ◌&&◌, Bool-cases, inl, inr, Option-cases, lookup, ℕ_discrete,
}
use filprofiler.Word.{add_usize}
use filprofiler.HashMap.{HashMap, IsUnique, insert, insert-IsUnique}
use filprofiler.RangeMap.{Range, RangeMap, range_size, collect, as_hashmap}
use filprofiler.RangeMap.Reference
use filprofiler.RangeMap.Reference.{
  StupidRangeMap, Coalescing, coalesce_one, coalesce, eq, in_order,
}

module _ {V : Type 0} where
  collect-IsUnique :
      (l : List (Range × V)) (m : HashMap ℕ (ℕ × V))
      → IsUnique ℕ_discrete m
      → IsUnique ℕ_discrete (collect l m)
  unfolding collect
  collect-IsUnique [] m u = u
  collect-IsUnique ((r, v) ∷ l) m u =
      collect-IsUnique l (insert ℕ_discrete r.start (range_size r, v) m)
        (insert-IsUnique ℕ_discrete r.start (range_size r, v) m u)

  pub as_hashmap-IsUnique : (m : RangeMap V) → IsUnique ℕ_discrete (as_hashmap m)
  unfolding as_hashmap
  as_hashmap-IsUnique m = collect-IsUnique m.ranges [] tt

  module _ (dec : Discrete V) where
    coalesce_one-IsUnique :
        (k : ℕ) (v : V) (s : Coalescing V)
        → IsUnique ℕ_discrete s.result
        → IsUnique ℕ_discrete (coalesce_one dec k v s).result
    unfolding coalesce_one
    coalesce_one-IsUnique k v s u =
        let fresh = insert-IsUnique ℕ_discrete k (1, v) s.result u in
        elim (Option-cases s.last_entry) [
          | inl e ↦ rw (e, coalesce_one) fresh
          | inr (key, e) ↦ elim (Option-cases (lookup ℕ_discrete key s.result)) [
            | inl f ↦ rw (e, f, coalesce_one) fresh
            | inr ((size, value), f) ↦
                elim (Bool-cases (eq dec value v && k == add_usize s.last_k 1)) [
                  | inl g ↦
                      rw (e, f, g, coalesce_one)
                        (insert-IsUnique ℕ_discrete key (add_usize size 1, value) s.result u)
                  | inr g ↦ rw (e, f, g, coalesce_one) fresh
                ]
          ]
        ]

    coalesce-IsUnique :
        (l : HashMap ℕ V) (s : Coalescing V)
        → IsUnique ℕ_discrete s.result
        → IsUnique ℕ_discrete (coalesce dec l s).result
    unfolding coalesce
    coalesce-IsUnique [] s u = u
    coalesce-IsUnique ((k, v) ∷ l) s u =
        coalesce-IsUnique l (coalesce_one dec k v s) (coalesce_one-IsUnique k v s u)

    pub as_hashmap-IsUnique_reference :
        (s : StupidRangeMap V) → IsUnique ℕ_discrete (Reference.as_hashmap dec s)
    unfolding Reference.as_hashmap
    as_hashmap-IsUnique_reference s = coalesce-IsUnique (in_order s.items) _ tt
