-- ===== src/RangeMap/Starts.antt =====
-- `RangeMap::as_hashmap` of memapi/src/rangemap.rs, range by range.
use filprofiler.Base.{
  ℕ, suc, ◌+◌, ◌-◌, ◌≤◌, ◌<◌, ◌≡◌, ◌≢◌, ◌∙◌, refl, subst, sym, ap, List, [], ◌∷◌, ◌==◌,
  if◌then◌else◌, Bool-cases, arith, lookup, length, Option, Option-cases, none, some, All, inl, inr,
  ℕ_discrete,
}
use filprofiler.Word.{usize_mod}
use filprofiler.HashMap.{HashMap, insert, lookup-insert_self, lookup-insert_ne}
use filprofiler.RangeMap.Bounds.{IsProper, range_size_exact}
use filprofiler.RangeMap.Points.{contains, values_at, IsWellFormed}
use filprofiler.RangeMap.Disjoint.{IsDisjoint, HasDistinctStarts, distinct_starts}
use filprofiler.RangeMap.Agreement.{first}
use filprofiler.RangeMap.Reference.Runs.{AreRuns}
use filprofiler.RangeMap.{Range, RangeMap, range_size, collect, as_hashmap}

module _ {V : Type 0} where
  -- The range that starts at an address, with its size.
  abbrev pub find : ℕ → List (Range × V) → Option (ℕ × V)
  find k [] = none
  find k ((r, v) ∷ l) = if r.start == k then some (r.end - r.start, v) else find k l

  find-distinct : (k : ℕ) (l : List (Range × V)) → All (λ e. e.0.start ≢ k) l → find k l ≡ none
  find-distinct k [] h = refl
  find-distinct k ((r, v) ∷ l) h = ground (arith, h.0, find-distinct k l h.1)

  lookup-collect :
      (k : ℕ) (l : List (Range × V)) (acc : HashMap ℕ (ℕ × V))
      → All (λ e. IsProper e.0) l
      → HasDistinctStarts l
      → lookup ℕ_discrete k (collect l acc)
        ≡ elim (find k l) [ none ↦ lookup ℕ_discrete k acc | some x ↦ some x ]
  unfolding collect
  lookup-collect k [] acc h d = refl
  lookup-collect k ((r, v) ∷ l) acc h d =
      let size : range_size r ≡ r.end - r.start =
        range_size_exact r (omega (arith, h.0.nonempty)) h.0.bounded in
      let later = lookup-collect k l (insert ℕ_discrete r.start (range_size r, v) acc) h.1 d.1 in
      elim (ℕ_discrete k r.start) [
        | yes p ↦ ground (
          arith,
          later,
          p,
          size,
          ap (λ x. find x l) p ∙ find-distinct r.start l d.0,
          ap (λ x. lookup ℕ_discrete x (insert ℕ_discrete r.start (range_size r, v) acc)) p
              ∙ lookup-insert_self ℕ_discrete r.start (range_size r, v) acc,
        )
        | no p ↦
            ground (arith, later, p, lookup-insert_ne ℕ_discrete r.start k (range_size r, v) acc p)
      ]

  pub lookup-as_hashmap :
      (k : ℕ) (m : RangeMap V)
      → IsWellFormed m
      → IsDisjoint m
      → lookup ℕ_discrete k (as_hashmap m) ≡ find k m.ranges
  unfolding as_hashmap lookup
  lookup-as_hashmap k m h d =
      lookup-collect k m.ranges [] h (distinct_starts m.ranges h d)
      ∙ elim (Option-cases (find k m.ranges)) [ inl e ↦ rw e refl | inr (x, e) ↦ rw e refl ]

  -- A range that is found is proper, and its addresses hold its value.
  find-values_at :
      (k n a : ℕ) (v : V) (l : List (Range × V))
      → All (λ e. IsProper e.0) l
      → length (values_at a l) ≤ 1
      → find k l ≡ some (n, v)
      → k ≤ a
      → a < k + n
      → values_at a l ≡ v ∷ []
  find-values_at k n a v [] h d e low high = absurd (cc)
  find-values_at k n a v ((r, w) ∷ l) h d e low high = elim (ℕ_discrete r.start k) [
    | yes p ↦ ground (arith, p, d, e, low, high, h.0.nonempty)
    | no p ↦
        let tail =
          find-values_at k n a v l h.1 (ground (arith, d)) (ground (arith, p, e)) low high in
        ground (arith, tail, d)
  ]

  find-proper :
      (k n : ℕ) (v : V) (l : List (Range × V))
      → All (λ e. IsProper e.0) l
      → find k l ≡ some (n, v)
      → (0 < n) × (k + n < usize_mod)
  find-proper k n v [] h e = absurd (cc)
  find-proper k n v ((r, w) ∷ l) h e = elim (ℕ_discrete r.start k) [
    | yes p ↦ ground (arith, p, e, h.0.nonempty, h.0.bounded)
    | no p ↦ find-proper k n v l h.1 (ground (arith, p, e))
  ]

  -- An address that holds a value lies in a range that is found.
  find-held :
      (a : ℕ) (v : V) (l : List (Range × V))
      → All (λ e. IsProper e.0) l
      → HasDistinctStarts l
      → first (values_at a l) ≡ some v
      → (k n : ℕ) × (find k l ≡ some (n, v)) × (k ≤ a) × (a < k + n)
  find-held a v [] h d e = absurd (cc)
  find-held a v ((r, w) ∷ l) h d e = elim (Bool-cases (contains r a)) [
    | inl inside ↦ (
      r.start,
      r.end - r.start,
      ground (arith, e, inside),
      ground (arith, inside),
      ground (arith, inside),
    )
    | inr outside ↦
        let (k, n, known, low, high) = find-held a v l h.1 d.1 (ground (arith, e, outside)) in
        let ne : r.start ≢ k =
          λ p. absurd (cc (ap (λ x. find x l) p, find-distinct r.start l d.0, known)) in
        (k, n, ground (arith, ne, known), low, high)
  ]

  -- An address lies in one range at most.
  find-apart :
      (k k' m n a : ℕ) (v w : V) (l : List (Range × V))
      → All (λ e. IsProper e.0) l
      → length (values_at a l) ≤ 1
      → find k l ≡ some (m, v)
      → find k' l ≡ some (n, w)
      → k ≤ a
      → a < k + m
      → k' ≤ a
      → a < k' + n
      → k ≡ k'
  find-apart k k' m n a v w [] h d e e' p q p' q' = absurd (cc)
  find-apart k k' m n a v w ((r, x) ∷ l) h d e e' p q p' q' = elim (ℕ_discrete r.start k) [
    | yes i ↦ elim (ℕ_discrete r.start k') [
      | yes j ↦ sym i ∙ j
      | no j ↦
          let tail =
            find-values_at k' n a w l h.1 (ground (arith, d)) (ground (arith, j, e')) p' q' in
          absurd (ground (arith, i, e, p, q, d, tail, h.0.nonempty))
    ]
    | no i ↦ elim (ℕ_discrete r.start k') [
      | yes j ↦
          let tail = find-values_at k m a v l h.1 (ground (arith, d)) (ground (arith, i, e)) p q in
          absurd (ground (arith, j, e', p', q', d, tail, h.0.nonempty))
      | no j ↦
          find-apart k k' m n a v w l h.1 (ground (arith, d)) (ground (arith, i, e))
            (ground (arith, j, e')) p q p' q'
    ]
  ]

  -- The address before a range does not hold the range's value.
  abbrev pub StartsAfresh : RangeMap V → ℕ → V → Type 0
  StartsAfresh m start v = (a : ℕ) → suc a ≡ start → first (values_at a m.ranges) ≢ some v

  abbrev pub IsApart : RangeMap V → Type 0
  IsApart m = All (λ e. StartsAfresh m e.0.start e.1) m.ranges

  find-All :
      (P : ℕ → V → Type 0) (k n : ℕ) (v : V) (l : List (Range × V))
      → All (λ e. P e.0.start e.1) l
      → find k l ≡ some (n, v)
      → P k v
  find-All P k n v [] h e = absurd (cc)
  find-All P k n v ((r, w) ∷ l) h e = elim (ℕ_discrete r.start k) [
    | yes p ↦ let q : w ≡ v = ground (arith, p, e) in subst (P k) q (subst (λ x. P x w) p h.0)
    | no p ↦ find-All P k n v l h.1 (ground (arith, p, e))
  ]

  -- The entries of `as_hashmap` are runs of what the addresses hold.
  pub as_hashmap-Runs :
      (m : RangeMap V)
      → IsWellFormed m
      → IsDisjoint m
      → IsApart m
      → AreRuns (λ a. first (values_at a m.ranges)) (λ k. lookup ℕ_discrete k (as_hashmap m))
  as_hashmap-Runs m h d apart =
      let found : (k : ℕ) → find k m.ranges ≡ lookup ℕ_discrete k (as_hashmap m) =
        λ k. sym (lookup-as_hashmap k m h d) in
      record {
        holds =
            λ k n a v e p q. ap first (find-values_at k n a v m.ranges h (d a) (found k ∙ e) p q);
        held = λ a v e.
            let (k, n, known, low, high) =
              find-held a v m.ranges h (distinct_starts m.ranges h d) e in
            (k, n, sym (found k) ∙ known, low, high);
        apart = λ k l x n a v w e e' p q p' q'.
            find-apart k l x n a v w m.ranges h (d a) (found k ∙ e) (found l ∙ e') p q p' q';
        changes = λ k x n v w e e' same.
            let (pos, _) = find-proper k x v m.ranges h (found k ∙ e) in
            let before =
              find-values_at k x (k + x - 1) v m.ranges h (d (k + x - 1)) (found k ∙ e)
                (omega (arith, pos)) (omega (arith, pos)) in
            find-All (StartsAfresh m) (k + x) n w m.ranges apart (found (k + x) ∙ e') (k + x - 1)
              (omega (arith, pos)) (ap first before ∙ ap some same);
        nonempty = λ k n v e. (find-proper k n v m.ranges h (found k ∙ e)).0;
        bounded = λ k n v e. (find-proper k n v m.ranges h (found k ∙ e)).1;
      }
