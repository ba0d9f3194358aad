-- ===== src/Process/Emergency.antt =====
-- `oom_dump` of memapi/src/memorytracking.rs: the allocations that it gives back.
use filprofiler.Base.{
  ℕ, ◌≡◌, ◌==◌, ◌<◌, ◌↔◌, ltb, ltb→lt, ◌&&◌, ◌||◌, Bool, true, false, if◌then◌else◌, List, [], ◌∷◌,
  All, lookup, none, some, Bool-cases, inl, inr, ◌≢◌, refl, sym, subst, ◌∙◌, arith, done,
  ℕ_discrete,
}
use filprofiler.HashMap.{HashMap, IsUnique}
use filprofiler.Callstack.{Callstack, in_python}
use filprofiler.Interner.{CallstackInterner, get_reverse_map}
use filprofiler.Interner.Numbering.{IsNumbered, id_of, lookup_injective}
use filprofiler.Interner.Reverse.{get_reverse_map_iff}
use filprofiler.Allocation.{Allocation, size}
use filprofiler.Tracker.{AllocationTracker}
use filprofiler.Tracker.Accounting.{IsAccounted}
use filprofiler.Process.{is_large_python, free_large, oom_free}

abbrev pub is_in : ℕ → List ℕ → Bool
is_in a [] = false
is_in a (x ∷ xs) = a == x || is_in a xs

-- What may be freed: an allocation of more than 300000 bytes that was made under a Python callstack.
pub record IsLargePython (i : CallstackInterner) (alloc : Allocation) : Type 0 where
  pub callstack : Callstack
  pub known : id_of i callstack ≡ some alloc.callstack_id
  pub python : in_python callstack ≡ true
  pub large : 300000 < size alloc

module _ (i : CallstackInterner) (v : IsNumbered i) where
  large_of_test :
      (alloc : Allocation) (cs : Callstack)
      → id_of i cs ≡ some alloc.callstack_id
      → (in_python cs && ltb 300000 (size alloc)) ≡ true
      → IsLargePython i alloc
  large_of_test alloc cs known e = record {
    callstack = cs;
    known = known;
    python = ground arith;
    large = ground arith;
  }

  test_of_large :
      (alloc : Allocation) (cs : Callstack)
      → id_of i cs ≡ some alloc.callstack_id
      → IsLargePython i alloc
      → (in_python cs && ltb 300000 (size alloc)) ≡ true
  test_of_large alloc cs known l =
      let same : cs ≡ l.callstack =
        lookup_injective alloc.callstack_id cs l.callstack i.callstack_to_id v.distinct known
          l.known in
      let python = l.python in let large = l.large in rw same (ground (arith, python, large))

  is_large_python_iff :
      (alloc : Allocation)
      → ltb alloc.callstack_id i.max_id ≡ true
      → (verdict : Bool) × (is_large_python (get_reverse_map i) alloc ≡ done verdict)
        × ((verdict ≡ true) ↔ IsLargePython i alloc)
  unfolding is_large_python
  is_large_python_iff alloc h =
      let (cs, known) = v.dense alloc.callstack_id (ltb→lt _ _ h) in
      (
        in_python cs && ltb 300000 (size alloc),
        rw ((get_reverse_map_iff i cs alloc.callstack_id v).1 known, is_large_python) refl,
        (large_of_test alloc cs known, test_of_large alloc cs known),
      )

  -- The freed addresses are those of the large Python allocations.
  abbrev FreesLarge : HashMap ℕ Allocation → List ℕ → Type 0
  FreesLarge m freed =
      (address : ℕ)
      → (is_in address freed ≡ true) ↔ (
          (alloc : Allocation) × (lookup ℕ_discrete address m ≡ some alloc) × IsLargePython i alloc)

  module _ (a : ℕ) (alloc : Allocation) (m : HashMap ℕ Allocation) (freed : List ℕ) (verdict : Bool)
      (absent : lookup ℕ_discrete a m ≡ none) (large : (verdict ≡ true) ↔ IsLargePython i alloc)
      (rest : FreesLarge m freed) where
    not_in_rest : is_in a freed ≡ false
    not_in_rest = elim (Bool-cases (is_in a freed)) [
      | inl h ↦ (let (x, e, _) = (rest a).0 h in absurd (cc (e, absent)))
      | inr h ↦ h
    ]

    is_in_here : is_in a (if verdict then a ∷ freed else freed) ≡ verdict
    is_in_here = ground (arith, not_in_rest)

    is_in_there :
        (address : ℕ)
        → address ≢ a
        → is_in address (if verdict then a ∷ freed else freed) ≡ is_in address freed
    is_in_there address ne = ground arith

    lookup_here : lookup ℕ_discrete a ((a, alloc) ∷ m) ≡ some alloc
    unfolding lookup
    lookup_here = ground arith

    lookup_there :
        (address : ℕ)
        → address ≢ a
        → lookup ℕ_discrete address ((a, alloc) ∷ m) ≡ lookup ℕ_discrete address m
    unfolding lookup
    lookup_there address ne = ground arith

    FreesLarge-cons : FreesLarge ((a, alloc) ∷ m) (if verdict then a ∷ freed else freed)
    FreesLarge-cons address = elim (ℕ_discrete address a) [
      | yes p ↦ rw p (
        λ h. (alloc, lookup_here, large.0 (sym is_in_here ∙ h)),
        λ (x, e, l).
            let same : x ≡ alloc = cc (e, lookup_here) in
            is_in_here ∙ large.1 (subst (IsLargePython i) same l),
      )
      | no p ↦ (
        λ h.
            let (x, e, l) = (rest address).0 (sym (is_in_there address p) ∙ h) in
            (x, lookup_there address p ∙ e, l),
        λ (x, e, l).
            is_in_there address p ∙ (rest address).1 (x, sym (lookup_there address p) ∙ e, l),
      )
    ]

  free_large-FreesLarge :
      (m : HashMap ℕ Allocation)
      → IsUnique ℕ_discrete m
      → All (λ e. ltb e.1.callstack_id i.max_id ≡ true) m
      → (freed : List ℕ) × (free_large (get_reverse_map i) m ≡ done freed) × FreesLarge m freed
  unfolding free_large lookup
  free_large-FreesLarge [] u h = ([], refl, λ address. (λ e. cc, λ (x, e, l). cc))
  free_large-FreesLarge ((a, alloc) ∷ m) u h =
      let (verdict, tested, large) = is_large_python_iff alloc h.0 in
      let (freed, ran, rest) = free_large-FreesLarge m u.1 h.1 in
      (
        if verdict then a ∷ freed else freed,
        rw (tested, ran) refl,
        FreesLarge-cons a alloc m freed verdict u.0 large rest,
      )

-- When the books are in order, the loop of `oom_dump` does not panic, and frees exactly the
-- addresses of the tracked allocations of more than 300000 bytes whose callstack is not empty.
pub oom_free-FreesLarge :
    (t : AllocationTracker)
    → IsAccounted t
    → (freed : List ℕ) × (oom_free t ≡ done freed)
      × ((address : ℕ)
          → (is_in address freed ≡ true) ↔ (
              (alloc : Allocation) × (lookup ℕ_discrete address t.current_allocations ≡ some alloc)
              × IsLargePython t.interner alloc))
unfolding oom_free
oom_free-FreesLarge t a =
    free_large-FreesLarge t.interner a.numbered t.current_allocations a.unique a.allocation_ids
