-- ===== src/Profile/Names.antt =====
-- Blocks and pages of a profile, as the ids of memapi/src/memorytracking.rs give them: a new callstack
-- changes none of them.
use filprofiler.Base.{
  ℕ, ◌<◌, ◌≡◌, ltb, ltb→lt, true, List, [], ◌∷◌, Option, none, some, lookup, All, Option-cases, inl,
  inr, refl, ap, Bool-cases, ℕ_discrete,
}
use filprofiler.HashMap.{lookup-All}
use filprofiler.RangeMap.{Range}
use filprofiler.RangeMap.Points.{values_at, contains}
use filprofiler.Callstack.{Callstack}
use filprofiler.Interner.{CallstackInterner}
use filprofiler.Interner.Numbering.{IsNumbered, id_of}
use filprofiler.Interner.Reverse.{get_reverse_map_iff}
use filprofiler.Interner.Extension.{Extends, name_of, name_of-Extends}
use filprofiler.Allocation.{Allocation, size}
use filprofiler.Tracker.{AllocationTracker}
use filprofiler.Tracker.Accounting.{IsAccounted}
use filprofiler.Profile.{block_of, page_of}

values_at-All :
    (P : ℕ → Type 0) (a : ℕ) (l : List (Range × ℕ)) → All (λ e. P e.1) l → All P (values_at a l)
values_at-All P a [] h = tt
values_at-All P a ((r, v) ∷ l) h = elim (Bool-cases (contains r a)) [
  | inl e ↦ rw e (h.0, values_at-All P a l h.1)
  | inr e ↦ rw e (values_at-All P a l h.1)
]

-- An id below `max_id` has a callstack.
pub name_of_below :
    (i : CallstackInterner) (id : ℕ)
    → IsNumbered i
    → id < i.max_id
    → (cs : Callstack) × (name_of i id ≡ some cs) × (id_of i cs ≡ some id)
name_of_below i id v h = let (cs, e) = v.dense id h in (cs, (get_reverse_map_iff i cs id v).1 e, e)

module _ (t : AllocationTracker) (a : IsAccounted t) where
  entry_below :
      (q : ℕ) (alloc : Allocation)
      → lookup ℕ_discrete q t.current_allocations ≡ some alloc
      → alloc.callstack_id < t.interner.max_id
  entry_below q alloc e = ltb→lt _ _ (
      lookup-All ℕ_discrete (λ v. ltb v.callstack_id t.interner.max_id ≡ true) q alloc
        t.current_allocations a.allocation_ids e)

  pub pages_below :
      (q : ℕ) → All (λ v. ltb v t.interner.max_id ≡ true) (values_at q t.current_anon_mmaps.ranges)
  pages_below q = values_at-All _ q t.current_anon_mmaps.ranges a.mmap_ids

  -- A block in the table is in the profile, and a page in a range.
  pub block_of_some :
      (q : ℕ) (alloc : Allocation)
      → lookup ℕ_discrete q t.current_allocations ≡ some alloc
      → (cs : Callstack) × (name_of t.interner alloc.callstack_id ≡ some cs)
        × (id_of t.interner cs ≡ some alloc.callstack_id)
  block_of_some q alloc e =
      name_of_below t.interner alloc.callstack_id a.numbered (entry_below q alloc e)

  pub block_of-none :
      (q : ℕ)
      → block_of t.interner (lookup ℕ_discrete q t.current_allocations) ≡ none
      → lookup ℕ_discrete q t.current_allocations ≡ none
  block_of-none q e = elim (Option-cases (lookup ℕ_discrete q t.current_allocations)) [
    | inl absent ↦ absent
    | inr (alloc, there) ↦
        let (cs, named, _) = block_of_some q alloc there in
        absurd (cc (ap (block_of t.interner) there, named, e))
  ]

  page_of_below-none :
      (l : List ℕ)
      → All (λ v. ltb v t.interner.max_id ≡ true) l
      → page_of t.interner l ≡ none
      → l ≡ []
  page_of_below-none [] h e = refl
  page_of_below-none (k ∷ l) h e =
      let (cs, named, _) = name_of_below t.interner k a.numbered (ltb→lt _ _ h.0) in
      absurd (cc (named, e))

  pub page_of-none :
      (q : ℕ)
      → page_of t.interner (values_at q t.current_anon_mmaps.ranges) ≡ none
      → values_at q t.current_anon_mmaps.ranges ≡ []
  page_of-none q e = page_of_below-none (values_at q t.current_anon_mmaps.ranges) (pages_below q) e

  module _ (i' : CallstackInterner) (cs : Callstack) (id : ℕ) (x : Extends t.interner cs i' id)
      (v' : IsNumbered i') where
    pub block_of-Extends :
        (q : ℕ)
        → block_of i' (lookup ℕ_discrete q t.current_allocations)
          ≡ block_of t.interner (lookup ℕ_discrete q t.current_allocations)
    block_of-Extends q = elim (Option-cases (lookup ℕ_discrete q t.current_allocations)) [
      | inl absent ↦ rw absent refl
      | inr (alloc, there) ↦ rw there (
          ap (λ (n : Option Callstack). elim n [ none ↦ none | some k ↦ some (k, size alloc) ])
            (name_of-Extends t.interner i' cs id x a.numbered v' alloc.callstack_id
              (entry_below q alloc there)))
    ]

    page_of_below :
        (l : List ℕ)
        → All (λ v. ltb v t.interner.max_id ≡ true) l
        → page_of i' l ≡ page_of t.interner l
    page_of_below [] h = refl
    page_of_below (k ∷ l) h = name_of-Extends t.interner i' cs id x a.numbered v' k (ltb→lt _ _ h.0)

    pub page_of-Extends :
        (q : ℕ)
        → page_of i' (values_at q t.current_anon_mmaps.ranges)
          ≡ page_of t.interner (values_at q t.current_anon_mmaps.ranges)
    page_of-Extends q = page_of_below (values_at q t.current_anon_mmaps.ranges) (pages_below q)
