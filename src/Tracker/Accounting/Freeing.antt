-- ===== src/Tracker/Accounting/Freeing.antt =====
-- `AllocationTracker::free_allocation` of memapi/src/memorytracking.rs and the books.
use filprofiler.Base.{
  ℕ, List, Option-cases, inl, inr, get_or-le-sum, ◌+◌, ◌-◌, ◌≤◌, ◌<◌, ◌≡◌, ◌≢◌, ◌==◌, max, ltb,
  ltb→lt, true, if◌then◌else◌, lookup, none, some, get_or, set, length, length-set, refl, ap, ◌∙◌,
  arith, done, ℕ_discrete,
}
use filprofiler.HashMap.{
  remove, remove-IsUnique, sum_by-remove, remove-All, lookup-remove_self, lookup-remove_ne,
  lookup-All,
}
use filprofiler.Allocation.{Allocation, size}
use filprofiler.Tracker.{AllocationTracker, free_allocation, check_if_new_peak}
use filprofiler.Tracker.Peak.{
  peak_is_max, same_usage, same_total, same_allocations, same_mmaps, same_interner, same_path,
}
use filprofiler.Tracker.Slots.{
  usage_of, with_sums, get_or-set, remove_memory_usage_exact, fewer_sums,
}
use filprofiler.Tracker.Accounting.{IsAccounted, allocation_bytes, check_if_new_peak-IsAccounted}

-- What `free_allocation` promises beside the books being in order. An address that is not tracked
-- changes nothing but the recorded peak.
pub record Frees (t : AllocationTracker) (address : ℕ) (t' : AllocationTracker) : Type 0 where
  pub gone : lookup ℕ_discrete address t'.current_allocations ≡ none
  pub others :
      (q : ℕ)
      → q ≢ address
      → lookup ℕ_discrete q t'.current_allocations ≡ lookup ℕ_discrete q t.current_allocations
  pub credited :
      (id : ℕ)
      → usage_of t' id + elim (lookup ℕ_discrete address t.current_allocations) [
        | none ↦ 0
        | some alloc ↦ if alloc.callstack_id == id then size alloc else 0
      ]
        ≡ usage_of t id
  pub total :
      t'.current_allocated_bytes + elim (lookup ℕ_discrete address t.current_allocations) [
        | none ↦ 0
        | some alloc ↦ size alloc
      ]
      ≡ t.current_allocated_bytes
  pub peak : t'.peak_allocated_bytes ≡ max t.peak_allocated_bytes t.current_allocated_bytes
  pub peak_usage : t'.peak_memory_usage ≡ (check_if_new_peak t).peak_memory_usage
  pub same_mmaps : t'.current_anon_mmaps ≡ t.current_anon_mmaps
  pub same_interner : t'.interner ≡ t.interner
  pub same_path : t'.default_path ≡ t.default_path

-- The tracker after a tracked allocation is freed, where `u` is the tracker with its peak checked.
abbrev freed : AllocationTracker → ℕ → Allocation → AllocationTracker
freed u address alloc =
    with_sums (record u { current_allocations = remove ℕ_discrete address u.current_allocations })
      (set u.current_memory_usage alloc.callstack_id (usage_of u alloc.callstack_id - size alloc))
      (u.current_allocated_bytes - size alloc)

module _ (u : AllocationTracker) (address : ℕ) (alloc : Allocation) (a : IsAccounted u)
    (there : lookup ℕ_discrete address u.current_allocations ≡ some alloc) where
  freed-valid : alloc.callstack_id < length u.current_memory_usage
  freed-valid = rw a.slots (
      ltb→lt _ _ (
        lookup-All ℕ_discrete (λ v. ltb v.callstack_id u.interner.max_id ≡ true) address alloc
          u.current_allocations a.allocation_ids there))

  allocation_bytes-freed :
      (id : ℕ)
      → allocation_bytes id u.current_allocations
        ≡ (if alloc.callstack_id == id then size alloc else 0)
          + allocation_bytes id (remove ℕ_discrete address u.current_allocations)
  allocation_bytes-freed id =
      sum_by-remove ℕ_discrete (λ e. if e.1.callstack_id == id then size e.1 else 0) address alloc
        u.current_allocations a.unique there

  freed-enough : size alloc ≤ usage_of u alloc.callstack_id
  freed-enough =
      ground (arith, a.usage alloc.callstack_id, allocation_bytes-freed alloc.callstack_id)

  freed-credited :
      (id : ℕ)
      → usage_of (freed u address alloc) id + (if alloc.callstack_id == id then size alloc else 0)
        ≡ usage_of u id
  freed-credited id = ground (
    arith,
    get_or-set u.current_memory_usage alloc.callstack_id id
        (usage_of u alloc.callstack_id - size alloc) freed-valid,
    freed-enough,
  )

  freed-IsAccounted : IsAccounted (freed u address alloc)
  freed-IsAccounted = record {
    numbered = a.numbered;
    slots =
        length-set u.current_memory_usage alloc.callstack_id
          (usage_of u alloc.callstack_id - size alloc)
        ∙ a.slots;
    unique = remove-IsUnique ℕ_discrete address u.current_allocations a.unique;
    mmaps = a.mmaps;
    allocation_ids = remove-All ℕ_discrete _ address u.current_allocations a.allocation_ids;
    mmap_ids = a.mmap_ids;
    usage = λ id. omega (arith, freed-credited id, a.usage id, allocation_bytes-freed id);
    summed =
        (let s = fewer_sums u a.summed alloc.callstack_id (size alloc) freed-valid freed-enough in
          record { total = s.total; fits = s.fits });
    peak_total = a.peak_total;
    peak_slots = a.peak_slots;
    ids_last = a.ids_last;
  }

-- Where the address is tracked.
module _ (t : AllocationTracker) (address : ℕ) (alloc : Allocation) (a : IsAccounted t)
    (there : lookup ℕ_discrete address t.current_allocations ≡ some alloc) where
  abbrev checked : AllocationTracker
  checked = check_if_new_peak t

  checked_there : lookup ℕ_discrete address checked.current_allocations ≡ some alloc
  checked_there = rw (same_allocations t) there

  checked-IsAccounted : IsAccounted checked
  checked-IsAccounted = check_if_new_peak-IsAccounted t a

  free_tracked : free_allocation t address ≡ done (freed checked address alloc)
  unfolding free_allocation
  free_tracked =
      let c = checked-IsAccounted in
      rw (checked_there, free_allocation)
        (remove_memory_usage_exact
          (record checked {
            current_allocations = remove ℕ_discrete address checked.current_allocations;
          })
          (record { total = c.summed.total; fits = c.summed.fits }) alloc.callstack_id (size alloc)
          (freed-valid checked address alloc c checked_there)
          (freed-enough checked address alloc c checked_there))

  freed-Frees : Frees t address (freed checked address alloc)
  freed-Frees =
      let c = checked-IsAccounted in
      let enough = freed-enough checked address alloc c checked_there in
      record {
        gone = lookup-remove_self ℕ_discrete address checked.current_allocations;
        others = λ q ne.
            lookup-remove_ne ℕ_discrete address q checked.current_allocations ne
            ∙ ap (lookup ℕ_discrete q) (same_allocations t);
        credited = λ id. rw there (
            freed-credited checked address alloc c checked_there id
            ∙ ap (λ (l : List ℕ). get_or l id 0) (same_usage t));
        total = rw there (
            omega (
              arith,
              same_total t,
              enough,
              c.summed.total,
              get_or-le-sum checked.current_memory_usage alloc.callstack_id,
            ));
        peak = peak_is_max t;
        peak_usage = refl;
        same_mmaps = same_mmaps t;
        same_interner = same_interner t;
        same_path = same_path t;
      }

-- Where it is not.
module _ (t : AllocationTracker) (address : ℕ)
    (absent : lookup ℕ_discrete address t.current_allocations ≡ none) where
  free_untracked : free_allocation t address ≡ done (check_if_new_peak t)
  unfolding free_allocation
  free_untracked =
      rw (ap (lookup ℕ_discrete address) (same_allocations t) ∙ absent, free_allocation) refl

  pub untracked-Frees : Frees t address (check_if_new_peak t)
  untracked-Frees = record {
    gone = ap (lookup ℕ_discrete address) (same_allocations t) ∙ absent;
    others = λ q ne. ap (lookup ℕ_discrete q) (same_allocations t);
    credited = λ id. rw absent (omega (arith, ap (λ (l : List ℕ). get_or l id 0) (same_usage t)));
    total = rw absent (omega (arith, same_total t));
    peak = peak_is_max t;
    peak_usage = refl;
    same_mmaps = same_mmaps t;
    same_interner = same_interner t;
    same_path = same_path t;
  }

-- When the books are in order, `free_allocation` does not panic and keeps them in order: the
-- address is free afterwards and no other entry changes; a tracked allocation is credited in full
-- to its callstack and to the total, an untracked address credits nothing; and the peak is raised
-- first to the bytes that were in use.
pub free_allocation-Frees :
    (t : AllocationTracker) (address : ℕ)
    → IsAccounted t
    → (t' : AllocationTracker) × (free_allocation t address ≡ done t')
      × IsAccounted t'
      × Frees t address t'
free_allocation-Frees t address a =
    elim (Option-cases (lookup ℕ_discrete address t.current_allocations)) [
      | inl absent ↦ (
        check_if_new_peak t,
        free_untracked t address absent,
        check_if_new_peak-IsAccounted t a,
        untracked-Frees t address absent,
      )
      | inr (alloc, there) ↦ (
        freed (check_if_new_peak t) address alloc,
        free_tracked t address alloc a there,
        freed-IsAccounted (check_if_new_peak t) address alloc (check_if_new_peak-IsAccounted t a)
            (checked_there t address alloc a there),
        freed-Frees t address alloc a there,
      )
    ]
