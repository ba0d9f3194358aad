-- ===== src/Tracker/Accounting/Allocating.antt =====
-- `AllocationTracker::add_allocation` of memapi/src/memorytracking.rs and the books.
use filprofiler.Base.{
  ℕ, ◌+◌, ◌≤◌, ◌<◌, ◌≡◌, ◌≢◌, ◌==◌, ltb, lt→ltb, true, if◌then◌else◌, lookup, none, some, set, All,
  length, length-set, ap, ◌∙◌, arith, done, ℕ_discrete,
}
use filprofiler.Word.{usize_mod, u32_mod}
use filprofiler.HashMap.{
  insert, remove_absent, insert-IsUnique, remove-All, lookup-insert_self, lookup-insert_ne,
}
use filprofiler.RangeMap.Bytes.{held_bytes}
use filprofiler.Callstack.{Callstack}
use filprofiler.Interner.Numbering.{id_of}
use filprofiler.Interner.Extension.{Extends}
use filprofiler.Allocation.{new_allocation}
use filprofiler.Allocation.Rounding.{tracked, tracked_any}
use filprofiler.Tracker.{AllocationTracker, get_callstack_id, add_allocation}
use filprofiler.Tracker.Slots.{
  usage_of, IsSummed, with_sums, get_or-set, add_memory_usage_exact, more_sums,
}
use filprofiler.Tracker.Accounting.{IsAccounted, allocation_bytes}
use filprofiler.Tracker.Accounting.Naming.{Names, get_callstack_id-Names}

-- What `add_allocation` promises beside the books being in order.
pub record Allocates (t : AllocationTracker) (address bytes : ℕ) (cs : Callstack)
    (t' : AllocationTracker) : Type 0 where
  pub id : ℕ
  pub found : id_of t'.interner cs ≡ some id
  pub stored : lookup ℕ_discrete address t'.current_allocations ≡ some (new_allocation id bytes)
  pub others :
      (q : ℕ)
      → q ≢ address
      → lookup ℕ_discrete q t'.current_allocations ≡ lookup ℕ_discrete q t.current_allocations
  pub charged :
      (id' : ℕ) → usage_of t' id' ≡ usage_of t id' + (if id == id' then tracked id bytes else 0)
  pub total : t'.current_allocated_bytes ≡ t.current_allocated_bytes + tracked id bytes
  pub same_peak : t'.peak_allocated_bytes ≡ t.peak_allocated_bytes
  pub same_peak_usage : t'.peak_memory_usage ≡ t.peak_memory_usage
  pub same_mmaps : t'.current_anon_mmaps ≡ t.current_anon_mmaps
  pub extends : Extends t.interner cs t'.interner id
  pub grows : t'.interner.max_id ≤ t.interner.max_id + 1
  pub same_path : t'.default_path ≡ t.default_path

-- The tracker after `add_allocation`, where `u` is the tracker in which the callstack has its id.
abbrev pub allocated : AllocationTracker → ℕ → ℕ → ℕ → AllocationTracker
allocated u address id bytes =
    with_sums
      (record u {
        current_allocations =
            insert ℕ_discrete address (new_allocation id bytes) u.current_allocations;
      })
      (set u.current_memory_usage id (usage_of u id + tracked id bytes))
      (u.current_allocated_bytes + tracked id bytes)

module _ (u : AllocationTracker) (address id bytes : ℕ) (a : IsAccounted u)
    (fresh : lookup ℕ_discrete address u.current_allocations ≡ none)
    (valid : id < length u.current_memory_usage)
    (room : u.current_allocated_bytes + tracked id bytes < usize_mod) where
  allocated-usage :
      (id' : ℕ)
      → usage_of (allocated u address id bytes) id'
        ≡ allocation_bytes id' (allocated u address id bytes).current_allocations
          + held_bytes (λ v. v == id') u.current_anon_mmaps.ranges
  unfolding insert new_allocation
  allocated-usage id' = rw (remove_absent ℕ_discrete address u.current_allocations fresh) (
      ground (
        arith,
        get_or-set u.current_memory_usage id id' (usage_of u id + tracked id bytes) valid,
        a.usage id',
      ))

  allocated-ids :
      All
        (λ e. ltb e.1.callstack_id u.interner.max_id ≡ true)
        (allocated u address id bytes).current_allocations
  unfolding insert new_allocation
  allocated-ids = (
    lt→ltb _ _ (rw (← a.slots) valid),
    remove-All ℕ_discrete _ address u.current_allocations a.allocation_ids,
  )

  allocated-IsAccounted : IsAccounted (allocated u address id bytes)
  allocated-IsAccounted = record {
    numbered = a.numbered;
    slots = length-set u.current_memory_usage id (usage_of u id + tracked id bytes) ∙ a.slots;
    unique = insert-IsUnique ℕ_discrete address _ u.current_allocations a.unique;
    mmaps = a.mmaps;
    allocation_ids = allocated-ids;
    mmap_ids = a.mmap_ids;
    usage = allocated-usage;
    summed = summed;
    peak_total = a.peak_total;
    peak_slots = a.peak_slots;
    ids_last = a.ids_last;
  }
    where
      summed : IsSummed (allocated u address id bytes)
      summed =
          let s = more_sums u a.summed id (tracked id bytes) valid room in
          record { total = s.total; fits = s.fits }

  allocated-Allocates :
      (t : AllocationTracker) (cs : Callstack)
      → Names t cs (u, id)
      → Allocates t address bytes cs (allocated u address id bytes)
  allocated-Allocates t cs n = record {
    id = id;
    found = n.found;
    stored = lookup-insert_self ℕ_discrete address (new_allocation id bytes) u.current_allocations;
    others = λ q ne.
        lookup-insert_ne ℕ_discrete address q (new_allocation id bytes) u.current_allocations ne
        ∙ ap (λ (x : AllocationTracker). lookup ℕ_discrete q x.current_allocations) n.same;
    charged = λ id'. ground (
      arith,
      get_or-set u.current_memory_usage id id' (usage_of u id + tracked id bytes) valid,
      n.same_usage id,
      n.same_usage id',
    );
    total = ap (λ (x : AllocationTracker). x.current_allocated_bytes + tracked id bytes) n.same;
    same_peak = ap (λ (x : AllocationTracker). x.peak_allocated_bytes) n.same;
    same_peak_usage = ap (λ (x : AllocationTracker). x.peak_memory_usage) n.same;
    same_mmaps = ap (λ (x : AllocationTracker). x.current_anon_mmaps) n.same;
    extends = n.extends;
    grows = n.grows;
    same_path = ap (λ (x : AllocationTracker). x.default_path) n.same;
  }

-- When the books are in order, the address is free, and there is room for one more id and for the
-- tracked size, `add_allocation` does not panic, keeps the books in order, stores the allocation
-- under its callstack's id and changes no other entry, and charges its tracked size to that
-- callstack alone and to the total, leaving the recorded peak and the mappings as they were.
pub add_allocation-Allocates :
    (t : AllocationTracker) (address bytes : ℕ) (cs : Callstack)
    → IsAccounted t
    → lookup ℕ_discrete address t.current_allocations ≡ none
    → t.interner.max_id + 1 < u32_mod
    → t.current_allocated_bytes + tracked 0 bytes < usize_mod
    → (t' : AllocationTracker) × (add_allocation t address bytes cs ≡ done t')
      × IsAccounted t'
      × Allocates t address bytes cs t'
unfolding add_allocation
add_allocation-Allocates t address bytes cs a fresh ids room =
    let (b, n) = get_callstack_id-Names t cs a ids in
    let u = (get_callstack_id t cs).0 in
    let id = (get_callstack_id t cs).1 in
    let fresh' : lookup ℕ_discrete address u.current_allocations ≡ none =
      ap (λ (x : AllocationTracker). lookup ℕ_discrete address x.current_allocations) n.same
      ∙ fresh in
    let room' : u.current_allocated_bytes + tracked id bytes < usize_mod = omega (
      arith,
      room,
      tracked_any id 0 bytes,
      ap (λ (x : AllocationTracker). x.current_allocated_bytes) n.same,
    ) in
    let v = record u {
      current_allocations =
          insert ℕ_discrete address (new_allocation id bytes) u.current_allocations;
    } in
    (
      allocated u address id bytes,
      add_memory_usage_exact v (record { total = b.summed.total; fits = b.summed.fits }) id
          (tracked id bytes) n.valid room',
      allocated-IsAccounted u address id bytes b fresh' n.valid room',
      allocated-Allocates u address id bytes b fresh' n.valid room' t cs n,
    )
