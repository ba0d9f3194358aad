-- ===== src/Tracker/Accounting/Overwriting.antt =====
-- `AllocationTracker::add_allocation` of memapi/src/memorytracking.rs at an address that is tracked
-- already.
use filprofiler.Base.{
  ℕ, ◌+◌, ◌<◌, ◌≡◌, ◌==◌, if◌then◌else◌, lookup, some, length, ap, ◌∙◌, arith, done, ℕ_discrete,
}
use filprofiler.Word.{usize_mod, u32_mod}
use filprofiler.HashMap.{insert, sum_by-remove}
use filprofiler.RangeMap.Bytes.{held_bytes}
use filprofiler.Callstack.{Callstack}
use filprofiler.Allocation.{Allocation, new_allocation, size}
use filprofiler.Allocation.Rounding.{tracked, tracked_any}
use filprofiler.Tracker.{AllocationTracker, get_callstack_id, add_allocation}
use filprofiler.Tracker.Slots.{usage_of, get_or-set, add_memory_usage_exact}
use filprofiler.Tracker.Accounting.{IsAccounted, allocation_bytes}
use filprofiler.Tracker.Accounting.Naming.{get_callstack_id-Names}
use filprofiler.Tracker.Accounting.Allocating.{allocated}

overwritten_usage :
    (u : AllocationTracker) (address id bytes : ℕ) (old : Allocation)
    → IsAccounted u
    → lookup ℕ_discrete address u.current_allocations ≡ some old
    → id < length u.current_memory_usage
    → (id' : ℕ)
    → usage_of (allocated u address id bytes) id'
      ≡ allocation_bytes id' (allocated u address id bytes).current_allocations
        + held_bytes (λ v. v == id') u.current_anon_mmaps.ranges
        + (if old.callstack_id == id' then size old else 0)
unfolding insert new_allocation
overwritten_usage u address id bytes old a there valid id' = ground (
  arith,
  get_or-set u.current_memory_usage id id' (usage_of u id + tracked id bytes) valid,
  a.usage id',
  sum_by-remove ℕ_discrete (λ e. if e.1.callstack_id == id' then size e.1 else 0) address old
      u.current_allocations a.unique there,
)

-- When the books are in order, the address is tracked already, and there is room for one more id
-- and for the tracked size, `add_allocation` does not panic, and afterwards the usage of every
-- callstack is its live bytes, plus, for the callstack of the allocation that was replaced, that
-- allocation's size, which is not credited.
pub add_allocation_overwrites :
    (t : AllocationTracker) (address bytes : ℕ) (cs : Callstack) (old : Allocation)
    → IsAccounted t
    → lookup ℕ_discrete address t.current_allocations ≡ some old
    → t.interner.max_id + 1 < u32_mod
    → t.current_allocated_bytes + tracked 0 bytes < usize_mod
    → (t' : AllocationTracker) × (add_allocation t address bytes cs ≡ done t')
      × ((id : ℕ)
          → usage_of t' id
            ≡ allocation_bytes id t'.current_allocations
              + held_bytes (λ v. v == id) t'.current_anon_mmaps.ranges
              + (if old.callstack_id == id then size old else 0))
unfolding add_allocation
add_allocation_overwrites t address bytes cs old a there ids room =
    let (b, n) = get_callstack_id-Names t cs a ids in
    let u = (get_callstack_id t cs).0 in
    let id = (get_callstack_id t cs).1 in
    let there' : lookup ℕ_discrete address u.current_allocations ≡ some old =
      ap (λ (x : AllocationTracker). lookup ℕ_discrete address x.current_allocations) n.same
      ∙ there in
    let room' : u.current_allocated_bytes + tracked id bytes < usize_mod = omega (
      arith,
      room,
      tracked_any id 0 bytes,
      ap (λ (x : AllocationTracker). x.current_allocated_bytes) n.same,
    ) in
    let v = record u {
      current_allocations =
          insert ℕ_discrete address (new_allocation id bytes) u.current_allocations;
    } in
    (
      allocated u address id bytes,
      add_memory_usage_exact v (record { total = b.summed.total; fits = b.summed.fits }) id
          (tracked id bytes) n.valid room',
      overwritten_usage u address id bytes old b there' n.valid,
    )
