-- ===== src/Report/Current.antt =====
-- `combine_callstacks(false)` of memapi/src/memorytracking.rs.
use filprofiler.Base.{
  ℕ, ◌+◌, ◌<◌, ◌≡◌, ◌==◌, if◌then◌else◌, false, List, [], ◌∷◌, lookup, All, get_or, get_or-le-sum,
  sum_by, refl, ap, ◌∙◌, arith, ℕ_discrete,
}
use filprofiler.Word.{usize_mod}
use filprofiler.HashMap.{HashMap, amount, add_entry, amount-add_entry_self, amount-add_entry_ne}
use filprofiler.RangeMap.{Range, as_hashmap, range_size}
use filprofiler.RangeMap.Bounds.{IsProper, range_size_exact}
use filprofiler.RangeMap.Bytes.{held_bytes}
use filprofiler.RangeMap.Disjoint.{IsDisjoint, sum_by-as_hashmap}
use filprofiler.Allocation.{Allocation, size}
use filprofiler.Tracker.{AllocationTracker, check_if_new_peak}
use filprofiler.Tracker.Slots.{usage_of}
use filprofiler.Tracker.Accounting.{IsAccounted, allocation_bytes, check_if_new_peak-IsAccounted}
use filprofiler.Tracker.Peak.{same_mmaps, same_usage}
use filprofiler.Report.{collect_allocations, collect_mmaps, combine_callstacks}

amount-collect_allocations :
    (id : ℕ) (l : HashMap ℕ Allocation) (m : HashMap ℕ ℕ)
    → amount ℕ_discrete id m + allocation_bytes id l < usize_mod
    → amount ℕ_discrete id (collect_allocations l m)
      ≡ amount ℕ_discrete id m + allocation_bytes id l
unfolding collect_allocations
amount-collect_allocations id [] m h = omega arith
amount-collect_allocations id ((a, alloc) ∷ l) m h = elim (ℕ_discrete id alloc.callstack_id) [
  | yes p ↦
      let e = amount-add_entry_self ℕ_discrete id (size alloc) m (ground arith) in
      ground (
        arith,
        p,
        e,
        amount-collect_allocations id l (add_entry ℕ_discrete alloc.callstack_id (size alloc) m),
      )
  | no p ↦ ground (
    arith,
    amount-add_entry_ne ℕ_discrete alloc.callstack_id id (size alloc) m p,
    amount-collect_allocations id l (add_entry ℕ_discrete alloc.callstack_id (size alloc) m),
  )
]

-- The bytes of a callstack among the entries that `as_hashmap` makes.
abbrev entry_bytes : ℕ → HashMap ℕ (ℕ × ℕ) → ℕ
entry_bytes id = sum_by (λ e. if e.1.1 == id then e.1.0 else 0)

amount-collect_mmaps :
    (id : ℕ) (l : HashMap ℕ (ℕ × ℕ)) (m : HashMap ℕ ℕ)
    → amount ℕ_discrete id m + entry_bytes id l < usize_mod
    → amount ℕ_discrete id (collect_mmaps l m) ≡ amount ℕ_discrete id m + entry_bytes id l
unfolding collect_mmaps
amount-collect_mmaps id [] m h = omega arith
amount-collect_mmaps id ((a, (bytes, owner)) ∷ l) m h = elim (ℕ_discrete id owner) [
  | yes p ↦ ground (
    arith,
    p,
    amount-add_entry_self ℕ_discrete id bytes m,
    amount-collect_mmaps id l (add_entry ℕ_discrete owner bytes m),
  )
  | no p ↦ ground (
    arith,
    amount-add_entry_ne ℕ_discrete owner id bytes m p,
    amount-collect_mmaps id l (add_entry ℕ_discrete owner bytes m),
  )
]

held_bytes-range_size :
    (id : ℕ) (l : List (Range × ℕ))
    → All (λ e. IsProper e.0) l
    → sum_by (λ e. if e.1 == id then range_size e.0 else 0) l ≡ held_bytes (λ v. v == id) l
held_bytes-range_size id [] h = refl
held_bytes-range_size id ((r, v) ∷ l) h =
    ground (arith, range_size_exact r, held_bytes-range_size id l h.1)

-- When the books are in order and no mappings overlap, the report of the current allocations has,
-- for each callstack, the bytes in use that the tracker counts for it.
pub combine_callstacks_current :
    (t : AllocationTracker) (id : ℕ)
    → IsAccounted t
    → IsDisjoint t.current_anon_mmaps
    → amount ℕ_discrete id (combine_callstacks t false).1 ≡ usage_of t id
unfolding combine_callstacks lookup
combine_callstacks_current t id a d =
    let u = check_if_new_peak t in
    let c = check_if_new_peak-IsAccounted t a in
    let small = get_or-le-sum u.current_memory_usage id in
    let mmaps : entry_bytes id (as_hashmap u.current_anon_mmaps)
        ≡ held_bytes (λ v. v == id) u.current_anon_mmaps.ranges =
      sum_by-as_hashmap (λ e. if e.1.1 == id then e.1.0 else 0) u.current_anon_mmaps c.mmaps
        (rw (same_mmaps t) d)
      ∙ held_bytes-range_size id u.current_anon_mmaps.ranges c.mmaps in
    let allocations =
      amount-collect_allocations id u.current_allocations []
        (omega (arith, c.usage id, small, c.summed.total, c.summed.fits)) in
    omega (
      arith,
      c.usage id,
      mmaps,
      allocations,
      amount-collect_mmaps id (as_hashmap u.current_anon_mmaps)
          (collect_allocations u.current_allocations [])
          (omega (arith, c.usage id, small, c.summed.total, c.summed.fits, mmaps, allocations)),
      ap (λ (l : List ℕ). get_or l id 0) (same_usage t),
    )
