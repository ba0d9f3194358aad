-- ===== src/Tracker/Accounting/Mapping.antt =====
-- `AllocationTracker::add_anon_mmap` of memapi/src/memorytracking.rs and the books.
use filprofiler.Base.{
  ℕ, Bool, some, ◌+◌, ◌≤◌, ◌<◌, ◌≡◌, ◌==◌, ltb, lt→ltb, true, if◌then◌else◌, [], ◌∷◌, ◌++◌, set,
  All, length, length-set, ap, sym, ◌∙◌, arith, done,
}
use filprofiler.Word.{usize_mod, u32_mod}
use filprofiler.RangeMap
use filprofiler.RangeMap.{RangeMap}
use filprofiler.RangeMap.Points.{within, values_at, IsWellFormed}
use filprofiler.RangeMap.Bytes.{held_bytes}
use filprofiler.RangeMap.Removal.{add-values_at}
use filprofiler.Callstack.{Callstack}
use filprofiler.Interner.Numbering.{id_of}
use filprofiler.Interner.Extension.{Extends}
use filprofiler.Tracker.{AllocationTracker, get_callstack_id, add_anon_mmap}
use filprofiler.Tracker.Slots.{usage_of, with_sums, get_or-set, add_memory_usage_exact, more_sums}
use filprofiler.Tracker.Accounting.{IsAccounted}
use filprofiler.Tracker.Accounting.Naming.{get_callstack_id-Names}

-- What `add_anon_mmap` promises beside the books being in order.
pub record Maps (t : AllocationTracker) (address bytes : ℕ) (cs : Callstack)
    (t' : AllocationTracker) : Type 0 where
  pub id : ℕ
  pub found : id_of t'.interner cs ≡ some id
  pub points :
      (a : ℕ)
      → values_at a t'.current_anon_mmaps.ranges
        ≡ values_at a t.current_anon_mmaps.ranges
          ++ (if within address bytes a then id ∷ [] else [])
  pub charged : (id' : ℕ) → usage_of t' id' ≡ usage_of t id' + (if id == id' then bytes else 0)
  pub total : t'.current_allocated_bytes ≡ t.current_allocated_bytes + bytes
  pub added : RangeMap.add t.current_anon_mmaps address bytes id ≡ done t'.current_anon_mmaps
  pub same_peak : t'.peak_allocated_bytes ≡ t.peak_allocated_bytes
  pub same_peak_usage : t'.peak_memory_usage ≡ t.peak_memory_usage
  pub same_allocations : t'.current_allocations ≡ t.current_allocations
  pub extends : Extends t.interner cs t'.interner id
  pub grows : t'.interner.max_id ≤ t.interner.max_id + 1
  pub same_path : t'.default_path ≡ t.default_path

-- The tracker after `add_anon_mmap`, where `u` is the tracker in which the callstack has its id.
abbrev mapped : AllocationTracker → RangeMap ℕ → ℕ → ℕ → AllocationTracker
mapped u m id bytes =
    with_sums (record u { current_anon_mmaps = m })
      (set u.current_memory_usage id (usage_of u id + bytes)) (u.current_allocated_bytes + bytes)

module _ (u : AllocationTracker) (m : RangeMap ℕ) (id bytes : ℕ) (a : IsAccounted u)
    (wf : IsWellFormed m)
    (held : (p : ℕ → Bool)
      → held_bytes p m.ranges
        ≡ held_bytes p u.current_anon_mmaps.ranges + (if p id then bytes else 0))
    (named : All (λ e. ltb e.1 u.interner.max_id ≡ true) m.ranges)
    (valid : id < length u.current_memory_usage)
    (room : u.current_allocated_bytes + bytes < usize_mod) where
  mapped-IsAccounted : IsAccounted (mapped u m id bytes)
  mapped-IsAccounted = record {
    numbered = a.numbered;
    slots = length-set u.current_memory_usage id (usage_of u id + bytes) ∙ a.slots;
    unique = a.unique;
    mmaps = wf;
    allocation_ids = a.allocation_ids;
    mmap_ids = named;
    usage = λ id'. ground (
      arith,
      get_or-set u.current_memory_usage id id' (usage_of u id + bytes) valid,
      a.usage id',
      held (λ v. v == id'),
    );
    summed =
        (let s = more_sums u a.summed id bytes valid room in
          record { total = s.total; fits = s.fits });
    peak_total = a.peak_total;
    peak_slots = a.peak_slots;
    ids_last = a.ids_last;
  }

-- When the books are in order, the range is within the word size, and there is room for one more id
-- and for the bytes, `add_anon_mmap` does not panic, keeps the books in order, puts the callstack's
-- id behind what the addresses of the range hold, and charges the bytes to that callstack alone and
-- to the total, leaving the recorded peak as it was.
pub add_anon_mmap-Maps :
    (t : AllocationTracker) (address bytes : ℕ) (cs : Callstack)
    → IsAccounted t
    → address + bytes < usize_mod
    → t.interner.max_id + 1 < u32_mod
    → t.current_allocated_bytes + bytes < usize_mod
    → (t' : AllocationTracker) × (add_anon_mmap t address bytes cs ≡ done t')
      × IsAccounted t'
      × Maps t address bytes cs t'
unfolding add_anon_mmap
add_anon_mmap-Maps t address bytes cs a bound ids room =
    let (b, n) = get_callstack_id-Names t cs a ids in
    let u = (get_callstack_id t cs).0 in
    let id = (get_callstack_id t cs).1 in
    let (m, added, wf, points, held, named) =
      add-values_at u.current_anon_mmaps address bytes id b.mmaps bound in
    let valid = n.valid in
    let room' : u.current_allocated_bytes + bytes < usize_mod =
      omega (arith, room, ap (λ (x : AllocationTracker). x.current_allocated_bytes) n.same) in
    let below : ltb id u.interner.max_id ≡ true = lt→ltb _ _ (rw (← b.slots) valid) in
    let v = record u { current_anon_mmaps = m } in
    (
      mapped u m id bytes,
      rw added (
          add_memory_usage_exact v (record { total = b.summed.total; fits = b.summed.fits }) id
            bytes n.valid room'),
      mapped-IsAccounted u m id bytes b wf held
          (named (λ w. ltb w u.interner.max_id) b.mmap_ids below) n.valid room',
      record {
        id = id;
        found = n.found;
        points = λ x.
            points x
            ∙ ap
                (λ (w : AllocationTracker).
                  values_at x w.current_anon_mmaps.ranges
                  ++ (if within address bytes x then id ∷ [] else []))
                n.same;
        charged = λ id'. ground (
          arith,
          get_or-set u.current_memory_usage id id' (usage_of u id + bytes) valid,
          n.same_usage id,
          n.same_usage id',
        );
        total = ap (λ (x : AllocationTracker). x.current_allocated_bytes + bytes) n.same;
        added =
            ap (λ (w : AllocationTracker). RangeMap.add w.current_anon_mmaps address bytes id)
              (sym n.same)
            ∙ added;
        same_peak = ap (λ (x : AllocationTracker). x.peak_allocated_bytes) n.same;
        same_peak_usage = ap (λ (x : AllocationTracker). x.peak_memory_usage) n.same;
        same_allocations = ap (λ (x : AllocationTracker). x.current_allocations) n.same;
        extends = n.extends;
        grows = n.grows;
        same_path = ap (λ (x : AllocationTracker). x.default_path) n.same;
      },
    )
