-- ===== src/Report/Remapped.antt =====
-- The report of the current allocations (memapi/src/memorytracking.rs) after a mapping at an address
-- where a tracked one starts, as mmap with MAP_FIXED makes.
use filprofiler.Base.{
  ℕ, zero, suc, ◌+◌, ◌-◌, ◌<◌, ◌≡◌, ◌==◌, ltb, false, true, if◌then◌else◌, List, [], ◌∷◌, ◌++◌,
  lookup, All, Option-cases, inl, inr, some, sum_by, refl, sym, ap, ◌∙◌, arith, done, ℕ_discrete,
}
use filprofiler.Word.{usize_mod, u32_mod, add_usize_exact}
use filprofiler.HashMap.{
  HashMap, IsUnique, insert, insert_absent, add_entry, add_entry-IsUnique, sum_by-remove,
}
use filprofiler.Callstack.{Callstack}
use filprofiler.RangeMap
use filprofiler.RangeMap.{Range, RangeMap, range_size, collect, as_hashmap}
use filprofiler.RangeMap.Bounds.{IsProper, new_range_exact, range_size_exact}
use filprofiler.RangeMap.Bytes.{sum_range, sum_range-congr, sum_range-zero}
use filprofiler.RangeMap.Disjoint.{IsDisjoint, sum_by-as_hashmap}
use filprofiler.RangeMap.Keys.{as_hashmap-IsUnique}
use filprofiler.Allocation.{Allocation, size}
use filprofiler.Tracker.{AllocationTracker, add_anon_mmap}
use filprofiler.Tracker.Slots.{usage_of}
use filprofiler.Tracker.Accounting.{IsAccounted}
use filprofiler.Tracker.Accounting.Mapping.{add_anon_mmap-Maps}
use filprofiler.Tracker.Peak.{same_allocations, same_mmaps}
use filprofiler.Report.{collect_allocations, collect_mmaps, combine_callstacks}
use filprofiler.Report.Total.{sum_range-change, sum-get_or, collect_allocations-IsUnique}

sum_range-plus :
    (f g : ℕ → ℕ) (start n : ℕ)
    → sum_range (λ a. f a + g a) start n ≡ sum_range f start n + sum_range g start n
sum_range-plus f g start zero = refl
sum_range-plus f g start (suc n) = omega (arith, sum_range-plus f g (suc start) n)

-- A sum over the items of each id, taken over all ids, is the sum over the items.
sum_over_ids {ℓ} :
    {A : Type ℓ} (id_of value : A → ℕ) (n : ℕ) (l : List A)
    → All (λ e. ltb (id_of e) n ≡ true) l
    → sum_range (λ id. sum_by (λ e. if id_of e == id then value e else 0) l) 0 n ≡ sum_by value l
sum_over_ids id_of value n [] h = sum_range-zero 0 n
sum_over_ids id_of value n (e ∷ l) h =
    sum_range-change (λ id. sum_by (λ e. if id_of e == id then value e else 0) (e ∷ l))
      (λ id. sum_by (λ e. if id_of e == id then value e else 0) l) (id_of e) (value e) 0 n
      (λ id. ground arith)
    ∙ ground (arith, sum_over_ids id_of value n l h.1, h.0)

-- The bytes in use are those of the allocations and those of the mappings.
in_use :
    (t : AllocationTracker)
    → IsAccounted t
    → t.current_allocated_bytes
      ≡ sum_by (λ e. size e.1) t.current_allocations
        + sum_by (λ e. e.0.end - e.0.start) t.current_anon_mmaps.ranges
in_use t a =
    let n = t.interner.max_id in
    let blocks =
      sum_over_ids (λ (e : ℕ × Allocation). e.1.callstack_id) (λ e. size e.1) n
        t.current_allocations a.allocation_ids in
    let mappings =
      sum_over_ids (λ (e : Range × ℕ). e.1) (λ e. e.0.end - e.0.start) n t.current_anon_mmaps.ranges
        a.mmap_ids in
    a.summed.total
    ∙ sum-get_or t.current_memory_usage
    ∙ ap (sum_range (usage_of t) 0) a.slots
    ∙ sum_range-congr (usage_of t) _ 0 n (λ id _. a.usage id)
    ∙ sum_range-plus _ _ 0 n
    ∙ omega (arith, blocks, mappings)

-- The bytes of a report.
abbrev total : HashMap ℕ ℕ → ℕ
total = sum_by (λ e. e.1)

total-add_entry :
    (k n : ℕ) (m : HashMap ℕ ℕ)
    → IsUnique ℕ_discrete m
    → total m + n < usize_mod
    → total (add_entry ℕ_discrete k n m) ≡ total m + n
unfolding add_entry insert
total-add_entry k n m u room = elim (Option-cases (lookup ℕ_discrete k m)) [
  | inl e ↦
      rw (e, add_entry) (ground (arith, insert_absent ℕ_discrete k n m e, add_usize_exact 0 n))
  | inr (old, e) ↦
      let whole = sum_by-remove ℕ_discrete (λ e. e.1) k old m u e in
      rw (e, add_entry) (omega (arith, whole, add_usize_exact old n (omega (arith, whole, room))))
]

total-collect_allocations :
    (l : HashMap ℕ Allocation) (m : HashMap ℕ ℕ)
    → IsUnique ℕ_discrete m
    → total m + sum_by (λ e. size e.1) l < usize_mod
    → total (collect_allocations l m) ≡ total m + sum_by (λ e. size e.1) l
unfolding collect_allocations
total-collect_allocations [] m u room = omega arith
total-collect_allocations ((a, alloc) ∷ l) m u room =
    let one = total-add_entry alloc.callstack_id (size alloc) m u (omega (arith, room)) in
    omega (
      arith,
      one,
      total-collect_allocations l (add_entry ℕ_discrete alloc.callstack_id (size alloc) m)
          (add_entry-IsUnique ℕ_discrete alloc.callstack_id (size alloc) m u)
          (omega (arith, one, room)),
    )

total-collect_mmaps :
    (l : HashMap ℕ (ℕ × ℕ)) (m : HashMap ℕ ℕ)
    → IsUnique ℕ_discrete m
    → total m + sum_by (λ e. e.1.0) l < usize_mod
    → total (collect_mmaps l m) ≡ total m + sum_by (λ e. e.1.0) l
unfolding collect_mmaps
total-collect_mmaps [] m u room = omega arith
total-collect_mmaps ((a, (bytes, owner)) ∷ l) m u room =
    let one = total-add_entry owner bytes m u (omega (arith, room)) in
    omega (
      arith,
      one,
      total-collect_mmaps l (add_entry ℕ_discrete owner bytes m)
          (add_entry-IsUnique ℕ_discrete owner bytes m u) (omega (arith, one, room)),
    )

-- The report adds up to the allocations and what `as_hashmap` has of the mappings.
total-combine_callstacks :
    (t : AllocationTracker)
    → sum_by (λ e. size e.1) t.current_allocations
        + sum_by (λ e. e.1.0) (as_hashmap t.current_anon_mmaps)
      < usize_mod
    → total (combine_callstacks t false).1
      ≡ sum_by (λ e. size e.1) t.current_allocations
        + sum_by (λ e. e.1.0) (as_hashmap t.current_anon_mmaps)
unfolding combine_callstacks
total-combine_callstacks t room =
    let blocks = total-collect_allocations t.current_allocations [] tt (omega (arith, room)) in
    rw (same_allocations t, same_mmaps t)
      (total-collect_mmaps (as_hashmap t.current_anon_mmaps)
          (collect_allocations t.current_allocations [])
          (collect_allocations-IsUnique t.current_allocations [] tt) (omega (arith, blocks, room))
        ∙ omega (arith, blocks))

collect_last :
    (l : List (Range × ℕ)) (r : Range) (v : ℕ) (m : HashMap ℕ (ℕ × ℕ))
    → collect (l ++ (r, v) ∷ []) m ≡ insert ℕ_discrete r.start (range_size r, v) (collect l m)
unfolding collect
collect_last [] r v m = refl
collect_last ((s, w) ∷ l) r v m = collect_last l r v (insert ℕ_discrete s.start (range_size s, w) m)

as_hashmap-add :
    (m m' : RangeMap ℕ) (start n v : ℕ)
    → 0 < n
    → start + n < usize_mod
    → RangeMap.add m start n v ≡ done m'
    → as_hashmap m' ≡ insert ℕ_discrete start (n, v) (as_hashmap m)
unfolding RangeMap.add as_hashmap
as_hashmap-add m m' start n v pos bound ran =
    let range : Range = record { start = start; end = start + n } in
    let same : m.ranges ++ (range, v) ∷ [] ≡ m'.ranges =
      ground (arith, ran, new_range_exact start n pos bound) in
    let long : range_size range ≡ n = range_size_exact range (omega arith) bound ∙ omega arith in
    ap (λ l. collect l []) (sym same)
    ∙ collect_last m.ranges range v []
    ∙ ap (λ k. insert ℕ_discrete start (k, v) (collect m.ranges [])) long

-- When the books are in order, no mappings overlap, a tracked mapping starts at the address, and
-- the new range is not empty and has room, `add_anon_mmap` does not panic and adds its bytes to the
-- bytes in use; the report of the current allocations then lacks exactly the bytes of the old
-- mapping, which stay in use.
pub combine_callstacks_remapped :
    (t : AllocationTracker) (address bytes old id : ℕ) (cs : Callstack)
    → IsAccounted t
    → IsDisjoint t.current_anon_mmaps
    → lookup ℕ_discrete address (as_hashmap t.current_anon_mmaps) ≡ some (old, id)
    → 0 < bytes
    → address + bytes < usize_mod
    → t.interner.max_id + 1 < u32_mod
    → t.current_allocated_bytes + bytes < usize_mod
    → (t' : AllocationTracker) × (add_anon_mmap t address bytes cs ≡ done t')
      × (t'.current_allocated_bytes ≡ t.current_allocated_bytes + bytes)
      × (sum_by (λ e. e.1) (combine_callstacks t' false).1 + old ≡ t'.current_allocated_bytes)
unfolding insert
combine_callstacks_remapped t address bytes old id cs a d there pos bound ids room =
    let (t', ran, b, maps) = add_anon_mmap-Maps t address bytes cs a bound ids room in
    let before =
      sum_by-as_hashmap (λ e. e.1.0) t.current_anon_mmaps a.mmaps d
      ∙ ranges_exact t.current_anon_mmaps.ranges a.mmaps in
    let replaced = ap (sum_by (λ e. e.1.0)) (
      as_hashmap-add t.current_anon_mmaps t'.current_anon_mmaps address bytes maps.id pos bound
        maps.added) in
    let taken =
      sum_by-remove ℕ_discrete (λ e. e.1.0) address (old, id) (as_hashmap t.current_anon_mmaps)
        (as_hashmap-IsUnique t.current_anon_mmaps) there in
    let blocks = ap (sum_by (λ (e : ℕ × Allocation). size e.1)) maps.same_allocations in
    let used = in_use t a in
    (
      t',
      ran,
      maps.total,
      omega (
        arith,
        total-combine_callstacks t' (omega (arith, blocks, replaced, taken, before, used, room)),
        blocks,
        replaced,
        taken,
        before,
        used,
        maps.total,
      ),
    )
  where
    ranges_exact :
        (l : List (Range × ℕ))
        → All (λ e. IsProper e.0) l
        → sum_by (λ e. range_size e.0) l ≡ sum_by (λ e. e.0.end - e.0.start) l
    ranges_exact [] h = refl
    ranges_exact ((r, v) ∷ l) h = ground (arith, range_size_exact r, ranges_exact l h.1)
