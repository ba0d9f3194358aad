-- ===== src/Report/Names.antt =====
-- The callstack ids in the reports of memapi/src/memorytracking.rs.
use filprofiler.Base.{
  ℕ, suc, ◌+◌, ◌≤◌, ◌<◌, ◌≡◌, ltb, lt→ltb, Bool, true, false, List, [], ◌∷◌, lookup, All, length,
  arith, Option-cases, Bool-cases, inl, inr, ℕ_discrete,
}
use filprofiler.Word.{u32_mod, as_u32}
use filprofiler.HashMap.{HashMap, insert, remove-All, add_entry}
use filprofiler.RangeMap.{Range, RangeMap, collect, as_hashmap}
use filprofiler.Allocation.{Allocation, size}
use filprofiler.Tracker.{AllocationTracker, check_if_new_peak}
use filprofiler.Tracker.Accounting.{IsAccounted, check_if_new_peak-IsAccounted}
use filprofiler.Report.{collect_peak, collect_allocations, collect_mmaps, combine_callstacks}

-- Every key is below `n`.
abbrev pub KeysBelow : ℕ → HashMap ℕ ℕ → Type 0
KeysBelow n = All (λ e. ltb e.0 n ≡ true)

module _ (n : ℕ) where
  insert-KeysBelow :
      (k v : ℕ) (m : HashMap ℕ ℕ)
      → ltb k n ≡ true
      → KeysBelow n m
      → KeysBelow n (insert ℕ_discrete k v m)
  unfolding insert
  insert-KeysBelow k v m b h = (b, remove-All ℕ_discrete _ k m h)

  add_entry-KeysBelow :
      (k v : ℕ) (m : HashMap ℕ ℕ)
      → ltb k n ≡ true
      → KeysBelow n m
      → KeysBelow n (add_entry ℕ_discrete k v m)
  unfolding add_entry
  add_entry-KeysBelow k v m b h = elim (Option-cases (lookup ℕ_discrete k m)) [
    | inl e ↦ rw (e, add_entry) (insert-KeysBelow k _ m b h)
    | inr (old, e) ↦ rw (e, add_entry) (insert-KeysBelow k _ m b h)
  ]

  collect_peak-KeysBelow :
      (i : ℕ) (l : List ℕ) (m : HashMap ℕ ℕ)
      → i + length l ≤ n
      → n < u32_mod
      → KeysBelow n m
      → KeysBelow n (collect_peak i l m)
  unfolding collect_peak
  collect_peak-KeysBelow i [] m le fits h = h
  collect_peak-KeysBelow i (bytes ∷ l) m le fits h =
      collect_peak-KeysBelow (suc i) l _ (omega arith) fits (elim (Bool-cases (ltb 0 bytes)) [
        | inl e ↦ rw e (insert-KeysBelow (as_u32 i) bytes m (lt→ltb _ _ (omega arith)) h)
        | inr e ↦ rw e h
      ])

  collect_allocations-KeysBelow :
      (l : HashMap ℕ Allocation) (m : HashMap ℕ ℕ)
      → All (λ e. ltb e.1.callstack_id n ≡ true) l
      → KeysBelow n m
      → KeysBelow n (collect_allocations l m)
  unfolding collect_allocations
  collect_allocations-KeysBelow [] m b h = h
  collect_allocations-KeysBelow ((a, alloc) ∷ l) m b h =
      collect_allocations-KeysBelow l _ b.1
        (add_entry-KeysBelow alloc.callstack_id (size alloc) m b.0 h)

  collect_mmaps-KeysBelow :
      (l : HashMap ℕ (ℕ × ℕ)) (m : HashMap ℕ ℕ)
      → All (λ e. ltb e.1.1 n ≡ true) l
      → KeysBelow n m
      → KeysBelow n (collect_mmaps l m)
  unfolding collect_mmaps
  collect_mmaps-KeysBelow [] m b h = h
  collect_mmaps-KeysBelow ((a, (bytes, owner)) ∷ l) m b h =
      collect_mmaps-KeysBelow l _ b.1 (add_entry-KeysBelow owner bytes m b.0 h)

  collect-All :
      (l : List (Range × ℕ)) (acc : HashMap ℕ (ℕ × ℕ))
      → All (λ e. ltb e.1 n ≡ true) l
      → All (λ e. ltb e.1.1 n ≡ true) acc
      → All (λ e. ltb e.1.1 n ≡ true) (collect l acc)
  unfolding collect insert
  collect-All [] acc b h = h
  collect-All ((r, v) ∷ l) acc b h =
      collect-All l _ b.1 (b.0, remove-All ℕ_discrete _ r.start acc h)

  pub as_hashmap-All :
      (m : RangeMap ℕ)
      → All (λ e. ltb e.1 n ≡ true) m.ranges
      → All (λ e. ltb e.1.1 n ≡ true) (as_hashmap m)
  unfolding as_hashmap
  as_hashmap-All m b = collect-All m.ranges [] b tt

pub combine_callstacks-KeysBelow :
    (t : AllocationTracker) (peak : Bool)
    → IsAccounted t
    → KeysBelow (check_if_new_peak t).interner.max_id (combine_callstacks t peak).1
unfolding combine_callstacks
combine_callstacks-KeysBelow t true a =
    let c = check_if_new_peak-IsAccounted t a in
    collect_peak-KeysBelow _ 0 (check_if_new_peak t).peak_memory_usage []
      (omega (arith, c.peak_slots)) c.ids_last tt
combine_callstacks-KeysBelow t false a =
    let c = check_if_new_peak-IsAccounted t a in
    collect_mmaps-KeysBelow _ _ _ (as_hashmap-All _ _ c.mmap_ids)
      (collect_allocations-KeysBelow _ _ [] c.allocation_ids tt)
