-- ===== src/Report/Total.antt =====
-- The sum over the report of the current allocations (memapi/src/memorytracking.rs).
use filprofiler.Base.{
  ℕ, zero, suc, ◌+◌, ◌≡◌, ◌==◌, ltb, ltb→lt, leb, ◌&&◌, false, if◌then◌else◌, List, [], ◌∷◌, lookup,
  sum, sum_by, length, get_or, refl, sym, ap, ◌∙◌, arith, ℕ_discrete,
}
use filprofiler.HashMap.{add_entry-IsUnique, HashMap, IsUnique, amount}
use filprofiler.RangeMap.{as_hashmap}
use filprofiler.RangeMap.Bytes.{sum_range, sum_range-congr, sum_range-zero}
use filprofiler.RangeMap.Disjoint.{IsDisjoint}
use filprofiler.Allocation.{Allocation, size}
use filprofiler.Tracker.{AllocationTracker, check_if_new_peak}
use filprofiler.Tracker.Slots.{usage_of}
use filprofiler.Tracker.Accounting.{IsAccounted, check_if_new_peak-IsAccounted}
use filprofiler.Tracker.Peak.{same_usage}
use filprofiler.Report.{collect_allocations, collect_mmaps, combine_callstacks}
use filprofiler.Report.Names.{KeysBelow, combine_callstacks-KeysBelow}
use filprofiler.Report.Current.{combine_callstacks_current}

pub collect_allocations-IsUnique :
    (l : HashMap ℕ Allocation) (m : HashMap ℕ ℕ)
    → IsUnique ℕ_discrete m
    → IsUnique ℕ_discrete (collect_allocations l m)
unfolding collect_allocations
collect_allocations-IsUnique [] m u = u
collect_allocations-IsUnique ((a, alloc) ∷ l) m u =
    collect_allocations-IsUnique l _
      (add_entry-IsUnique ℕ_discrete alloc.callstack_id (size alloc) m u)

collect_mmaps-IsUnique :
    (l : HashMap ℕ (ℕ × ℕ)) (m : HashMap ℕ ℕ)
    → IsUnique ℕ_discrete m
    → IsUnique ℕ_discrete (collect_mmaps l m)
unfolding collect_mmaps
collect_mmaps-IsUnique [] m u = u
collect_mmaps-IsUnique ((a, (bytes, owner)) ∷ l) m u =
    collect_mmaps-IsUnique l _ (add_entry-IsUnique ℕ_discrete owner bytes m u)

-- A function changed at one place of the range.
pub sum_range-change :
    (f g : ℕ → ℕ) (k v start n : ℕ)
    → ((id : ℕ) → f id ≡ g id + (if id == k then v else 0))
    → sum_range f start n
      ≡ sum_range g start n + (if leb start k && ltb k (start + n) then v else 0)
sum_range-change f g k v start zero h = ground arith
sum_range-change f g k v start (suc n) h =
    ground (arith, h start, sum_range-change f g k v (suc start) n h)

-- A map whose keys are below `n`, summed by its keys.
sum_by-amount :
    (n : ℕ) (m : HashMap ℕ ℕ)
    → IsUnique ℕ_discrete m
    → KeysBelow n m
    → sum_by (λ e. e.1) m ≡ sum_range (λ id. amount ℕ_discrete id m) 0 n
unfolding lookup
sum_by-amount n [] u b = sym (sum_range-zero 0 n)
sum_by-amount n ((k, v) ∷ m) u b = omega (arith, sum_by-amount n m u.1 b.1, ltb→lt k n b.0, added)
  where
    added :
        sum_range (λ id. amount ℕ_discrete id ((k, v) ∷ m)) 0 n
        ≡ sum_range (λ id. amount ℕ_discrete id m) 0 n + v
    added =
        sum_range-change (λ id. amount ℕ_discrete id ((k, v) ∷ m)) (λ id. amount ℕ_discrete id m) k
          v 0 n
          (λ id. elim (ℕ_discrete id k) [
            | yes p ↦ ground (arith, p, u.0)
            | no p ↦ ground (arith, p)
          ])
        ∙ ground (arith, b.0)

sum_range-suc :
    (f : ℕ → ℕ) (start n : ℕ) → sum_range f (suc start) n ≡ sum_range (λ a. f (suc a)) start n
sum_range-suc f start zero = refl
sum_range-suc f start (suc n) = omega (arith, sum_range-suc f (suc start) n)

pub sum-get_or : (l : List ℕ) → sum l ≡ sum_range (λ id. get_or l id 0) 0 (length l)
sum-get_or [] = refl
sum-get_or (x ∷ l) =
    omega (arith, sum-get_or l, sum_range-suc (λ id. get_or (x ∷ l) id 0) 0 (length l))

-- When the books are in order and no mappings overlap, the sizes in the report of the current
-- allocations add up to the bytes in use, whatever the recorded peak.
pub combine_callstacks_current_total :
    (t : AllocationTracker)
    → IsAccounted t
    → IsDisjoint t.current_anon_mmaps
    → sum_by (λ e. e.1) (combine_callstacks t false).1 ≡ t.current_allocated_bytes
unfolding combine_callstacks
combine_callstacks_current_total t a d =
    let u = check_if_new_peak t in
    let unique =
      collect_mmaps-IsUnique (as_hashmap u.current_anon_mmaps) _
        (collect_allocations-IsUnique u.current_allocations [] tt) in
    let c = check_if_new_peak-IsAccounted t a in
    sum_by-amount u.interner.max_id _ unique (combine_callstacks-KeysBelow t false a)
    ∙ sum_range-congr _ (usage_of t) 0 u.interner.max_id
        (λ id _. combine_callstacks_current t id a d)
    ∙ ap (sum_range (usage_of t) 0) (sym c.slots ∙ ap length (same_usage t))
    ∙ sym (sum-get_or t.current_memory_usage)
    ∙ sym a.summed.total
