-- ===== src/Tracker/History.antt =====
-- Histories of an `AllocationTracker` (memapi/src/memorytracking.rs): any sequence of calls that an
-- allocator can cause, with the high-water mark of the bytes in use, and the usage of each callstack
-- when it was reached.
pub mod HighWater
use filprofiler.Base.{
  ℕ, ◌==◌, ◌≤◌, ◌+◌, ◌<◌, ◌≡◌, max, ltb, if◌then◌else◌, List, lookup, none, Outcome, done,
  ℕ_discrete, arith,
}
use filprofiler.Word.{usize_mod, u32_mod}
use filprofiler.RangeMap.Removal.{remove-Removes}
use filprofiler.RangeMap.Disjoint.{IsDisjoint, IsFree, add-IsDisjoint}
use filprofiler.Callstack.{Callstack}
use filprofiler.Allocation.Rounding.{tracked}
use filprofiler.Tracker.{
  AllocationTracker, new_tracker, add_allocation, free_allocation, add_anon_mmap, free_anon_mmap,
  check_if_new_peak,
}
use filprofiler.Tracker.Slots.{usage_of}
use filprofiler.Tracker.Accounting.{IsAccounted, new_tracker-IsAccounted}
use filprofiler.Tracker.Accounting.Allocating.{Allocates, add_allocation-Allocates}
use filprofiler.Tracker.Accounting.Freeing.{Frees, free_allocation-Frees}
use filprofiler.Tracker.Accounting.Mapping.{Maps, add_anon_mmap-Maps}
use filprofiler.Tracker.Accounting.Unmapping.{Unmaps, free_anon_mmap-Unmaps}

-- A call of one of the tracker's four methods: address, bytes, callstack.
pub data Call : Type 0 where
  allocates maps : ℕ → ℕ → Callstack → Call
  frees : ℕ → Call
  unmaps : ℕ → ℕ → Call

unfoldable pub step : Call → AllocationTracker → Outcome AllocationTracker
step (allocates address bytes cs) t = add_allocation t address bytes cs
step (maps address bytes cs) t = add_anon_mmap t address bytes cs
step (frees address) t = free_allocation t address
step (unmaps address bytes) t = free_anon_mmap t address bytes

-- What an allocator guarantees: it does not hand out what is in use, and what it hands out lies in
-- the address space. The callstack ids must last.
abbrev pub IsAdmissible : AllocationTracker → Call → Type 0
IsAdmissible t (allocates address bytes cs) =
    (lookup ℕ_discrete address t.current_allocations ≡ none)
    × (t.interner.max_id + 1 < u32_mod)
    × (t.current_allocated_bytes + tracked 0 bytes < usize_mod)
IsAdmissible t (maps address bytes cs) =
    IsFree t.current_anon_mmaps address bytes
    × (address + bytes < usize_mod)
    × (t.interner.max_id + 1 < u32_mod)
    × (t.current_allocated_bytes + bytes < usize_mod)
IsAdmissible t (frees address) = Unit {0}
IsAdmissible t (unmaps address bytes) = address + bytes < usize_mod

-- The books are in order, and no mappings overlap.
pub record IsSound (t : AllocationTracker) : Type 0 where
  pub accounted : IsAccounted t
  pub disjoint : IsDisjoint t.current_anon_mmaps

-- What each call leaves is sound.
module _ (t t' : AllocationTracker) (s : IsSound t) (a : IsAccounted t') where
  pub Allocates-IsSound :
      (address bytes : ℕ) (cs : Callstack) → Allocates t address bytes cs t' → IsSound t'
  Allocates-IsSound address bytes cs e = record {
    accounted = a;
    disjoint = rw e.same_mmaps s.disjoint;
  }

  pub Maps-IsSound :
      (address bytes : ℕ) (cs : Callstack)
      → IsFree t.current_anon_mmaps address bytes
      → Maps t address bytes cs t'
      → IsSound t'
  Maps-IsSound address bytes cs free e = record {
    accounted = a;
    disjoint =
        add-IsDisjoint t.current_anon_mmaps t'.current_anon_mmaps address bytes e.id free e.points
          s.disjoint;
  }

  pub Frees-IsSound : (address : ℕ) → Frees t address t' → IsSound t'
  Frees-IsSound address e = record { accounted = a; disjoint = rw e.same_mmaps s.disjoint }

  pub Unmaps-IsSound : (address bytes : ℕ) → Unmaps t address bytes t' → IsSound t'
  Unmaps-IsSound address bytes e = record {
    accounted = a;
    disjoint = λ x. ground (arith, e.points x, s.disjoint x);
  }

-- A tracker that admissible calls have made of a new one.
pub data History : AllocationTracker → ℕ → (ℕ → ℕ) → Type 0 where
  start : (path : List ℕ) → History (new_tracker path) 0 (λ id. 0)
  next :
      {t t' : AllocationTracker} {high : ℕ} {usage : ℕ → ℕ}
      → History t high usage
      → (c : Call) → IsAdmissible t c
      → step c t ≡ done t'
      → History t'
          (max high t'.current_allocated_bytes)
          (λ id. if ltb high t'.current_allocated_bytes then usage_of t' id else usage id)

-- How a call moves the sums: it charges one callstack, or it checks the peak and takes away.
pub data Moves (t t' : AllocationTracker) : Type 0 where
  up :
      (id bytes : ℕ)
      → ((id' : ℕ) → usage_of t' id' ≡ usage_of t id' + (if id == id' then bytes else 0))
      → t'.current_allocated_bytes ≡ t.current_allocated_bytes + bytes
      → t'.peak_allocated_bytes ≡ t.peak_allocated_bytes
      → t'.peak_memory_usage ≡ t.peak_memory_usage
      → Moves t t'
  down :
      t'.current_allocated_bytes ≤ t.current_allocated_bytes
      → t'.peak_allocated_bytes ≡ max t.peak_allocated_bytes t.current_allocated_bytes
      → t'.peak_memory_usage ≡ (check_if_new_peak t).peak_memory_usage
      → Moves t t'

-- On a sound tracker every admissible call returns and leaves a sound tracker, and either charges
-- some bytes to one callstack and to the total without touching the recorded peak, or does not
-- raise the total and first raises the recorded peak to the bytes in use.
pub step-Moves :
    (t : AllocationTracker) (c : Call)
    → IsSound t
    → IsAdmissible t c
    → (t' : AllocationTracker) × (step c t ≡ done t') × IsSound t' × Moves t t'
unfolding step
step-Moves t (allocates address bytes cs) s (fresh, ids, room) =
    let (t', ran, a, e) = add_allocation-Allocates t address bytes cs s.accounted fresh ids room in
    (
      t',
      ran,
      Allocates-IsSound t t' s a address bytes cs e,
      up e.id (tracked e.id bytes) e.charged e.total e.same_peak e.same_peak_usage,
    )
step-Moves t (maps address bytes cs) s (free, bound, ids, room) =
    let (t', ran, a, e) = add_anon_mmap-Maps t address bytes cs s.accounted bound ids room in
    (
      t',
      ran,
      Maps-IsSound t t' s a address bytes cs free e,
      up e.id bytes e.charged e.total e.same_peak e.same_peak_usage,
    )
step-Moves t (frees address) s _ =
    let (t', ran, a, e) = free_allocation-Frees t address s.accounted in
    (t', ran, Frees-IsSound t t' s a address e, down (omega (arith, e.total)) e.peak e.peak_usage)
step-Moves t (unmaps address bytes) s bound =
    let (t', ran, a, e) = free_anon_mmap-Unmaps t address bytes s.accounted bound in
    (t', ran, Unmaps-IsSound t t' s a address bytes e, down e.no_more e.peak e.peak_usage)
