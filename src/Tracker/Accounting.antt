-- ===== src/Tracker/Accounting.antt =====
-- The books of `AllocationTracker` (memapi/src/memorytracking.rs): for each callstack, the bytes in
-- use against its live allocations and its mappings.
pub mod Naming
pub mod Allocating
pub mod Overwriting
pub mod Freeing
pub mod Mapping
pub mod Unmapping
use filprofiler.Base.{
  ℕ, List, Bool-cases, inl, inr, ◌+◌, ◌≤◌, ◌<◌, ◌≡◌, ◌==◌, ltb, true, if◌then◌else◌, sum_by, sum,
  All, length, refl, arith, ℕ_discrete,
}
use filprofiler.Word.{usize_mod, u32_mod}
use filprofiler.HashMap.{HashMap, IsUnique}
use filprofiler.RangeMap.Points.{IsWellFormed}
use filprofiler.RangeMap.Bytes.{held_bytes}
use filprofiler.Interner.Numbering.{IsNumbered, new_interner-IsNumbered}
use filprofiler.Allocation.{Allocation, size}
use filprofiler.Tracker.{AllocationTracker, new_tracker, check_if_new_peak}
use filprofiler.Tracker.Slots.{usage_of, IsSummed}

-- The bytes of the live allocations of a callstack.
abbrev pub allocation_bytes : ℕ → HashMap ℕ Allocation → ℕ
allocation_bytes id = sum_by (λ e. if e.1.callstack_id == id then size e.1 else 0)

pub record IsAccounted (t : AllocationTracker) : Type 0 where
  pub numbered : IsNumbered t.interner
  pub slots : length t.current_memory_usage ≡ t.interner.max_id
  pub unique : IsUnique ℕ_discrete t.current_allocations
  pub mmaps : IsWellFormed t.current_anon_mmaps
  pub allocation_ids :
      All (λ e. ltb e.1.callstack_id t.interner.max_id ≡ true) t.current_allocations
  pub mmap_ids : All (λ e. ltb e.1 t.interner.max_id ≡ true) t.current_anon_mmaps.ranges
  pub usage :
      (id : ℕ)
      → usage_of t id
        ≡ allocation_bytes id t.current_allocations
          + held_bytes (λ v. v == id) t.current_anon_mmaps.ranges
  pub summed : IsSummed t
  pub peak_total : t.peak_allocated_bytes ≡ sum t.peak_memory_usage
  pub peak_slots : length t.peak_memory_usage ≤ t.interner.max_id
  pub ids_last : t.interner.max_id < u32_mod

-- A new tracker's books are empty, and in order.
pub new_tracker-IsAccounted : (path : List ℕ) → IsAccounted (new_tracker path)
unfolding new_tracker
new_tracker-IsAccounted path = record {
  numbered = new_interner-IsNumbered;
  slots = refl;
  unique = tt;
  mmaps = tt;
  allocation_ids = tt;
  mmap_ids = tt;
  usage = λ id. omega arith;
  summed = record { total = refl; fits = omega arith };
  peak_total = refl;
  peak_slots = omega arith;
  ids_last = omega arith;
}

pub check_if_new_peak-IsAccounted :
    (t : AllocationTracker) → IsAccounted t → IsAccounted (check_if_new_peak t)
unfolding check_if_new_peak
check_if_new_peak-IsAccounted t a =
    elim (Bool-cases (ltb t.peak_allocated_bytes t.current_allocated_bytes)) [
      | inl e ↦
          rw (e, check_if_new_peak)
            (record {
              numbered = a.numbered;
              slots = a.slots;
              unique = a.unique;
              mmaps = a.mmaps;
              allocation_ids = a.allocation_ids;
              mmap_ids = a.mmap_ids;
              usage = a.usage;
              summed = record { total = a.summed.total; fits = a.summed.fits };
              peak_total = a.summed.total;
              peak_slots = omega (arith, a.slots);
              ids_last = a.ids_last;
            })
      | inr e ↦ rw (e, check_if_new_peak) a
    ]
