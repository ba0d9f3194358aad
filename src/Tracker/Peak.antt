-- ===== src/Tracker/Peak.antt =====
-- `AllocationTracker::check_if_new_peak` of memapi/src/memorytracking.rs.
use filprofiler.Base.{◌≡◌, max, arith}
use filprofiler.Tracker.{AllocationTracker, check_if_new_peak}

module _ (t : AllocationTracker) where
  pub peak_is_max :
      (check_if_new_peak t).peak_allocated_bytes
      ≡ max t.peak_allocated_bytes t.current_allocated_bytes
  unfolding check_if_new_peak
  peak_is_max = ground arith

  pub same_usage : (check_if_new_peak t).current_memory_usage ≡ t.current_memory_usage
  unfolding check_if_new_peak
  same_usage = ground arith

  pub same_total : (check_if_new_peak t).current_allocated_bytes ≡ t.current_allocated_bytes
  unfolding check_if_new_peak
  same_total = ground arith

  pub same_allocations : (check_if_new_peak t).current_allocations ≡ t.current_allocations
  unfolding check_if_new_peak
  same_allocations = ground arith

  pub same_mmaps : (check_if_new_peak t).current_anon_mmaps ≡ t.current_anon_mmaps
  unfolding check_if_new_peak
  same_mmaps = ground arith

  pub same_path : (check_if_new_peak t).default_path ≡ t.default_path
  unfolding check_if_new_peak
  same_path = ground arith

  pub same_interner : (check_if_new_peak t).interner ≡ t.interner
  unfolding check_if_new_peak
  same_interner = ground arith
