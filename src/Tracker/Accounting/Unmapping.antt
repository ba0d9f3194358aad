-- ===== src/Tracker/Accounting/Unmapping.antt =====
-- `AllocationTracker::free_anon_mmap` of memapi/src/memorytracking.rs and the books.
use filprofiler.Base.{
  ℕ, ◌+◌, ◌≤◌, ◌<◌, ◌≡◌, ◌==◌, max, ltb, true, if◌then◌else◌, List, [], get_or, All, length, refl,
  ap, ◌∙◌, arith, done,
}
use filprofiler.Word.{usize_mod}
use filprofiler.RangeMap.{RangeMap}
use filprofiler.RangeMap.Points.{within, values_at}
use filprofiler.RangeMap.Bytes.{sum_range, count_if, removed_bytes}
use filprofiler.RangeMap.Removal.{Removes, remove-Removes}
use filprofiler.Tracker.{AllocationTracker, free_anon_mmap, check_if_new_peak}
use filprofiler.Tracker.Peak.{
  peak_is_max, same_usage, same_total, same_allocations, same_mmaps, same_interner, same_path,
}
use filprofiler.Tracker.Slots.{usage_of, with_sums, Settles, remove_each-Settles}
use filprofiler.Tracker.Accounting.{IsAccounted, check_if_new_peak-IsAccounted}

-- What `free_anon_mmap` promises beside the books being in order.
pub record Unmaps (t : AllocationTracker) (address bytes : ℕ) (t' : AllocationTracker)
    : Type 0 where
  pub points :
      (a : ℕ)
      → values_at a t'.current_anon_mmaps.ranges
        ≡ (if within address bytes a then [] else values_at a t.current_anon_mmaps.ranges)
  -- each callstack is credited once for every address that it held
  pub credited :
      (id : ℕ)
      → usage_of t' id
          + sum_range
              (λ a. count_if (λ v. v == id) (values_at a t.current_anon_mmaps.ranges))
              address
              bytes
        ≡ usage_of t id
  pub no_more : t'.current_allocated_bytes ≤ t.current_allocated_bytes
  pub peak : t'.peak_allocated_bytes ≡ max t.peak_allocated_bytes t.current_allocated_bytes
  pub peak_usage : t'.peak_memory_usage ≡ (check_if_new_peak t).peak_memory_usage
  pub same_allocations : t'.current_allocations ≡ t.current_allocations
  pub credited_total :
      t'.current_allocated_bytes
        + sum_range
            (λ a. count_if (λ _. true) (values_at a t.current_anon_mmaps.ranges))
            address
            bytes
      ≡ t.current_allocated_bytes
  pub same_interner : t'.interner ≡ t.interner
  pub same_path : t'.default_path ≡ t.default_path

-- The part after the check for a peak, where `u` is the checked tracker.
module _ (u : AllocationTracker) (address bytes : ℕ) (a : IsAccounted u) (m : RangeMap ℕ)
    (gone : List (ℕ × ℕ)) (r : Removes u.current_anon_mmaps address bytes (m, gone)) where
  gone_valid : All (λ e. ltb e.0 (length u.current_memory_usage) ≡ true) gone
  gone_valid = rw a.slots ((r.named (λ v. ltb v u.interner.max_id) a.mmap_ids).1)

  gone_covered : (id : ℕ) → removed_bytes (λ v. v == id) gone ≤ usage_of u id
  gone_covered id = omega (arith, a.usage id, r.conserved (λ v. v == id))

  unmapped-IsAccounted :
      (usage : List ℕ) (total : ℕ)
      → Settles (record u { current_anon_mmaps = m }) gone usage total
      → IsAccounted (with_sums (record u { current_anon_mmaps = m }) usage total)
  unmapped-IsAccounted usage total s = record {
    numbered = a.numbered;
    slots = s.same_length ∙ a.slots;
    unique = a.unique;
    mmaps = r.valid;
    allocation_ids = a.allocation_ids;
    mmap_ids = (r.named (λ v. ltb v u.interner.max_id) a.mmap_ids).0;
    usage = λ id. omega (arith, s.settled id, a.usage id, r.conserved (λ v. v == id));
    summed = record { total = s.summed.total; fits = s.summed.fits };
    peak_total = a.peak_total;
    peak_slots = a.peak_slots;
    ids_last = a.ids_last;
  }

-- When the books are in order and the range is within the word size, `free_anon_mmap` of parts of
-- mappings, of several or of none does not panic and keeps the books in order: the addresses of the
-- range are free, all others hold what they held, each callstack is credited with one byte for each
-- address of the range that it held, and the peak is raised first to the bytes that were in use.
pub free_anon_mmap-Unmaps :
    (t : AllocationTracker) (address bytes : ℕ)
    → IsAccounted t
    → address + bytes < usize_mod
    → (t' : AllocationTracker) × (free_anon_mmap t address bytes ≡ done t')
      × IsAccounted t'
      × Unmaps t address bytes t'
unfolding free_anon_mmap
free_anon_mmap-Unmaps t address bytes a bound =
    let u = check_if_new_peak t in
    let b = check_if_new_peak-IsAccounted t a in
    let ((m, gone), removed, r) = remove-Removes u.current_anon_mmaps address bytes b.mmaps bound in
    let (usage, total, s) =
      remove_each-Settles (record u { current_anon_mmaps = m }) gone
        (record { total = b.summed.total; fits = b.summed.fits })
        (gone_valid u address bytes b m gone r) (gone_covered u address bytes b m gone r) in
    (
      with_sums (record u { current_anon_mmaps = m }) usage total,
      rw removed s.ran,
      unmapped-IsAccounted u address bytes b m gone r usage total s,
      record {
        points = λ x.
            r.points x
            ∙ ap (λ (w : RangeMap ℕ). if within address bytes x then [] else values_at x w.ranges)
                (same_mmaps t);
        credited = λ id. omega (
          arith,
          s.settled id,
          r.reported (λ v. v == id),
          ap (λ (l : List ℕ). get_or l id 0) (same_usage t),
          ap
              (λ (w : RangeMap ℕ).
                sum_range (λ x. count_if (λ v. v == id) (values_at x w.ranges)) address bytes)
              (same_mmaps t),
        );
        no_more = omega (arith, s.no_more, same_total t);
        peak = peak_is_max t;
        peak_usage = refl;
        same_allocations = same_allocations t;
        credited_total = omega (
          arith,
          s.taken,
          r.reported (λ _. true),
          same_total t,
          ap
              (λ (w : RangeMap ℕ).
                sum_range (λ x. count_if (λ _. true) (values_at x w.ranges)) address bytes)
              (same_mmaps t),
        );
        same_interner = same_interner t;
        same_path = same_path t;
      },
    )
