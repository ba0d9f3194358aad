-- ===== src/PropertyTests/Unmapping.antt =====
-- The second loop of `current_allocated_anon_maps_matches_sum_of_allocations` of
-- memapi/src/memorytracking.rs, and the test as a whole.
use filprofiler.Base.{
  ℕ, zero, suc, ◌+◌, ◌<◌, ◌≡◌, ◌≢◌, ◌==◌, if◌then◌else◌, max, set, true, List, [], ◌∷◌, length,
  length-set, get_or, get_elem?-get_or, sum, All, done, refl, ◌∙◌, arith, ◌*◌, Bool,
}
use filprofiler.Word.{usize_mod, u32_mod, sub_usize, sub_usize_exact, mul_usize, mul_usize_exact}
use filprofiler.Text.{text}
use filprofiler.Tracker.{AllocationTracker, new_tracker, free_anon_mmap}
use filprofiler.Tracker.Slots.{usage_of}
use filprofiler.Tracker.Accounting.{IsAccounted}
use filprofiler.PropertyTests.{
  free_mappings, current_allocated_anon_maps_matches_sum_of_allocations,
}
use filprofiler.RangeMap.Points.{within, values_at}
use filprofiler.RangeMap.Bytes.{sum_range, count_if}
use filprofiler.Tracker.Accounting.Unmapping.{Unmaps, free_anon_mmap-Unmaps}
use filprofiler.PropertyTests.Freeing.{
  is_same_of, sum_usize_exact, AreIndices, usage_credited, after, after_same,
}
use filprofiler.PropertyTests.Mapping.{
  IsMapped, Mapped, Mapped-total, new_tracker-Mapped, add_mappings-Mapped, get_or-narrow,
}

-- A sum that counts each address or none.
sum_range_all :
    (f : ℕ → ℕ) (b : Bool) (start n : ℕ)
    → ((a : ℕ) → within start n a ≡ true → f a ≡ (if b then 1 else 0))
    → sum_range f start n ≡ (if b then n else 0)
sum_range_all f b start zero h = ground arith
sum_range_all f b start (suc n) h = ground (
  arith,
  h start (ground arith),
  sum_range_all f b (suc start) n (λ a w. h a (ground (arith, w))),
)

-- The mappings with these indices are still there.
abbrev AreMapped : List ℕ → AllocationTracker → List ℕ → Type 0
AreMapped sizes t = All (IsMapped sizes t)

-- What is expected of the tracker when the mappings of `is` are still to be removed.
record IsExpected (sizes is : List ℕ) (t : AllocationTracker) (bytes : ℕ) (usage : List ℕ)
    (highest : ℕ) : Type 0 where
  accounted : IsAccounted t
  stored : AreMapped sizes t is
  same_total : t.current_allocated_bytes ≡ bytes
  same_usage : t.current_memory_usage ≡ usage
  same_length : length usage ≡ length sizes
  same_peak : max t.peak_allocated_bytes t.current_allocated_bytes ≡ highest

module _ (sizes : List ℕ) (narrow : All (λ s. s < 10000) sizes) where
  mapped_after :
      (t t' : AllocationTracker) (i : ℕ) (is : List ℕ)
      → Unmaps t (i * 10000) (get_or sizes i 0) t'
      → All (λ j. j ≢ i) is
      → AreMapped sizes t is
      → AreMapped sizes t' is
  mapped_after t t' i [] e ne h = tt
  mapped_after t t' i (j ∷ is) e ne h = (
    λ a w. ground (
      arith,
      e.points a,
      h.0 a w,
      w,
      ne.0,
      get_or-narrow sizes i narrow,
      get_or-narrow sizes j narrow,
    ),
    mapped_after t t' i is e ne.1 h.1,
  )

  -- One round of the loop.
  removed_mapping :
      (i : ℕ) (is : List ℕ) (t : AllocationTracker) (bytes : ℕ) (usage : List ℕ) (highest : ℕ)
      → length sizes < u32_mod
      → AreIndices (length sizes) (i ∷ is)
      → IsExpected sizes (i ∷ is) t bytes usage highest
      → let s = get_or sizes i 0 in
        let u = set usage i (sub_usize (get_or usage i 0) s) in
        (t' : AllocationTracker) × (free_anon_mmap t (mul_usize i 10000) s ≡ done t')
        × IsExpected sizes is t' (sub_usize bytes s) u highest
        × (t'.peak_allocated_bytes ≡ highest)
  removed_mapping i is t bytes usage highest ids (valid, ne, later) x =
      let s = get_or sizes i 0 in
      let short = get_or-narrow sizes i narrow in
      let (t', ran, a', e) =
        free_anon_mmap-Unmaps t (i * 10000) s x.accounted (omega (arith, short, valid)) in
      let there = x.stored.0 in
      let credited : (k : ℕ) → usage_of t' k + (if i == k then s else 0) ≡ usage_of t k = λ k.
        omega (
          arith,
          e.credited k,
          sum_range_all (λ a. count_if (λ v. v == k) (values_at a t.current_anon_mmaps.ranges))
              (i == k) (i * 10000) s (λ a w. ground (arith, there a w)),
        ) in
      let total : t'.current_allocated_bytes + s ≡ t.current_allocated_bytes = omega (
        arith,
        e.credited_total,
        sum_range_all (λ a. count_if (λ _. true) (values_at a t.current_anon_mmaps.ranges)) true
            (i * 10000) s (λ a w. ground (arith, there a w)),
      ) in
      let fits = x.accounted.summed.fits in
      (
        t',
        rw (mul_usize_exact i 10000 (omega (arith, valid))) ran,
        record {
          accounted = a';
          stored = mapped_after t t' i is e ne x.stored.1;
          same_total = omega (
            arith,
            total,
            x.same_total,
            sub_usize_exact bytes s (omega (arith, total, x.same_total))
                (omega (arith, x.same_total, fits)),
          );
          same_usage =
              usage_credited t t' i s usage x.accounted a' e.same_interner x.same_usage
                (omega (arith, valid, x.same_length)) credited;
          same_length = length-set usage i _ ∙ x.same_length;
          same_peak = omega (arith, e.peak, x.same_peak, total);
        },
        e.peak ∙ x.same_peak,
      )

  free_mappings-returns :
      (is : List ℕ) (t : AllocationTracker) (bytes : ℕ) (usage : List ℕ) (highest : ℕ)
      → length sizes < u32_mod
      → AreIndices (length sizes) is
      → IsExpected sizes is t bytes usage highest
      → (t' : AllocationTracker) × (free_mappings sizes is bytes usage t ≡ done t')
        × (t'.peak_allocated_bytes ≡ after is t.peak_allocated_bytes highest)
  unfolding free_mappings
  free_mappings-returns [] t bytes usage highest ids valid x = (t, refl, refl)
  free_mappings-returns (i ∷ is) t bytes usage highest ids valid x =
      let s = get_or sizes i 0 in
      let u = set usage i (sub_usize (get_or usage i 0) s) in
      let (t1, ran, x1, peak) = removed_mapping i is t bytes usage highest ids valid x in
      let (t', rest, end) =
        free_mappings-returns is t1 (sub_usize bytes s) u highest ids valid.2 x1 in
      let known = get_elem?-get_or sizes i 0 valid.0 in
      let expected = get_elem?-get_or usage i 0 (omega (arith, valid.0, x.same_length)) in
      let total : (t1.current_allocated_bytes == sub_usize bytes s) ≡ true =
        ground (arith, x1.same_total) in
      (
        t',
        rw (known, ran, expected, total, is_same_of _ u x1.same_usage) rest,
        end ∙ after_same is t1.peak_allocated_bytes highest peak,
      )

  Mapped-AreMapped :
      (t : AllocationTracker) (is : List ℕ)
      → Mapped sizes t
      → AreIndices (length sizes) is
      → AreMapped sizes t is
  Mapped-AreMapped t [] a h = tt
  Mapped-AreMapped t (i ∷ is) a h = (a.stored i h.0, Mapped-AreMapped t is a h.2)

  -- The property test `current_allocated_anon_maps_matches_sum_of_allocations` passes for all sizes
  -- below 10000, fewer than 2 ^ 32 of them and with a sum below 2 ^ 64, and for all indices of
  -- mappings to remove, at least one, in range and each different from the others: after the
  -- mappings are added, and after each that is removed, the usage by callstack and the total are
  -- what the sizes make of them, and the peak is the sum of the sizes.
  pub current_allocated_anon_maps_passes :
      (i : ℕ) (is : List ℕ)
      → length sizes < u32_mod
      → sum sizes < usize_mod
      → AreIndices (length sizes) (i ∷ is)
      → current_allocated_anon_maps_matches_sum_of_allocations sizes (i ∷ is) ≡ done tt
  unfolding current_allocated_anon_maps_matches_sum_of_allocations
  current_allocated_anon_maps_passes i is ids room valid =
      let (t, ran, a) =
        add_mappings-Mapped [] sizes (new_tracker (text ".")) (new_tracker-Mapped (text ".")) tt
          narrow (omega arith) (omega arith) in
      let same = sum_usize_exact sizes room in
      let total = Mapped-total sizes t a in
      let (t', freed, peak) =
        free_mappings-returns (i ∷ is) t (sum sizes) sizes (sum sizes) ids valid (record {
          accounted = a.accounted;
          stored = Mapped-AreMapped t (i ∷ is) a valid;
          same_total = total;
          same_usage = a.usage;
          same_length = refl;
          same_peak = omega (arith, a.no_peak, total);
        }) in
      let as_summed : (t.current_allocated_bytes == sum sizes) ≡ true = ground (arith, total) in
      let at_peak : (t'.peak_allocated_bytes == sum sizes) ≡ true = ground (arith, peak) in
      rw (ran, same, as_summed, is_same_of _ sizes a.usage, freed, at_peak) refl
