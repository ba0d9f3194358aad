-- ===== src/PropertyTests/Sizes.antt =====
-- `correct_allocation_size_tracked` of memapi/src/memorytracking.rs, whatever the size.
use native.Mathlib.Decide.{dec_lt}
use filprofiler.Word
use filprofiler.Base.{
  ℕ, ◌+◌, ◌*◌, ◌^◌, ◌≤◌, ◌<◌, ◌≡◌, ltb, leb, true, false, List, [], ◌∷◌, lookup, some, done, refl,
  arith, ℕ_discrete, lt→ltb,
}
use filprofiler.Word.{
  usize_mod, mul_usize, add_usize, sub_usize, add_usize_exact, sub_usize_exact, mul_usize_exact,
}
use filprofiler.HashMap
use filprofiler.Text.{text}
use filprofiler.Callstack.{Callstack-discrete, new_callstack}
use filprofiler.Interner
use filprofiler.Interner.{CallstackInterner}
use filprofiler.RangeMap
use filprofiler.RangeMap.{RangeMap}
use filprofiler.Allocation.{Allocation, new_allocation, high_32bit}
use filprofiler.Allocation.Rounding.{
  tracked, tracked-le, size-new_allocation_small, size-new_allocation_large,
}
use filprofiler.Tracker
use filprofiler.Tracker.{
  AllocationTracker, new_tracker, add_allocation, free_allocation, add_anon_mmap, free_anon_mmap,
  check_if_new_peak,
}
use filprofiler.PropertyTests.{small_allocation, large_allocation, correct_allocation_size_tracked}

-- The test of small sizes passes for all of them.
small_allocation_passes : (size : ℕ) → size < high_32bit → small_allocation size ≡ done tt
unfolding small_allocation
small_allocation_passes size h = ground (arith, size-new_allocation_small 0 size h)

-- The test of large sizes passes for all of them.
large_allocation_passes :
    (size : ℕ) → high_32bit ≤ size → size < 2 ^ 50 → large_allocation size ≡ done tt
unfolding large_allocation
large_allocation_passes size h bound =
    let (above, below, _) = size-new_allocation_large 0 size h (omega arith) in
    let result = tracked 0 size in
    elim (dec_lt size result) [
      | yes p ↦
          ground (arith, sub_usize_exact result size (omega arith) (omega (arith, above)), above, p)
      | no p ↦
          ground (arith, sub_usize_exact size result (omega (arith, p)) (omega arith), below, p)
    ]

-- The tracker between two steps of the test.
between : List (ℕ × Allocation) → RangeMap ℕ → ℕ → ℕ → List ℕ → AllocationTracker
between blocks pages bytes peak at_peak = record {
  current_allocations = blocks;
  current_anon_mmaps = pages;
  interner = record { max_id = 1; callstack_to_id = (new_callstack, 0) ∷ [] };
  current_memory_usage = bytes ∷ [];
  peak_memory_usage = at_peak;
  current_allocated_bytes = bytes;
  peak_allocated_bytes = peak;
  spare_memory = 16777216;
  default_path = text ".";
}

module _ (s : ℕ) (positive : 0 < s) (bound : s < 2 ^ 50) where
  abbrev block : List (ℕ × Allocation)
  block = (0, new_allocation 0 s) ∷ []

  abbrev pages : RangeMap ℕ
  pages = record { ranges = (record { start = 1; end = 1 + s * 2 }, 0) ∷ [] }

  small : tracked 0 s + s * 2 < usize_mod
  small = omega (arith, tracked-le 0 s (omega arith))

  first :
      add_allocation (new_tracker (text ".")) 0 s new_callstack
      ≡ done (between block (record { ranges = [] }) (tracked 0 s) 0 [])
  unfolding between add_allocation new_tracker Tracker.get_callstack_id Tracker.add_memory_usage
      Interner.get_or_insert_id lookup Callstack-discrete HashMap.insert HashMap.remove Word.add_u32
  first =
      let e : add_usize 0 (tracked 0 s) ≡ tracked 0 s =
        omega (arith, add_usize_exact 0 (tracked 0 s) (omega (arith, small))) in
      rw e refl

  second :
      add_anon_mmap
        (between block (record { ranges = [] }) (tracked 0 s) 0 [])
        1
        (s * 2)
        new_callstack
      ≡ done (between block pages (tracked 0 s + s * 2) 0 [])
  unfolding between add_anon_mmap Tracker.get_callstack_id Tracker.add_memory_usage
      Interner.get_or_insert_id lookup Callstack-discrete RangeMap.add RangeMap.new_range
  second =
      let e = add_usize_exact (tracked 0 s) (s * 2) small in
      let f = add_usize_exact 1 (s * 2) (omega arith) in
      let long : leb (s * 2) 0 ≡ false = ground arith in
      let nonempty : ltb 0 (s * 2) ≡ true = lt→ltb 0 (s * 2) (omega arith) in
      rw (long, nonempty, e, f) refl

  checked :
      check_if_new_peak (between block pages (tracked 0 s + s * 2) 0 [])
      ≡ between block pages (tracked 0 s + s * 2) (tracked 0 s + s * 2) ((tracked 0 s + s * 2) ∷ [])
  unfolding between check_if_new_peak
  checked = rw (lt→ltb 0 (tracked 0 s + s * 2) (omega arith), check_if_new_peak) refl

  third :
      free_allocation (between block pages (tracked 0 s + s * 2) 0 []) 0
      ≡ done (between [] pages (s * 2) (tracked 0 s + s * 2) ((tracked 0 s + s * 2) ∷ []))
  unfolding between free_allocation lookup HashMap.remove Tracker.remove_memory_usage ℕ_discrete
      new_allocation
  third =
      let e : sub_usize (tracked 0 s + s * 2) (tracked 0 s) ≡ s * 2 =
        omega (arith, sub_usize_exact (tracked 0 s + s * 2) (tracked 0 s) (omega arith) small) in
      let u = check_if_new_peak (between block pages (tracked 0 s + s * 2) 0 []) in
      let there : lookup ℕ_discrete 0 u.current_allocations ≡ some (new_allocation 0 s) =
        rw checked refl in
      rw (there, free_allocation) (rw checked (rw e refl))

  unpeaked :
      check_if_new_peak
        (between [] pages (s * 2) (tracked 0 s + s * 2) ((tracked 0 s + s * 2) ∷ []))
      ≡ between [] pages (s * 2) (tracked 0 s + s * 2) ((tracked 0 s + s * 2) ∷ [])
  unfolding between check_if_new_peak
  unpeaked =
      let lower : ltb (tracked 0 s + s * 2) (s * 2) ≡ false = ground arith in
      rw (lower, check_if_new_peak) refl

  removed : RangeMap.remove pages 1 (s * 2) ≡ done (record { ranges = [] }, (0, s * 2) ∷ [])
  unfolding RangeMap.remove RangeMap.remove_loop RangeMap.remove_one RangeMap.intersection
      RangeMap.new_range RangeMap.range_size
  removed =
      let f = add_usize_exact 1 (s * 2) (omega arith) in
      let g : sub_usize (1 + s * 2) 1 ≡ s * 2 =
        omega (arith, sub_usize_exact (1 + s * 2) 1 (omega arith) (omega arith)) in
      let long : leb (s * 2) 0 ≡ false = ground arith in
      let nonempty : ltb 0 (s * 2) ≡ true = lt→ltb 0 (s * 2) (omega arith) in ground (arith, f, g)

  fourth :
      free_anon_mmap
        (between [] pages (s * 2) (tracked 0 s + s * 2) ((tracked 0 s + s * 2) ∷ []))
        1
        (s * 2)
      ≡ done
          (between [] (record { ranges = [] }) 0 (tracked 0 s + s * 2) ((tracked 0 s + s * 2) ∷ []))
  unfolding between free_anon_mmap Tracker.remove_each Tracker.remove_memory_usage
  fourth =
      let e : sub_usize (s * 2) (s * 2) ≡ 0 =
        omega (arith, sub_usize_exact (s * 2) (s * 2) (omega arith) (omega arith)) in
      rw (unpeaked, free_anon_mmap, removed, e) refl

  -- The tracked size is within half a MiB of the size, and exact below 2 ^ 31.
  close :
      (999 * (tracked 0 s + s * 2) < 1000 * (s * 3))
      × (1000 * (s * 3) < 1001 * (tracked 0 s + s * 2))
  close = elim (dec_lt s high_32bit) [
    | yes p ↦ let e = size-new_allocation_small 0 s p in (omega (arith, e), omega (arith, e))
    | no p ↦
        let (above, below, _) = size-new_allocation_large 0 s (omega arith) (omega arith) in
        (omega (arith, above), omega (arith, below))
  ]

  -- The property test `correct_allocation_size_tracked` passes for every size from 1 to below 2 ^
  -- 50: three times the size, for a block and a mapping of twice the size, is between 0.999 and
  -- 1.001 times the tracked usage, and the usage is exactly 0 after both are freed.
  pub correct_allocation_size_tracked_passes : correct_allocation_size_tracked s ≡ done tt
  unfolding correct_allocation_size_tracked between
  correct_allocation_size_tracked_passes =
      let twice : mul_usize s 2 ≡ s * 2 = mul_usize_exact s 2 (omega arith) in
      let thrice : mul_usize s 3 ≡ s * 3 = mul_usize_exact s 3 (omega arith) in
      let (low, high) = close in
      rw (twice, thrice, first, second, lt→ltb _ _ low, lt→ltb _ _ high, third, fourth) refl
