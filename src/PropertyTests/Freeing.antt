-- ===== src/PropertyTests/Freeing.antt =====
-- The second loop of `current_allocated_matches_sum_of_allocations` of memapi/src/memorytracking.rs,
-- and the test as a whole.
use filprofiler.Base.{
  false, ℕ, zero, suc, ◌+◌, ◌<◌, ◌≡◌, ◌≢◌, ◌==◌, if◌then◌else◌, max, set, true, List, [], ◌∷◌,
  length, length-set, get_or, get_elem?-get_or, get_or-le-sum, sum, All, lookup, some, done, refl,
  ap, sym, ◌∙◌, arith, ℕ_discrete, if_pos,
}
use filprofiler.Word.{usize_mod, u32_mod, add_usize_exact, sub_usize, sub_usize_exact}
use filprofiler.Text.{text}
use filprofiler.Dump.{Path-discrete}
use filprofiler.Allocation.{new_allocation, high_32bit}
use filprofiler.Allocation.Rounding.{tracked, size-new_allocation_small}
use filprofiler.Tracker.{AllocationTracker, new_tracker, free_allocation}
use filprofiler.Tracker.Slots.{usage_of, get_or-set}
use filprofiler.Tracker.Accounting.{IsAccounted}
use filprofiler.Tracker.Accounting.Freeing.{Frees, free_allocation-Frees}
use filprofiler.PropertyTests.{
  free_blocks, sum_usize, is_same, current_allocated_matches_sum_of_allocations,
}
use filprofiler.PropertyTests.Adding.{
  get_or_ext, Added, Added-total, new_tracker-Added, add_blocks-Added,
}

pub is_same_of : (k l : List ℕ) → k ≡ l → is_same k l ≡ true
is_same_of k l e = if_pos (Path-discrete k l) e true false

pub sum_usize_exact : (ns : List ℕ) → sum ns < usize_mod → sum_usize ns ≡ sum ns
unfolding sum_usize
sum_usize_exact [] h = refl
sum_usize_exact (n ∷ ns) h =
    rw (sum_usize_exact ns (omega arith)) (add_usize_exact n (sum ns) (omega arith))

-- The indices are in range and differ from each other.
abbrev pub AreIndices : ℕ → List ℕ → Type 0
AreIndices n [] = Unit
AreIndices n (i ∷ is) = (i < n) × All (λ j. j ≢ i) is × AreIndices n is

-- The blocks with these indices are still there.
abbrev AreStored : List ℕ → AllocationTracker → List ℕ → Type 0
AreStored sizes t =
    All
      (λ i. lookup ℕ_discrete i t.current_allocations ≡ some (new_allocation i (get_or sizes i 0)))

abbrev pub after : List ℕ → ℕ → ℕ → ℕ
after [] peak highest = peak
after (i ∷ is) peak highest = highest

pub after_same : (is : List ℕ) (peak highest : ℕ) → peak ≡ highest → after is peak highest ≡ highest
after_same [] peak highest e = e
after_same (i ∷ is) peak highest e = refl

-- The usage after a credit of `s` bytes to the callstack with the id `i`.
pub usage_credited :
    (t t' : AllocationTracker) (i s : ℕ) (usage : List ℕ)
    → IsAccounted t
    → IsAccounted t'
    → t'.interner ≡ t.interner
    → t.current_memory_usage ≡ usage
    → i < length usage
    → ((k : ℕ) → usage_of t' k + (if i == k then s else 0) ≡ usage_of t k)
    → t'.current_memory_usage ≡ set usage i (sub_usize (get_or usage i 0) s)
usage_credited t t' i s usage a a' same_interner same valid credited =
    let read : (k : ℕ) → get_or usage k 0 ≡ usage_of t k = λ k. ap (λ u. get_or u k 0) (sym same) in
    let own : usage_of t' i + s ≡ usage_of t i = ground (arith, credited i) in
    let bounded = get_or-le-sum t.current_memory_usage i in
    let less : sub_usize (get_or usage i 0) s ≡ usage_of t' i = omega (
      arith,
      own,
      read i,
      sub_usize_exact (get_or usage i 0) s (omega (arith, own, read i))
          (omega (arith, read i, bounded, a.summed.fits, a.summed.total)),
    ) in
    get_or_ext t'.current_memory_usage (set usage i (sub_usize (get_or usage i 0) s))
      (omega (
        arith,
        a'.slots,
        ap (λ n. n.max_id) same_interner,
        a.slots,
        ap length same,
        length-set usage i (sub_usize (get_or usage i 0) s),
      ))
      (λ k. ground (
        arith,
        get_or-set usage i k (sub_usize (get_or usage i 0) s) valid,
        less,
        credited k,
        own,
        read k,
      ))

-- What is expected of the tracker when `is` are still to be freed.
record IsExpected (sizes is : List ℕ) (t : AllocationTracker) (bytes : ℕ) (usage : List ℕ)
    (highest : ℕ) : Type 0 where
  accounted : IsAccounted t
  stored : AreStored sizes t is
  same_total : t.current_allocated_bytes ≡ bytes
  same_usage : t.current_memory_usage ≡ usage
  same_length : length usage ≡ length sizes
  same_peak : max t.peak_allocated_bytes t.current_allocated_bytes ≡ highest

new_allocation_id : (i s : ℕ) → (new_allocation i s).callstack_id ≡ i
unfolding new_allocation
new_allocation_id i s = refl

pub get_or-All :
    (sizes : List ℕ) (i : ℕ)
    → i < length sizes
    → All (λ s. s < high_32bit) sizes
    → get_or sizes i 0 < high_32bit
get_or-All [] i h a = absurd (omega arith)
get_or-All (s ∷ sizes) zero h a = a.0
get_or-All (s ∷ sizes) (suc i) h a = get_or-All sizes i (omega arith) a.1

module _ (sizes : List ℕ) (small : All (λ s. s < high_32bit) sizes) where
  stored_after :
      (t t' : AllocationTracker) (i : ℕ) (is : List ℕ)
      → Frees t i t'
      → All (λ j. j ≢ i) is
      → AreStored sizes t is
      → AreStored sizes t' is
  stored_after t t' i [] e ne h = tt
  stored_after t t' i (j ∷ is) e ne h = (e.others j ne.0 ∙ h.0, stored_after t t' i is e ne.1 h.1)

  -- One round of the loop.
  freed_block :
      (i : ℕ) (is : List ℕ) (t : AllocationTracker) (bytes : ℕ) (usage : List ℕ) (highest : ℕ)
      → AreIndices (length sizes) (i ∷ is)
      → IsExpected sizes (i ∷ is) t bytes usage highest
      → let s = get_or sizes i 0 in
        let u = set usage i (sub_usize (get_or usage i 0) s) in
        (t' : AllocationTracker) × (free_allocation t i ≡ done t')
        × IsExpected sizes is t' (sub_usize bytes s) u highest
        × (t'.peak_allocated_bytes ≡ highest)
  freed_block i is t bytes usage highest (valid, ne, later) x =
      let s = get_or sizes i 0 in
      let (t', ran, a', e) = free_allocation-Frees t i x.accounted in
      let exact : tracked i s ≡ s =
        size-new_allocation_small i s (get_or-All sizes i valid small) in
      let there = x.stored.0 in
      let total : t'.current_allocated_bytes + s ≡ t.current_allocated_bytes =
        ground (arith, e.total, there, exact) in
      let credited : (k : ℕ) → usage_of t' k + (if i == k then s else 0) ≡ usage_of t k =
        λ k. ground (arith, e.credited k, there, exact, new_allocation_id i s) in
      let fits = x.accounted.summed.fits in
      (
        t',
        ran,
        record {
          accounted = a';
          stored = stored_after t t' i is e ne x.stored.1;
          same_total = omega (
            arith,
            total,
            x.same_total,
            sub_usize_exact bytes s (omega (arith, total, x.same_total))
                (omega (arith, x.same_total, fits)),
          );
          same_usage =
              usage_credited t t' i s usage x.accounted a' e.same_interner x.same_usage
                (omega (arith, valid, x.same_length)) credited;
          same_length = length-set usage i _ ∙ x.same_length;
          same_peak = omega (arith, e.peak, x.same_peak, total);
        },
        e.peak ∙ x.same_peak,
      )

  free_blocks-returns :
      (is : List ℕ) (t : AllocationTracker) (bytes : ℕ) (usage : List ℕ) (highest : ℕ)
      → AreIndices (length sizes) is
      → IsExpected sizes is t bytes usage highest
      → (t' : AllocationTracker) × (free_blocks sizes is bytes usage t ≡ done t')
        × (t'.peak_allocated_bytes ≡ after is t.peak_allocated_bytes highest)
  unfolding free_blocks
  free_blocks-returns [] t bytes usage highest valid x = (t, refl, refl)
  free_blocks-returns (i ∷ is) t bytes usage highest valid x =
      let s = get_or sizes i 0 in
      let u = set usage i (sub_usize (get_or usage i 0) s) in
      let (t1, ran, x1, peak) = freed_block i is t bytes usage highest valid x in
      let (t', rest, end) = free_blocks-returns is t1 (sub_usize bytes s) u highest valid.2 x1 in
      let known = get_elem?-get_or sizes i 0 valid.0 in
      let expected = get_elem?-get_or usage i 0 (omega (arith, valid.0, x.same_length)) in
      let total : (t1.current_allocated_bytes == sub_usize bytes s) ≡ true =
        ground (arith, x1.same_total) in
      (
        t',
        rw (known, ran, expected, total, is_same_of _ u x1.same_usage) rest,
        end ∙ after_same is t1.peak_allocated_bytes highest peak,
      )

  Added-AreStored :
      (t : AllocationTracker) (is : List ℕ)
      → Added sizes t
      → AreIndices (length sizes) is
      → AreStored sizes t is
  Added-AreStored t [] a h = tt
  Added-AreStored t (i ∷ is) a h = (a.stored i h.0, Added-AreStored t is a h.2)

  -- The property test `current_allocated_matches_sum_of_allocations` passes for all sizes below 2 ^
  -- 31, fewer than 2 ^ 32 of them and with a sum below 2 ^ 64, and for all indices of blocks to
  -- free, at least one, in range and each different from the others: after the blocks are added,
  -- and after each that is freed, the usage by callstack and the total are what the sizes make of
  -- them, and the peak is the sum of the sizes.
  pub current_allocated_matches_passes :
      (i : ℕ) (is : List ℕ)
      → length sizes < u32_mod
      → sum sizes < usize_mod
      → AreIndices (length sizes) (i ∷ is)
      → current_allocated_matches_sum_of_allocations sizes (i ∷ is) ≡ done tt
  unfolding current_allocated_matches_sum_of_allocations
  current_allocated_matches_passes i is ids room valid =
      let (t, ran, a) =
        add_blocks-Added [] sizes (new_tracker (text ".")) (new_tracker-Added (text ".")) small
          (omega arith) (omega arith) in
      let same = sum_usize_exact sizes room in
      let total = Added-total sizes t a in
      let (t', freed, peak) =
        free_blocks-returns (i ∷ is) t (sum sizes) sizes (sum sizes) valid (record {
          accounted = a.accounted;
          stored = Added-AreStored t (i ∷ is) a valid;
          same_total = total;
          same_usage = a.usage;
          same_length = refl;
          same_peak = omega (arith, a.no_peak, total);
        }) in
      let as_summed : (t.current_allocated_bytes == sum sizes) ≡ true = ground (arith, total) in
      let at_peak : (t'.peak_allocated_bytes == sum sizes) ≡ true = ground (arith, peak) in
      rw (ran, same, as_summed, is_same_of _ sizes a.usage, freed, at_peak) refl
