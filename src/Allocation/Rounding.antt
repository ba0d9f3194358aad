-- ===== src/Allocation/Rounding.antt =====
-- The size that `Allocation` (memapi/src/memorytracking.rs) keeps of a request.
use native.Mathlib.Decide.{dec_lt}
use filprofiler.Base.{ℕ, ap, ◌+◌, ◌-◌, ◌*◌, ◌/◌, ◌%◌, ◌^◌, ◌≤◌, ◌<◌, ◌≡◌, refl, arith}
use filprofiler.Word.{u32_mod, add_usize, mul_usize, sub_u32}
use filprofiler.Allocation.Bit.{bit_or_above}
use filprofiler.Allocation.{mib, high_32bit, new_allocation, size}

-- The largest sizes are cut off by the cast to 32 bits; these are not.
abbrev pub max_size : ℕ
max_size = 2 ^ 51 - 2 ^ 19

-- The size that an allocation is tracked with.
abbrev pub tracked : ℕ → ℕ → ℕ
tracked id s = size (new_allocation id s)

-- The tracked size does not depend on the callstack.
pub tracked_any : (id id' s : ℕ) → tracked id s ≡ tracked id' s
unfolding size new_allocation
tracked_any id id' s = refl

-- A size below 2 ^ 31 is tracked exactly.
pub size-new_allocation_small : (id s : ℕ) → s < high_32bit → tracked id s ≡ s
unfolding size new_allocation
size-new_allocation_small id s h = ground arith

large_in_mib : (id s : ℕ) → high_32bit ≤ s → s < max_size → tracked id s ≡ (s + mib / 2) / mib * mib
unfolding size new_allocation add_usize mul_usize sub_u32
large_in_mib id s h bound = ground (arith, bit_or_above 31 ((s + mib / 2) / mib) (omega arith))

-- A size of at least 2 ^ 31 and below 2 ^ 51 - 2 ^ 19 is tracked as a whole number of MiB that is
-- at most half a MiB away.
pub size-new_allocation_large :
    (id s : ℕ)
    → high_32bit ≤ s
    → s < max_size
    → (tracked id s ≤ s + mib / 2) × (s ≤ tracked id s + mib / 2) × (tracked id s % mib ≡ 0)
size-new_allocation_large id s h bound =
    rw (large_in_mib id s h bound) (omega arith, omega arith, omega arith)

-- The field fits its 32 bits, for every size below 2 ^ 51 - 2 ^ 19.
pub compressed_size-lt : (id s : ℕ) → s < max_size → (new_allocation id s).compressed_size < u32_mod
unfolding new_allocation add_usize
compressed_size-lt id s bound = ground (arith, bit_or_above 31 ((s + mib / 2) / mib))

-- For sizes below 2 ^ 51 - 2 ^ 19, the tracked size of a tracked size is itself.
pub tracked_again : (id s : ℕ) → s < max_size → tracked id (tracked id s) ≡ tracked id s
tracked_again id s bound = elim (dec_lt s high_32bit) [
  | yes p ↦ ap (tracked id) (size-new_allocation_small id s p)
  | no p ↦
      let once = large_in_mib id s (omega arith) bound in
      omega
        (arith, once, large_in_mib id (tracked id s) (omega (arith, once)) (omega (arith, once)))
]

-- For sizes below 2 ^ 51 - 2 ^ 19, a size that is at least another one is tracked as at least the
-- other one's tracked size.
pub tracked_mono : (id s s' : ℕ) → s ≤ s' → s' < max_size → tracked id s ≤ tracked id s'
tracked_mono id s s' h bound = elim (dec_lt s high_32bit) [
  | yes p ↦ elim (dec_lt s' high_32bit) [
    | yes p' ↦ omega (arith, size-new_allocation_small id s p, size-new_allocation_small id s' p')
    | no p' ↦
        omega (arith, size-new_allocation_small id s p, large_in_mib id s' (omega arith) bound)
  ]
  | no p ↦
      omega (
        arith,
        large_in_mib id s (omega arith) (omega arith),
        large_in_mib id s' (omega arith) bound,
      )
]

pub tracked-le : (id s : ℕ) → s < max_size → tracked id s ≤ 2 ^ 51
tracked-le id s bound = elim (dec_lt s high_32bit) [
  | yes p ↦ rw (size-new_allocation_small id s p) (omega arith)
  | no p ↦ rw (large_in_mib id s (omega arith) bound) (omega arith)
]
