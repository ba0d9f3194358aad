-- ===== src/Allocation/Bit.antt =====
-- Setting a high bit, for the compressed sizes of `Allocation` in memapi/src/memorytracking.rs.
use Prim.Native.Nat.{digits, bit_or-bitwise}
use native.Mathlib.Nat.{pow-suc}
use filprofiler.Base.{
  ℕ, zero, suc, ◌+◌, ◌*◌, ◌/◌, ◌^◌, ◌≤◌, ◌<◌, max, bit_or, ◌≡◌, refl, ◌∙◌, arith,
}

-- The operation stands for a recursion on digits, with the first number for its fuel.
digits_above :
    (fuel k a b : ℕ) → a ≤ fuel → b ≡ 2 ^ k → a < b → digits (λ y. y) max fuel a b ≡ a + b
digits_above zero k a b h p lt = omega arith
digits_above (suc fuel) k zero b h p lt = omega arith
digits_above (suc fuel) zero (suc a) b h p lt = absurd (omega arith)
digits_above (suc fuel) (suc k) (suc a) b h p lt =
    let twice : b ≡ 2 ^ k * 2 = p ∙ pow-suc 2 k in
    omega (
      arith,
      twice,
      digits_above fuel k (suc a / 2) (b / 2) (omega arith) (omega (arith, twice))
          (omega (arith, twice)),
    )

pub bit_or_above : (k a : ℕ) → a < 2 ^ k → bit_or a (2 ^ k) ≡ a + 2 ^ k
bit_or_above k a h = simp bit_or-bitwise (digits_above a k a (2 ^ k) (omega arith) refl h)
