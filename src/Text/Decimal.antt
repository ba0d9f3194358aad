-- ===== src/Text/Decimal.antt =====
-- Decimal numbers in the text forms of memapi/src/memorytracking.rs, and their reading.
use filprofiler.Base.{
  ℕ, zero, suc, ◌+◌, ◌-◌, ◌*◌, ◌/◌, ◌%◌, ◌≤◌, ◌<◌, ◌≡◌, ltb, List, [], ◌∷◌, All, ap, ◌∙◌, arith,
  Bool-cases, inl, inr,
}
use filprofiler.Text.{decimal_before, decimal}

-- Reading digits after those that made `n`.
unfoldable pub read_digits : ℕ → List ℕ → ℕ
read_digits n [] = n
read_digits n (c ∷ cs) = read_digits (n * 10 + (c - b'0')) cs

abbrev pub IsDigit : ℕ → Type 0
IsDigit c = (b'0' ≤ c) × (c ≤ b'9')

read-decimal_before :
    (fuel n : ℕ) (rest : List ℕ)
    → n < fuel
    → read_digits 0 (decimal_before fuel n rest) ≡ read_digits n rest
unfolding read_digits decimal_before
read-decimal_before zero n rest h = absurd (omega arith)
read-decimal_before (suc fuel) n rest h = elim (Bool-cases (ltb n 10)) [
  | inl e ↦ rw e (ap (λ (k : ℕ). read_digits k rest) (omega arith))
  | inr e ↦ rw e (
      read-decimal_before fuel (n / 10) ((b'0' + n % 10) ∷ rest) (ground arith)
      ∙ ap (λ (k : ℕ). read_digits k rest) (omega arith))
]

-- A number's decimal form reads as the number.
pub read-decimal : (n : ℕ) → read_digits 0 (decimal n) ≡ n
unfolding decimal read_digits
read-decimal n = read-decimal_before (suc n) n [] (omega arith)

decimal_before-IsDigit :
    (fuel n : ℕ) (rest : List ℕ) → All IsDigit rest → All IsDigit (decimal_before fuel n rest)
unfolding decimal_before
decimal_before-IsDigit zero n rest h = h
decimal_before-IsDigit (suc fuel) n rest h = elim (Bool-cases (ltb n 10)) [
  | inl e ↦ rw e ((omega arith, ground arith), h)
  | inr e ↦ rw e (
      decimal_before-IsDigit fuel (n / 10) ((b'0' + n % 10) ∷ rest) ((omega arith, omega arith), h))
]

pub decimal-IsDigit : (n : ℕ) → All IsDigit (decimal n)
unfolding decimal
decimal-IsDigit n = decimal_before-IsDigit (suc n) n [] tt
