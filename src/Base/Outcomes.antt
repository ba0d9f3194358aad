-- ===== src/Base/Outcomes.antt =====
-- The outcome of code that may panic, with its sequencing.
use mathlib.Core.Option.{Option, none, some}

-- `panic` is a Rust panic: a failed `assert!`, an index out of bounds, `unwrap` of `None`.
pub data Outcome {ℓ} (A : Type ℓ) : Type ℓ where
  done : A → Outcome A
  panic : Outcome A

infixl 5 ◌>>=◌
abbrev pub ◌>>=◌ {ℓ κ} : {A : Type ℓ} {B : Type κ} → Outcome A → (A → Outcome B) → Outcome B
done a >>= f = f a
panic >>= f = panic

-- `unwrap`, and an index that may be out of bounds.
abbrev pub unwrap {ℓ} : {A : Type ℓ} → Option A → Outcome A
unwrap none = panic
unwrap (some a) = done a
