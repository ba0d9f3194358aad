-- ===== src/Word.antt =====
-- The machine integers of a release build on a 64-bit target: `usize` and `u32` arithmetic wraps,
-- and `as u32` cuts off the high bits. An operation is its wrapped form, and a lemma for each says
-- when nothing wraps.
use filprofiler.Base.{ℕ, ◌+◌, ◌-◌, ◌*◌, ◌%◌, ◌^◌, ◌≤◌, ◌<◌, ◌≡◌, arith}

abbrev pub usize_mod : ℕ
usize_mod = 2 ^ 64

abbrev pub u32_mod : ℕ
u32_mod = 2 ^ 32

-- a + b on `usize`
unfoldable pub add_usize : ℕ → ℕ → ℕ
add_usize a b = (a + b) % usize_mod

-- a - b on `usize`
unfoldable pub sub_usize : ℕ → ℕ → ℕ
sub_usize a b = (a + usize_mod - b) % usize_mod

-- a * b on `usize`
unfoldable pub mul_usize : ℕ → ℕ → ℕ
mul_usize a b = a * b % usize_mod

-- a + b on `u32`
unfoldable pub add_u32 : ℕ → ℕ → ℕ
add_u32 a b = (a + b) % u32_mod

-- a - b on `u32`
unfoldable pub sub_u32 : ℕ → ℕ → ℕ
sub_u32 a b = (a + u32_mod - b) % u32_mod

-- `a as u32`
abbrev pub as_u32 : ℕ → ℕ
as_u32 a = a % u32_mod

pub add_usize_exact : (a b : ℕ) → a + b < usize_mod → add_usize a b ≡ a + b
unfolding add_usize
add_usize_exact a b h = omega arith

pub sub_usize_exact : (a b : ℕ) → b ≤ a → a < usize_mod → sub_usize a b ≡ a - b
unfolding sub_usize
sub_usize_exact a b h k = omega arith

pub mul_usize_exact : (a b : ℕ) → a * b < usize_mod → mul_usize a b ≡ a * b
unfolding mul_usize
mul_usize_exact a b h = omega arith

pub add_u32_exact : (a b : ℕ) → a + b < u32_mod → add_u32 a b ≡ a + b
unfolding add_u32
add_u32_exact a b h = omega arith

pub ruleset exact = (arith, add_usize_exact, sub_usize_exact, add_u32_exact)
