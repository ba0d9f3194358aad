-- ===== src/Allocation.antt =====
-- memapi/src/memorytracking.rs: `Allocation`, whose size is kept in 32 bits: in bytes below 2 ^ 31,
-- else in MiB with the high bit set.
mod Bit
pub mod Rounding
use filprofiler.Base.{ℕ, ◌+◌, ◌*◌, ◌/◌, ◌^◌, ◌%◌, bit_or, leb, if◌then◌else◌}
use filprofiler.Word.{u32_mod, as_u32, add_usize, mul_usize, sub_u32}

abbrev pub mib : ℕ
mib = 1024 * 1024

abbrev pub high_32bit : ℕ
high_32bit = 2 ^ 31

-- A specific call to malloc()/calloc().
pub record Allocation : Type 0 where
  pub callstack_id : ℕ
  pub compressed_size : ℕ

-- The code's `if` for the field `compressed_size`.
unfoldable pub compress : ℕ → ℕ
compress size =
    if leb high_32bit size
    then bit_or (as_u32 (add_usize size (mib / 2) / mib)) high_32bit
    else as_u32 size

-- `Allocation::new`
unfoldable pub new_allocation : ℕ → ℕ → Allocation
unfolding compress
new_allocation callstack_id size = record {
  callstack_id = callstack_id;
  compressed_size = compress size;
}

-- `Allocation::size`
unfoldable pub size : Allocation → ℕ
size self =
    if leb high_32bit self.compressed_size
    then mul_usize (sub_u32 self.compressed_size high_32bit) mib
    else self.compressed_size
