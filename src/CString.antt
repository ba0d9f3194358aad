-- ===== src/CString.antt =====
-- The paths that memapi/src/lib.rs gets from C: `CStr::from_ptr`, and the check for UTF-8 of `to_str`.
pub mod Reading
use filprofiler.Base.{
  ℕ, zero, suc, ◌-◌, ◌==◌, ltb, leb, ◌&&◌, Bool, true, false, if◌then◌else◌, List, [], ◌∷◌, Option,
  none, some, Outcome, done, panic, ◌>>=◌, unwrap,
}
use filprofiler.Word.{usize_mod}
use filprofiler.Text.{Memory}

-- The bytes up to the first 0 byte, within `n` bytes.
unfoldable pub read_string : Memory → ℕ → ℕ → Option (List ℕ)
read_string memory zero pointer = none
read_string memory (suc n) pointer =
    let rest = read_string memory n (suc pointer) in
    if memory.byte pointer == 0
    then some []
    else elim rest [ none ↦ none | some bytes ↦ some (memory.byte pointer ∷ bytes) ]

-- `CStr::from_ptr`, which reads no further than the address space
unfoldable pub c_string : Memory → ℕ → Option (List ℕ)
unfolding read_string
c_string memory pointer = read_string memory (usize_mod - pointer) pointer

-- What a first byte asks for: how many bytes follow, and between which bounds the next one lies.
unfoldable pub first_byte : ℕ → Option (ℕ × ℕ × ℕ)
first_byte b =
    if ltb b 0x80
    then some (0, 0, 0)
    else if ltb b 0xc2
    then none
    else if ltb b 0xe0
    then some (1, 0x80, 0xbf)
    else if b == 0xe0
    then some (2, 0xa0, 0xbf)
    else if b == 0xed
    then some (2, 0x80, 0x9f)
    else if ltb b 0xf0
    then some (2, 0x80, 0xbf)
    else if b == 0xf0
    then some (3, 0x90, 0xbf)
    else if ltb b 0xf4
    then some (3, 0x80, 0xbf)
    else if b == 0xf4
    then some (3, 0x80, 0x8f)
    else none

-- `n` bytes of a code point are to come, the first of them between `low` and `high`.
unfoldable pub is_utf8_from : ℕ → ℕ → ℕ → List ℕ → Bool
is_utf8_from zero low high [] = true
is_utf8_from (suc n) low high [] = false
is_utf8_from zero low high (b ∷ bytes) = elim (first_byte b) [
  | none ↦ false
  | some (n, l, h) ↦ is_utf8_from n l h bytes
]
is_utf8_from (suc n) low high (b ∷ bytes) =
    leb low b && leb b high && is_utf8_from n 0x80 0xbf bytes

unfoldable pub is_utf8 : List ℕ → Bool
unfolding is_utf8_from
is_utf8 bytes = is_utf8_from 0 0 0 bytes

-- `CStr::from_ptr(p).to_str().expect("Path wasn't UTF-8").to_string()`
unfoldable pub path_argument : Memory → ℕ → Outcome (List ℕ)
path_argument memory pointer = do
  bytes ← unwrap (c_string memory pointer)
  if is_utf8 bytes then done bytes else panic
