-- ===== src/CString/Reading.antt =====
-- Reading a path in memapi/src/lib.rs.
use filprofiler.Base.{
  ℕ, zero, suc, ◌+◌, ◌-◌, ◌<◌, ◌≡◌, ◌≢◌, true, panic, if◌then◌else◌, List, [], ◌∷◌, some, done, All,
  refl, ap, ◌∙◌, arith,
}
use filprofiler.Word.{usize_mod}
use filprofiler.Text.{Memory, bytes_at}
use filprofiler.CString.{read_string, c_string, first_byte, is_utf8_from, is_utf8, path_argument}

-- A text of `n` bytes, none of them 0, lies at the pointer, with a 0 byte behind it.
pub record IsTerminated (memory : Memory) (pointer n : ℕ) : Type 0 where
  pub ends : memory.byte (pointer + n) ≡ 0
  pub text : (k : ℕ) → k < n → memory.byte (pointer + k) ≢ 0

read_string-bytes_at :
    (memory : Memory) (fuel pointer n : ℕ)
    → n < fuel
    → IsTerminated memory pointer n
    → read_string memory fuel pointer ≡ some (bytes_at memory pointer n)
unfolding read_string bytes_at
read_string-bytes_at memory zero pointer n h t = absurd (omega arith)
read_string-bytes_at memory (suc fuel) pointer zero h t =
    let ends : memory.byte pointer ≡ 0 = ap memory.byte (omega arith) ∙ t.ends in
    ground (arith, ends)
read_string-bytes_at memory (suc fuel) pointer (suc n) h t =
    let here : memory.byte pointer ≢ 0 =
      λ e. t.text 0 (omega arith) (ap memory.byte (omega arith) ∙ e) in
    let later : IsTerminated memory (suc pointer) n = record {
      ends = ap memory.byte (omega arith) ∙ t.ends;
      text = λ k l e. t.text (suc k) (omega arith) (ap memory.byte (omega arith) ∙ e);
    } in
    ground (arith, here, read_string-bytes_at memory fuel (suc pointer) n (omega arith) later)

-- A path in ASCII is UTF-8.
pub ascii-is_utf8 : (bytes : List ℕ) → All (λ b. b < 128) bytes → is_utf8 bytes ≡ true
unfolding is_utf8 is_utf8_from first_byte
ascii-is_utf8 [] h = refl
ascii-is_utf8 (b ∷ bytes) h = ground (arith, h.0, ascii-is_utf8 bytes h.1)

-- When a text without 0 bytes lies at the pointer, with a 0 byte behind it and within the address
-- space, the path that is read is that text where it is UTF-8, and otherwise reading it panics.
pub path_argument-bytes_at :
    (memory : Memory) (pointer n : ℕ)
    → pointer + n < usize_mod
    → IsTerminated memory pointer n
    → path_argument memory pointer
      ≡ (if is_utf8 (bytes_at memory pointer n) then done (bytes_at memory pointer n) else panic)
unfolding path_argument c_string
path_argument-bytes_at memory pointer n h t =
    rw (read_string-bytes_at memory (usize_mod - pointer) pointer n (omega arith) t) refl
