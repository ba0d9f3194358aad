-- ===== src/Text.antt =====
-- memapi/src/memorytracking.rs: `FunctionLocation`, the names behind a `FunctionId`, and the text form
-- of a callstack. Text is a list of bytes. `Display` of the numbers, and `join`, are the standard
-- library's and itertools'.
pub mod Decimal
pub mod Frames
use Prim.Native.Char.{code}
use Prim.Native.String.{String}
use filprofiler.Base.{
  ℕ, zero, suc, ◌+◌, ◌/◌, ◌%◌, ltb, if◌then◌else◌, Bool, true, false, List, [], ◌∷◌, ◌++◌, map,
}
use filprofiler.Callstack.{FunctionId, CallSiteId, Callstack, is_empty}

-- The code points of a literal, which are its bytes.
abbrev pub text : String → List ℕ
text String.[] = []
text (String.◌∷◌ c s) = code c ∷ text s

-- A function location provided by the C code: two pointers with their lengths.
pub record FunctionLocation : Type 0 where
  pub filename : ℕ
  pub filename_length : ℕ
  pub function_name : ℕ
  pub function_name_length : ℕ

-- What lies in the process's memory, which the C code fills: the bytes, and the locations that the
-- ids point to.
pub record Memory : Type 0 where
  pub byte : ℕ → ℕ
  pub location : ℕ → FunctionLocation

-- `n` in decimal, before `rest`; the fuel suffices when it is above `n`
unfoldable pub decimal_before : ℕ → ℕ → List ℕ → List ℕ
decimal_before zero n rest = rest
decimal_before (suc fuel) n rest =
    let more = decimal_before fuel (n / 10) ((b'0' + n % 10) ∷ rest) in
    if ltb n 10 then (b'0' + n) ∷ rest else more

-- `Display` of an unsigned number
unfoldable pub decimal : ℕ → List ℕ
unfolding decimal_before
decimal n = decimal_before (suc n) n []

-- `Itertools::join` with a one-byte separator
unfoldable pub join : ℕ → List (List ℕ) → List ℕ
join separator [] = []
join separator (x ∷ []) = x
join separator (x ∷ y ∷ rest) = x ++ separator ∷ join separator (y ∷ rest)

module _ (memory : Memory) where
  -- `slice::from_raw_parts`
  unfoldable pub bytes_at : ℕ → ℕ → List ℕ
  bytes_at pointer zero = []
  bytes_at pointer (suc n) = memory.byte pointer ∷ bytes_at (suc pointer) n

  unfoldable pub get_filename : FunctionId → List ℕ
  unfolding bytes_at
  get_filename self =
      let loc = memory.location self.function in bytes_at loc.filename loc.filename_length

  unfoldable pub get_function_name : FunctionId → List ℕ
  unfolding bytes_at
  get_function_name self =
      let loc = memory.location self.function in bytes_at loc.function_name loc.function_name_length

  -- `{filename}:{line} ({function})`
  unfoldable pub frame : CallSiteId → List ℕ
  frame id =
      get_filename id.function
      ++ (text ":"
          ++ (decimal id.line_number ++ (text " (" ++ (get_function_name id.function ++ text ")"))))

  -- `TB@@{filename}:{line}@@TB`
  unfoldable pub marker : CallSiteId → List ℕ
  marker id =
      text "TB@@"
      ++ (get_filename id.function ++ (text ":" ++ (decimal id.line_number ++ text "@@TB")))

  -- the closure of `as_string`
  unfoldable pub format_call : Bool → CallSiteId → List ℕ
  format_call to_be_post_processed id =
      if to_be_post_processed then frame id ++ b';' ∷ marker id else frame id

  unfoldable pub as_string : Callstack → Bool → List ℕ
  unfolding format_call
  as_string self to_be_post_processed =
      if is_empty self.calls
      then text "[No Python stack]"
      else join b';' (map (format_call to_be_post_processed) self.calls)
