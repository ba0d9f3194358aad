-- ===== src/Text/Frames.antt =====
-- `Callstack::as_string` of memapi/src/memorytracking.rs, cut at the semicolons as inferno, the
-- flamegraph's reader, cuts it.
use mathlib.Core.List.{append_assoc, append-nil}
use filprofiler.Base.{
  ℕ, ◌≡◌, ◌≢◌, ◌==◌, Bool, true, false, if◌then◌else◌, List, [], ◌∷◌, ◌++◌, map, All, All-append,
  refl, sym, ap, ◌∙◌, arith,
}
use filprofiler.Callstack.{CallSiteId, Callstack, is_empty, in_python}
use filprofiler.Text.{
  Memory, text, decimal, join, get_filename, get_function_name, frame, marker, format_call,
  as_string,
}
use filprofiler.Text.Decimal.{IsDigit, decimal-IsDigit}

-- Cutting a text at every byte `c`.
unfoldable pub prepend : ℕ → List (List ℕ) → List (List ℕ)
prepend x [] = (x ∷ []) ∷ []
prepend x (part ∷ parts) = (x ∷ part) ∷ parts

unfoldable pub split : ℕ → List ℕ → List (List ℕ)
unfolding prepend
split c [] = [] ∷ []
split c (x ∷ xs) = let rest = split c xs in if x == c then [] ∷ rest else prepend x rest

abbrev pub Lacks : ℕ → List ℕ → Type 0
Lacks c = All (λ b. b ≢ c)

split_last : (c : ℕ) (x : List ℕ) → Lacks c x → split c x ≡ x ∷ []
unfolding split
split_last c [] h = refl
split_last c (b ∷ x) h = ground (arith, split_last c x h.1)

pub split-append :
    (c : ℕ) (x rest : List ℕ) → Lacks c x → split c (x ++ c ∷ rest) ≡ x ∷ split c rest
unfolding split
split-append c [] rest h = ground arith
split-append c (b ∷ x) rest h = ground (arith, split-append c x rest h.1)

digits-Lacks : (l : List ℕ) → All IsDigit l → Lacks b';' l
digits-Lacks [] h = tt
digits-Lacks (c ∷ l) h = (omega (arith, h.0), digits-Lacks l h.1)

module _ (memory : Memory) where
  -- The names of a call hold no semicolon.
  abbrev pub IsPlain : CallSiteId → Type 0
  IsPlain id =
      Lacks b';' (get_filename memory id.function)
      × Lacks b';' (get_function_name memory id.function)

  -- The parts of a callstack's text form that stand for one call.
  abbrev pub parts : Bool → CallSiteId → List (List ℕ)
  parts to_be_post_processed id =
      if to_be_post_processed then frame memory id ∷ marker memory id ∷ [] else frame memory id ∷ []

  abbrev pub all_parts : Bool → List CallSiteId → List (List ℕ)
  all_parts b [] = []
  all_parts b (id ∷ ids) = parts b id ++ all_parts b ids

  frame-Lacks : (id : CallSiteId) → IsPlain id → Lacks b';' (frame memory id)
  unfolding frame
  frame-Lacks id (file, name) = All-append _ (get_filename memory id.function) _ file (
      All-append _ (text ":") _ (omega arith) (
        All-append _ (decimal id.line_number) _ (digits-Lacks _ (decimal-IsDigit id.line_number)) (
          All-append _ (text " (") _ (omega arith)
            (All-append _ (get_function_name memory id.function) _ name (omega arith)))))

  marker-Lacks : (id : CallSiteId) → IsPlain id → Lacks b';' (marker memory id)
  unfolding marker
  marker-Lacks id (file, name) = All-append _ (text "TB@@") _ (omega arith) (
      All-append _ (get_filename memory id.function) _ file (
        All-append _ (text ":") _ (omega arith) (
          All-append _ (decimal id.line_number) _ (digits-Lacks _ (decimal-IsDigit id.line_number))
            (omega arith))))

  split-format_call_last :
      (b : Bool) (id : CallSiteId) → IsPlain id → split b';' (format_call memory b id) ≡ parts b id
  unfolding format_call
  split-format_call_last true id h =
      split-append b';' (frame memory id) (marker memory id) (frame-Lacks id h)
      ∙ ap (◌∷◌ (frame memory id)) (split_last b';' (marker memory id) (marker-Lacks id h))
  split-format_call_last false id h = split_last b';' (frame memory id) (frame-Lacks id h)

  split-format_call :
      (b : Bool) (id : CallSiteId) (rest : List ℕ)
      → IsPlain id
      → split b';' (format_call memory b id ++ b';' ∷ rest) ≡ parts b id ++ split b';' rest
  unfolding format_call
  split-format_call true id rest h =
      ap (split b';') (append_assoc (frame memory id) (b';' ∷ marker memory id) (b';' ∷ rest))
      ∙ split-append b';' (frame memory id) (marker memory id ++ b';' ∷ rest) (frame-Lacks id h)
      ∙ ap (◌∷◌ (frame memory id)) (split-append b';' (marker memory id) rest (marker-Lacks id h))
  split-format_call false id rest h = split-append b';' (frame memory id) rest (frame-Lacks id h)

  split-join :
      (b : Bool) (id : CallSiteId) (ids : List CallSiteId)
      → All IsPlain (id ∷ ids)
      → split b';' (join b';' (map (format_call memory b) (id ∷ ids))) ≡ all_parts b (id ∷ ids)
  unfolding join
  split-join b id [] h = split-format_call_last b id h.0 ∙ sym (append-nil (parts b id))
  split-join b id (id' ∷ ids) h =
      split-format_call b id (join b';' (map (format_call memory b) (id' ∷ ids))) h.0
      ∙ ap (◌++◌ (parts b id)) (split-join b id' ids h.1)

  split-as_string_calls :
      (b : Bool) (ids : List CallSiteId)
      → All IsPlain ids
      → ids ≢ []
      → split b';' (as_string memory (record { calls = ids }) b) ≡ all_parts b ids
  unfolding as_string is_empty
  split-as_string_calls b [] h some = absurd (some refl)
  split-as_string_calls b (id ∷ ids) h some = split-join b id ids h

  -- When no file or function name of a callstack has a semicolon and the callstack is not empty,
  -- its text cut at the semicolons is its frames, oldest first, each followed by its marker where
  -- markers are asked for.
  pub split-as_string :
      (b : Bool) (s : Callstack)
      → All IsPlain s.calls
      → in_python s ≡ true
      → split b';' (as_string memory s b) ≡ all_parts b s.calls
  unfolding in_python
  split-as_string b s h python = split-as_string_calls b s.calls h (λ e. ground arith)
