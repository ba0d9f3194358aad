-- ===== src/Callstack.antt =====
-- memapi/src/memorytracking.rs: `FunctionId`, `CallSiteId`, `Callstack` without its text form (see
-- Text). The calls of a callstack stand oldest first, as in the source's vector.
pub mod Balance
pub mod Frames
use filprofiler.Base.{
  ℕ, ◌==◌, ◌≡◌, List, [], ◌∷◌, ◌++◌, Option, none, some, Bool, true, false, not, if◌then◌else◌,
  ℕ_discrete,
}

-- A pointer to a `FunctionLocation`. Two ids are equal when the pointers are.
pub record FunctionId : Type 0 where
  pub function : ℕ

-- A specific location: file + function + line number.
pub record CallSiteId : Type 0 where
  pub function : FunctionId
  pub line_number : ℕ

pub record Callstack : Type 0 where
  pub calls : List CallSiteId

pub FunctionId-discrete : Discrete FunctionId
FunctionId-discrete = hlevel ℕ_discrete

pub CallSiteId-discrete : Discrete CallSiteId
CallSiteId-discrete = hlevel ℕ_discrete

-- The derived `PartialEq` of the callstacks.
unfoldable pub Callstack-discrete : Discrete Callstack
Callstack-discrete = hlevel ℕ_discrete

-- `Callstack::new`
abbrev pub new_callstack : Callstack
new_callstack = record { calls = [] }

-- `Vec::pop`, with the popped element dropped
unfoldable pub drop_last {ℓ} : {A : Type ℓ} → List A → List A
drop_last [] = []
drop_last (x ∷ []) = []
drop_last (x ∷ y ∷ xs) = x ∷ drop_last (y ∷ xs)

-- `if let Some(call) = calls.last_mut() { call.line_number = line; }`
unfoldable pub set_last_line : ℕ → List CallSiteId → List CallSiteId
set_last_line line [] = []
set_last_line line (x ∷ []) = record x { line_number = line } ∷ []
set_last_line line (x ∷ y ∷ xs) = x ∷ set_last_line line (y ∷ xs)

unfoldable pub is_empty {ℓ} : {A : Type ℓ} → List A → Bool
is_empty [] = true
is_empty (x ∷ xs) = false

unfoldable pub in_python : Callstack → Bool
unfolding is_empty
in_python self = not (is_empty self.calls)

unfoldable pub start_call : Callstack → ℕ → CallSiteId → Callstack
start_call self parent_line_number callsite_id =
    let calls =
      if not (parent_line_number == 0)
      then set_last_line parent_line_number self.calls
      else self.calls in
    record { calls = calls ++ callsite_id ∷ [] }

unfoldable pub finish_call : Callstack → Callstack
finish_call self = record { calls = drop_last self.calls }

unfoldable pub new_line_number : Callstack → ℕ → Callstack
new_line_number self line_number = record { calls = set_last_line line_number self.calls }
