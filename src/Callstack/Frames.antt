-- ===== src/Callstack/Frames.antt =====
-- The frames of a callstack, described by the running one and its callers, against the operations of
-- `Callstack` in memapi/src/memorytracking.rs.
use filprofiler.Base.{
  ℕ, ◌==◌, ◌≡◌, refl, ap, List, [], ◌∷◌, ◌++◌, Option, none, some, if◌then◌else◌, arith,
}
use filprofiler.Callstack.{
  CallSiteId, Callstack, drop_last, set_last_line, start_call, finish_call, new_line_number,
}

-- The callers and the running frame, where there is one.
abbrev pub running_frame {ℓ} : {A : Type ℓ} → List A → Option (List A × A)
running_frame [] = none
running_frame (x ∷ xs) = elim (running_frame xs) [
  | none ↦ some ([], x)
  | some (callers, y) ↦ some (x ∷ callers, y)
]

-- The frames without the running one.
abbrev pub returned : Callstack → Callstack
returned s = record {
  calls = elim (running_frame s.calls) [ none ↦ [] | some (callers, c) ↦ callers ];
}

-- The running frame is at another line.
abbrev pub at_line : ℕ → Callstack → Callstack
at_line line s = record {
  calls = elim (running_frame s.calls) [
    | none ↦ []
    | some (callers, c) ↦ callers ++ record { function = c.function; line_number = line } ∷ []
  ];
}

-- The line 0 stands for an unknown one, which leaves the running frame where it is.
abbrev pub at_known_line : ℕ → Callstack → Callstack
at_known_line line s = if line == 0 then s else at_line line s

drop_last_lem {ℓ} :
    {A : Type ℓ} (l : List A)
    → drop_last l ≡ elim (running_frame l) [ none ↦ [] | some (callers, c) ↦ callers ]
unfolding drop_last
drop_last_lem [] = refl
drop_last_lem (x ∷ []) = refl
drop_last_lem (x ∷ y ∷ l) = ground (arith, drop_last_lem (y ∷ l))

set_last_line_lem :
    (line : ℕ) (l : List CallSiteId)
    → set_last_line line l ≡ elim (running_frame l) [
      | none ↦ []
      | some (callers, c) ↦ callers ++ record { function = c.function; line_number = line } ∷ []
    ]
unfolding set_last_line
set_last_line_lem line [] = refl
set_last_line_lem line (x ∷ []) = refl
set_last_line_lem line (x ∷ y ∷ l) = ground (arith, set_last_line_lem line (y ∷ l))

pub finish_call-returned : (s : Callstack) → finish_call s ≡ returned s
unfolding finish_call
finish_call-returned s = ap (λ l. record { calls = l }) (drop_last_lem s.calls)

pub new_line_number-at_line : (s : Callstack) (line : ℕ) → new_line_number s line ≡ at_line line s
unfolding new_line_number
new_line_number-at_line s line = ap (λ l. record { calls = l }) (set_last_line_lem line s.calls)

pub start_call-at_known_line :
    (s : Callstack) (parent : ℕ) (site : CallSiteId)
    → start_call s parent site ≡ record { calls = (at_known_line parent s).calls ++ site ∷ [] }
unfolding start_call
start_call-at_known_line s parent site = ground (arith, set_last_line_lem parent s.calls)
