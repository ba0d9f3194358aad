-- ===== src/Callstack/Balance.antt =====
-- Sequences of the calls that C makes as a thread's Python functions start, move and return
-- (`Callstack` in memapi/src/memorytracking.rs).
use filprofiler.Base.{
  ℕ, ◌==◌, ◌≡◌, refl, ap, ◌∙◌, List, [], ◌∷◌, ◌++◌, map, not, if◌then◌else◌, arith,
}
use filprofiler.Callstack.{
  FunctionId, CallSiteId, Callstack, drop_last, set_last_line, start_call, finish_call,
  new_line_number,
}

-- What the tracer reports of one thread.
pub data Event : Type 0 where
  start : ℕ → CallSiteId → Event
  finish : Event
  line : ℕ → Event

unfoldable pub run_event : Event → Callstack → Callstack
run_event (start parent site) s = start_call s parent site
run_event finish s = finish_call s
run_event (line n) s = new_line_number s n

unfoldable pub run_events : List Event → Callstack → Callstack
unfolding run_event
run_events [] s = s
run_events (e ∷ es) s = run_events es (run_event e s)

-- Events of a stretch of one frame: lines, and calls that start and finish within it.
pub data IsBalanced : List Event → Type 0 where
  nothing : IsBalanced []
  moves : (n : ℕ) {es : List Event} → IsBalanced es → IsBalanced (line n ∷ es)
  calls :
      (parent : ℕ) (site : CallSiteId) {body rest es : List Event}
      → IsBalanced body
      → IsBalanced rest
      → es ≡ start parent site ∷ body ++ finish ∷ rest
      → IsBalanced es

-- The frames below the running one, with their lines, and the functions of all frames.
abbrev pub callers : Callstack → List CallSiteId
callers s = drop_last s.calls

abbrev pub functions : List CallSiteId → List FunctionId
functions = map (λ c. c.function)

drop_last-push {ℓ} : {A : Type ℓ} (xs : List A) (x : A) → drop_last (xs ++ x ∷ []) ≡ xs
unfolding drop_last
drop_last-push [] x = refl
drop_last-push (y ∷ []) x = refl
drop_last-push (y ∷ z ∷ xs) x = ap (◌∷◌ y) (drop_last-push (z ∷ xs) x)

drop_last-set_last_line :
    (n : ℕ) (l : List CallSiteId) → drop_last (set_last_line n l) ≡ drop_last l
unfolding drop_last set_last_line
drop_last-set_last_line n [] = refl
drop_last-set_last_line n (x ∷ []) = refl
drop_last-set_last_line n (x ∷ y ∷ []) = refl
drop_last-set_last_line n (x ∷ y ∷ z ∷ l) = ap (◌∷◌ x) (drop_last-set_last_line n (y ∷ z ∷ l))

functions-set_last_line :
    (n : ℕ) (l : List CallSiteId) → functions (set_last_line n l) ≡ functions l
unfolding set_last_line
functions-set_last_line n [] = refl
functions-set_last_line n (x ∷ []) = refl
functions-set_last_line n (x ∷ y ∷ l) = ap (◌∷◌ x.function) (functions-set_last_line n (y ∷ l))

run_events-append :
    (es fs : List Event) (s : Callstack) → run_events (es ++ fs) s ≡ run_events fs (run_events es s)
unfolding run_events
run_events-append [] fs s = refl
run_events-append (e ∷ es) fs s = run_events-append es fs (run_event e s)

-- What a call leaves behind when it has finished.
after_call : ℕ → Callstack → Callstack
after_call parent s = record {
  calls = if not (parent == 0) then set_last_line parent s.calls else s.calls;
}

finish-start_call :
    (parent : ℕ) (site : CallSiteId) (s t : Callstack)
    → callers t ≡ callers (start_call s parent site)
    → finish_call t ≡ after_call parent s
unfolding finish_call start_call after_call
finish-start_call parent site s t e =
    ap (λ (l : List CallSiteId). record { calls = l }) (e ∙ drop_last-push _ site)

-- The frames below are as they were, and so are the functions of all frames.
abbrev pub SameFrames : Callstack → Callstack → Type 0
SameFrames s t = (callers t ≡ callers s) × (functions t.calls ≡ functions s.calls)

after_call-SameFrames : (parent : ℕ) (s : Callstack) → SameFrames s (after_call parent s)
unfolding after_call
after_call-SameFrames parent s =
    ground (arith, drop_last-set_last_line parent s.calls, functions-set_last_line parent s.calls)

new_line_number-SameFrames : (n : ℕ) (s : Callstack) → SameFrames s (new_line_number s n)
unfolding new_line_number
new_line_number-SameFrames n s =
    (drop_last-set_last_line n s.calls, functions-set_last_line n s.calls)

run_events-call :
    (parent : ℕ) (site : CallSiteId) (body rest : List Event) (s : Callstack)
    → run_events (start parent site ∷ body ++ finish ∷ rest) s
      ≡ run_events rest (finish_call (run_events body (start_call s parent site)))
unfolding run_events
run_events-call parent site body rest s =
    run_events-append body (finish ∷ rest) (start_call s parent site)

-- After a balanced sequence of events (line changes, and calls that each finish) a callstack has
-- the functions that it had before, and the same lines in all frames but the last.
pub run_events-SameFrames :
    {es : List Event} (s : Callstack) → IsBalanced es → SameFrames s (run_events es s)
unfolding run_events
run_events-SameFrames s nothing = (refl, refl)
run_events-SameFrames s (moves n b) =
    let (below, names) = run_events-SameFrames (new_line_number s n) b in
    let (kept, same) = new_line_number-SameFrames n s in (below ∙ kept, names ∙ same)
run_events-SameFrames s (calls parent site {body} {rest} b r e) =
    let t = start_call s parent site in
    let (below, names) = run_events-SameFrames t b in
    let back : finish_call (run_events body t) ≡ after_call parent s =
      finish-start_call parent site s (run_events body t) below in
    let (below', names') = run_events-SameFrames (after_call parent s) r in
    let (kept, same) = after_call-SameFrames parent s in
    rw (e, run_events-call parent site body rest s, back) (below' ∙ kept, names' ∙ same)
