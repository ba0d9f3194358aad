-- ===== src/Process/Threads.antt =====
-- The callstacks of the threads in memapi/src/memorytracking.rs, whose events interleave.
use filprofiler.Base.{ℕ, ◌≡◌, ◌==◌, if◌then◌else◌, List, [], ◌∷◌, refl, ◌∙◌, arith}
use filprofiler.Callstack.Balance.{
  Event, start, finish, line, run_event, run_events, IsBalanced, SameFrames, run_events-SameFrames,
}
use filprofiler.Process.{Process, start_call, finish_call, new_line_number}

-- An event of a thread, as the call that the C code makes for it.
unfoldable pub trace : Process → ℕ × Event → Process
trace p (t, start parent site) = start_call p t site.function parent site.line_number
trace p (t, finish) = finish_call p t
trace p (t, line n) = new_line_number p t n

unfoldable pub trace_all : List (ℕ × Event) → Process → Process
unfolding trace
trace_all [] p = p
trace_all (e ∷ es) p = trace_all es (trace p e)

-- The events of one thread.
abbrev pub events_of : ℕ → List (ℕ × Event) → List Event
events_of t [] = []
events_of t ((u, e) ∷ es) = if t == u then e ∷ events_of t es else events_of t es

trace_threads :
    (t u : ℕ) (e : Event) (p : Process)
    → (trace p (u, e)).threads t ≡ (if t == u then run_event e (p.threads t) else p.threads t)
unfolding trace start_call finish_call new_line_number run_event
trace_threads t u (start parent site) p = refl
trace_threads t u finish p = refl
trace_threads t u (line n) p = refl

trace-allocations : (e : ℕ × Event) (p : Process) → (trace p e).allocations ≡ p.allocations
unfolding trace start_call finish_call new_line_number
trace-allocations (u, start parent site) p = refl
trace-allocations (u, finish) p = refl
trace-allocations (u, line n) p = refl

trace_all-allocations :
    (es : List (ℕ × Event)) (p : Process) → (trace_all es p).allocations ≡ p.allocations
unfolding trace_all
trace_all-allocations [] p = refl
trace_all-allocations (e ∷ es) p = trace_all-allocations es (trace p e) ∙ trace-allocations e p

-- Whatever events of several threads come one after the other, a thread's callstack is what its own
-- events, in their order, make of it.
pub trace_all-threads :
    (t : ℕ) (es : List (ℕ × Event)) (p : Process)
    → (trace_all es p).threads t ≡ run_events (events_of t es) (p.threads t)
unfolding trace_all run_events
trace_all-threads t [] p = refl
trace_all-threads t ((u, e) ∷ es) p =
    trace_all-threads t es (trace p (u, e)) ∙ ground (arith, trace_threads t u e p)

-- The events of all threads leave the tracker alone, and a thread whose own events are balanced has
-- its frames back, with all but the running one at the same lines, whatever the others did between.
pub trace_all-SameFrames :
    (t : ℕ) (es : List (ℕ × Event)) (p : Process)
    → IsBalanced (events_of t es)
    → ((trace_all es p).allocations ≡ p.allocations)
      × SameFrames (p.threads t) ((trace_all es p).threads t)
trace_all-SameFrames t es p b = (
  trace_all-allocations es p,
  rw (trace_all-threads t es p) (run_events-SameFrames (p.threads t) b),
)
