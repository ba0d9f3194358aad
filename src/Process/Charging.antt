-- ===== src/Process/Charging.antt =====
-- The callstack to which `add_allocation` of memapi/src/memorytracking.rs charges what it adds.
use filprofiler.Base.{ℕ, ◌≡◌, arith}
use filprofiler.Callstack.{is_empty}
use filprofiler.Callstack.Frames.{at_known_line, new_line_number-at_line}
use filprofiler.Process.{Process, current_callstack}

-- It is the calling thread's, at the line that the caller gives unless that is 0.
pub current_callstack-at_known_line :
    (p : Process) (t line : ℕ) → current_callstack p t line ≡ at_known_line line (p.threads t)
unfolding current_callstack is_empty
current_callstack-at_known_line p t line =
    ground (arith, new_line_number-at_line (p.threads t) line)
