-- ===== src/Tests/Stacks.antt =====
-- Runs of the lemmas on callstacks, the interner, the compressed sizes and the text of a callstack
-- (memapi/src/memorytracking.rs) on concrete data.
use filprofiler.Base.{
  ℕ, ◌+◌, ◌/◌, ◌%◌, ◌≤◌, ◌<◌, ◌≡◌, ◌↔◌, refl, arith, ◌∷◌, [], ℕ_discrete, true, some, lookup,
}
use filprofiler.Callstack.{in_python}
use filprofiler.Callstack.Balance.{
  start, finish, line, nothing, moves, calls, run_events, SameFrames, run_events-SameFrames,
}
use filprofiler.Interner.{get_or_insert_id, get_reverse_map}
use filprofiler.Interner.Numbering.{Interns, id_of, get_or_insert_id-Interns}
use filprofiler.Interner.Reverse.{get_reverse_map_iff}
use filprofiler.Allocation.{mib, new_allocation}
use filprofiler.Allocation.Rounding.{tracked, size-new_allocation_large, compressed_size-lt}
use filprofiler.Word.{u32_mod}
use filprofiler.Text.{as_string, get_filename, get_function_name, bytes_at}
use filprofiler.Text.Frames.{split, all_parts, split-as_string}
use filprofiler.Process.{new_process}
use filprofiler.Process.Threads.{trace_all, events_of, trace_all-threads}
use filprofiler.Tests.{inner_call, deep, flat, one_callstack, one_callstack-IsNumbered, all_a}

get_or_insert_id-Interns_example :
    Interns one_callstack flat
      (λ (n : ℕ). n + 1)
      5
      (get_or_insert_id one_callstack flat (λ (n : ℕ). n + 1) 5)
get_or_insert_id-Interns_example =
    get_or_insert_id-Interns one_callstack flat (λ (n : ℕ). n + 1) 5 one_callstack-IsNumbered
      (omega arith)

get_reverse_map_iff_example :
    (lookup ℕ_discrete 0 (get_reverse_map one_callstack) ≡ some deep)
    ↔ (id_of one_callstack deep ≡ some 0)
get_reverse_map_iff_example = get_reverse_map_iff one_callstack deep 0 one_callstack-IsNumbered

size-new_allocation_large_example :
    (tracked 0 2147483649 ≤ 2147483649 + mib / 2)
    × (2147483649 ≤ tracked 0 2147483649 + mib / 2)
    × (tracked 0 2147483649 % mib ≡ 0)
size-new_allocation_large_example =
    size-new_allocation_large 0 2147483649 (omega arith) (omega arith)

compressed_size-lt_example : (new_allocation 0 2147483648).compressed_size < u32_mod
compressed_size-lt_example = compressed_size-lt 0 2147483648 (omega arith)

-- At line 5 a function is called, which moves to its line 7 and returns.
run_events-SameFrames_example :
    SameFrames deep (run_events (line 4 ∷ start 5 inner_call ∷ line 7 ∷ finish ∷ line 6 ∷ []) deep)
run_events-SameFrames_example =
    run_events-SameFrames deep
      (moves 4 (calls 5 inner_call (moves 7 nothing) (moves 6 nothing) refl))

trace_all-threads_example :
    (trace_all ((1, start 5 inner_call) ∷ (2, line 3) ∷ (1, line 9) ∷ []) (new_process [])).threads
      1
    ≡ run_events
        (events_of 1 ((1, start 5 inner_call) ∷ (2, line 3) ∷ (1, line 9) ∷ []))
        ((new_process []).threads 1)
trace_all-threads_example =
    trace_all-threads 1 ((1, start 5 inner_call) ∷ (2, line 3) ∷ (1, line 9) ∷ []) (new_process [])

split-as_string_example : split b';' (as_string all_a deep true) ≡ all_parts all_a true deep.calls
unfolding get_filename get_function_name bytes_at in_python
split-as_string_example =
    split-as_string all_a true deep
      (((omega arith, tt), (omega arith, tt)), (((omega arith, tt), (omega arith, tt)), tt)) refl
