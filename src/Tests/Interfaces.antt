-- ===== src/Tests/Interfaces.antt =====
-- Runs of the lemmas on the calls of memapi/src/lib.rs, on their profile and on the end of memory
-- (memapi/src/memorytracking.rs), on concrete processes.
use filprofiler.Base.{
  ℕ, ◌<◌, ◌≡◌, ◌≢◌, ◌⊎◌, ◌==◌, if◌then◌else◌, refl, arith, List, ◌∷◌, [], ℕ_discrete, true, false,
  some, lookup, done, panic, All,
}
use filprofiler.Word.{add_u32, add_usize}
use filprofiler.Text.{decimal, bytes_at, Memory}
use filprofiler.HashMap
use filprofiler.Interner
use filprofiler.Callstack
use filprofiler.Callstack.{Callstack, Callstack-discrete, new_callstack}
use filprofiler.Allocation.{new_allocation, size}
use filprofiler.Allocation.Rounding.{size-new_allocation_small, tracked}
use filprofiler.Tracker
use filprofiler.Tracker.{AllocationTracker, new_tracker, check_if_new_peak}
use mathlib.Core.List.{Perm}
use filprofiler.Profile.{AreAllowed, change, Profile, profile, replay, nothing_used}
use filprofiler.Profile.Lines.{to_lines-run-perm}
use filprofiler.Tests.{flat, busy, busy-IsAccounted, busy-IsDisjoint, all_a, deep}
use filprofiler.Tracker.History.{Call, allocates, maps, frees, IsSound}
use filprofiler.Profile.Runs.{run, run-new_tracker_refines}
use filprofiler.Profile.Shown.{Any, IsLineOf}
use filprofiler.Process
use filprofiler.Process.{Process, new_process, current_callstack}
use filprofiler.Report.{to_lines}
use filprofiler.Dump.{Path-discrete, directory, Disk}
use filprofiler.CString.{is_utf8, path_argument}
use filprofiler.CString.Reading.{path_argument-bytes_at}
use filprofiler.Oom.{parent, child, Exit, oom_dump}
use filprofiler.Oom.Exits.{Frees, oom_dump-exits}
use filprofiler.Interface.{
  World, runs, add_allocation, start_call, serve, pymemprofile_start_call,
  pymemprofile_add_allocation, add_or_end,
}
use filprofiler.Interface.Ready.{IsGood, follow}
use filprofiler.Interface.Serving.{serve-IsGood}
use filprofiler.Interface.Reach.{
  Reaches, begin, serves, IsSafe, Reaches-IsSafe, Reaches-goes_on, Reaches-IsLineOf,
}
use filprofiler.Tests.Dumps.{copied}

run-new_tracker_refines_example :
    (t : AllocationTracker) × (run (allocates 1 1000 deep ∷ frees 1 ∷ []) (new_tracker []) ≡ done t)
    × IsSound t
    × (profile t ≡ replay (allocates 1 1000 deep ∷ frees 1 ∷ []) nothing_used)
run-new_tracker_refines_example =
    run-new_tracker_refines [] (allocates 1 1000 deep ∷ frees 1 ∷ []) (omega arith)
      ((refl, omega (arith, size-new_allocation_small 0 1000 (omega arith))), (tt, tt))

-- A disk with an output directory, on which the first operation fails.
abbrev output_disk : Disk
output_disk = record { entries = ([], directory) ∷ []; faults = some 0 ∷ []; messages = [] }

oom_dump-exits_example :
    (e : Exit) × (oom_dump copied decimal all_a child output_disk busy ≡ done e)
    × (e.code ≡ 5)
    × (((child ≡ parent) × (e.freed ≡ []) × (e.disk.entries ≡ output_disk.entries))
        ⊎ ((child ≢ parent) × Frees output_disk busy e))
unfolding lookup Path-discrete
oom_dump-exits_example =
    oom_dump-exits copied decimal all_a child output_disk busy busy-IsAccounted refl

-- The path "a/" at 8.
abbrev with_path : Memory
with_path = record {
  byte = λ p. if p == 8 then b'a' else if p == 9 then b'/' else 0;
  location = all_a.location;
}

path_argument-bytes_at_example :
    path_argument with_path 8
    ≡ (if is_utf8 (bytes_at with_path 8 2) then done (bytes_at with_path 8 2) else panic)
path_argument-bytes_at_example =
    path_argument-bytes_at with_path 8 2 (omega arith)
      (record { ends = refl; text = λ k h. ground (arith, h) })

-- A failed allocation of a process with the allocations of `busy`.
abbrev busy_process : Process
busy_process = record { threads = λ t. deep; allocations = busy }

serve-IsGood_example :
    (w : World) × (serve all_a copied decimal child 1
        (add_allocation 0 5000 9)
        busy_process
        output_disk
      ≡ done w)
    × IsGood busy_process 1 (add_allocation 0 5000 9) w
unfolding lookup ℕ_discrete Path-discrete
serve-IsGood_example =
    serve-IsGood all_a copied decimal child 1 output_disk (add_allocation 0 5000 9) busy_process
      (record {
        sound = record { accounted = busy-IsAccounted; disjoint = busy-IsDisjoint };
        no_null = refl;
      })
      (refl, omega arith, omega (arith, size-new_allocation_small 0 5000 (omega arith)), λ _. refl)

-- A call of the function 7, then an allocation of 1000 bytes at 16, on the line 9.
abbrev called : Callstack
called = record { calls = record { function = record { function = 7 }; line_number = 3 } ∷ [] }

abbrev at_line : Callstack
at_line = record { calls = record { function = record { function = 7 }; line_number = 9 } ∷ [] }

abbrev in_call : Process
in_call = pymemprofile_start_call (new_process []) 0 1 7 3

abbrev after_allocation : Process
after_allocation = record in_call {
  allocations = record {
    current_allocations = (16, record { callstack_id = 0; compressed_size = 1000 }) ∷ [];
    current_anon_mmaps = record { ranges = [] };
    interner = record { max_id = 1; callstack_to_id = (at_line, 0) ∷ [] };
    current_memory_usage = 1000 ∷ [];
    peak_memory_usage = [];
    current_allocated_bytes = 1000;
    peak_allocated_bytes = 0;
    spare_memory = 16777216;
    default_path = [];
  };
}

in_call-Reaches : Reaches copied decimal (runs in_call output_disk) nothing_used
unfolding serve
in_call-Reaches =
    serves (begin [] output_disk) all_a parent 0 (start_call 1 7 3) output_disk tt refl

allocated :
    serve all_a copied decimal parent 0 (add_allocation 16 1000 9) in_call output_disk
    ≡ done (runs after_allocation output_disk)
unfolding serve pymemprofile_add_allocation add_or_end Process.add_allocation current_callstack
    pymemprofile_start_call Process.start_call Process.with_callstack Callstack.start_call
    Callstack.new_line_number Callstack.is_empty Callstack.set_last_line new_process
    Tracker.add_allocation new_tracker Tracker.get_callstack_id Interner.get_or_insert_id
    Callstack-discrete lookup HashMap.insert HashMap.remove Tracker.add_memory_usage new_allocation
    size ℕ_discrete add_u32 add_usize
allocated = refl

abbrev one_allocation : Profile
one_allocation = follow in_call 0 (add_allocation 16 1000 9) nothing_used

after_allocation-Reaches : Reaches copied decimal (runs after_allocation output_disk) one_allocation
unfolding lookup new_tracker new_process pymemprofile_start_call Process.start_call
    Process.with_callstack
after_allocation-Reaches =
    serves in_call-Reaches all_a parent 0 (add_allocation 16 1000 9) output_disk
      (
        refl,
        omega arith,
        omega (arith, size-new_allocation_small 0 1000 (omega arith)),
        λ e. absurd (omega (arith, e)),
      )
      allocated

Reaches-IsSafe_example : IsSafe (runs after_allocation output_disk) one_allocation
Reaches-IsSafe_example = Reaches-IsSafe copied decimal after_allocation-Reaches

Reaches-goes_on_example :
    (w : World) × (serve all_a copied decimal child 0
        (add_allocation 0 50 9)
        after_allocation
        output_disk
      ≡ done w)
    × IsGood after_allocation 0 (add_allocation 0 50 9) w
    × Reaches copied decimal w (follow after_allocation 0 (add_allocation 0 50 9) one_allocation)
unfolding lookup ℕ_discrete Path-discrete
Reaches-goes_on_example =
    Reaches-goes_on copied decimal after_allocation-Reaches all_a child 0 (add_allocation 0 50 9)
      output_disk
      (refl, omega arith, omega (arith, size-new_allocation_small 0 50 (omega arith)), λ _. refl)

Reaches-IsLineOf_example :
    (lines : List (List ℕ)) × (to_lines all_a after_allocation.allocations true false
      ≡ done (check_if_new_peak after_allocation.allocations, lines))
    × All (λ l. (cs : Callstack) × IsLineOf all_a false one_allocation cs l) lines
    × ((cs : Callstack)
        → 0 < one_allocation.peak_usage cs
        → Any (IsLineOf all_a false one_allocation cs) lines)
Reaches-IsLineOf_example = Reaches-IsLineOf copied decimal after_allocation-Reaches all_a false

-- The same block and the same mapping, in two orders and at other addresses.
abbrev block_first : List Call
block_first = allocates 1 1000 deep ∷ maps 100 50 flat ∷ []

abbrev mapping_first : List Call
mapping_first = maps 700 50 flat ∷ allocates 2 1000 deep ∷ []

block_size : tracked 0 1000 ≡ 1000
block_size = size-new_allocation_small 0 1000 (omega arith)

block_first-AreAllowed : AreAllowed nothing_used block_first
unfolding change
block_first-AreAllowed =
    ((refl, omega (arith, block_size)), ((λ a h. refl, omega arith, omega (arith, block_size)), tt))

mapping_first-AreAllowed : AreAllowed nothing_used mapping_first
unfolding change
mapping_first-AreAllowed =
    ((λ a h. refl, omega arith, omega arith), ((refl, omega (arith, block_size)), tt))

same_peak :
    (k : Callstack)
    → (replay block_first nothing_used).peak_usage k
      ≡ (replay mapping_first nothing_used).peak_usage k
unfolding replay change
same_peak k = ground (arith, block_size)

to_lines-run-perm_example :
    (t t' : AllocationTracker) × (lines lines' : List (List ℕ)) × (run block_first (new_tracker [])
      ≡ done t)
    × (run mapping_first (new_tracker []) ≡ done t')
    × (to_lines all_a t true true ≡ done (check_if_new_peak t, lines))
    × (to_lines all_a t' true true ≡ done (check_if_new_peak t', lines'))
    × Perm lines lines'
to_lines-run-perm_example =
    to_lines-run-perm all_a true [] [] block_first mapping_first (omega arith) (omega arith)
      block_first-AreAllowed mapping_first-AreAllowed same_peak
