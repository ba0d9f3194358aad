-- ===== src/Interface/Ready.antt =====
-- What holds of a process between the calls of memapi/src/lib.rs, and what each call asks for.
use filprofiler.Base.{
  ℕ, ◌+◌, ◌<◌, ◌≡◌, ◌==◌, if◌then◌else◌, List, [], ◌∷◌, ◌++◌, some, none, lookup, done, refl,
  ℕ_discrete,
}
use filprofiler.Word.{usize_mod, u32_mod}
use filprofiler.Text.{Memory}
use filprofiler.RangeMap.Disjoint.{IsFree}
use filprofiler.Allocation.Rounding.{tracked}
use filprofiler.Tracker.{AllocationTracker, new_tracker}
use filprofiler.Tracker.History.{IsSound, allocates, maps, frees, unmaps}
use filprofiler.Tracker.History.HighWater.{new_tracker-IsSound}
use filprofiler.Process.{Process, new_process, oom_break_glass}
use filprofiler.Callstack.{Callstack}
use filprofiler.Callstack.Frames.{returned, at_line, at_known_line}
use filprofiler.Profile.{Profile, profile, change, nothing_used}
use filprofiler.Dump.{Path-discrete, directory, Disk}
use filprofiler.CString.{path_argument}
use filprofiler.Interface.{
  World, runs, ended, Call, add_allocation, add_anon_mmap, free_allocation, free_anon_mmap,
  start_call, finish_call, new_line_number, reset, dump_peak,
}

-- Nothing is tracked at the null pointer, which stands for a failed allocation.
pub record IsReady (p : Process) : Type 0 where
  pub sound : IsSound p.allocations
  pub no_null : lookup ℕ_discrete 0 p.allocations.current_allocations ≡ none

-- The call reports that an allocation failed.
abbrev pub IsAtNull : Call → Type 0
IsAtNull (add_allocation address size line) = address ≡ 0
IsAtNull (add_anon_mmap address size line) = address ≡ 0
IsAtNull (free_allocation address) = ⊥
IsAtNull (free_anon_mmap address length) = ⊥
IsAtNull (start_call parent_line function_loc line) = ⊥
IsAtNull finish_call = ⊥
IsAtNull (new_line_number line) = ⊥
IsAtNull (reset pointer) = ⊥
IsAtNull (dump_peak pointer) = ⊥

-- There is an output directory for the files of a program that is out of memory.
abbrev pub HasOutput : Process → Disk → Type 0
HasOutput p d = lookup Path-discrete p.allocations.default_path d.entries ≡ some directory

-- What the allocator and the C code guarantee at a call.
abbrev pub IsServable : Memory → Process → Disk → Call → Type 0
IsServable memory p d (add_allocation address size line) =
    (lookup ℕ_discrete address p.allocations.current_allocations ≡ none)
    × (p.allocations.interner.max_id + 1 < u32_mod)
    × (p.allocations.current_allocated_bytes + tracked 0 size < usize_mod)
    × (address ≡ 0 → HasOutput p d)
IsServable memory p d (add_anon_mmap address size line) =
    IsFree p.allocations.current_anon_mmaps address size
    × (address + size < usize_mod)
    × (p.allocations.interner.max_id + 1 < u32_mod)
    × (p.allocations.current_allocated_bytes + size < usize_mod)
    × (address ≡ 0 → HasOutput p d)
IsServable memory p d (free_allocation address) = Unit {0}
IsServable memory p d (free_anon_mmap address length) = address + length < usize_mod
IsServable memory p d (start_call parent_line function_loc line) = Unit {0}
IsServable memory p d finish_call = Unit {0}
IsServable memory p d (new_line_number line) = Unit {0}
IsServable memory p d (reset pointer) = (path : List ℕ) × (path_argument memory pointer ≡ done path)
IsServable memory p d (dump_peak pointer) =
    (path : List ℕ) × (path_argument memory pointer ≡ done path)
    × (lookup Path-discrete path d.entries ≡ some directory)

-- What a call of the thread `t` does to the profile: what it adds is charged to the thread's
-- callstack, at the call's line unless that is 0.
abbrev pub follow : Process → ℕ → Call → Profile → Profile
follow p t (add_allocation address size line) =
    change (allocates address size (at_known_line line (p.threads t)))
follow p t (add_anon_mmap address size line) =
    change (maps address size (at_known_line line (p.threads t)))
follow p t (free_allocation address) = change (frees address)
follow p t (free_anon_mmap address length) = change (unmaps address length)
follow p t (start_call parent_line function_loc line) = λ q. q
follow p t finish_call = λ q. q
follow p t (new_line_number line) = λ q. q
follow p t (reset pointer) = λ q. nothing_used
follow p t (dump_peak pointer) = λ q. q

-- What a call does to the callstack of its thread.
abbrev pub move : Call → Callstack → Callstack
move (start_call parent_line function_loc line) cs = record {
  calls =
      (at_known_line parent_line cs).calls
      ++ record { function = record { function = function_loc }; line_number = line } ∷ [];
}
move finish_call cs = returned cs
move (new_line_number line) cs = at_line line cs
move _ cs = cs

-- A call that returns: the process is ready for the next one, its profile has followed the call, and
-- no callstack but that of the calling thread has moved.
pub record Serves (p : Process) (t : ℕ) (c : Call) (p' : Process) : Type 0 where
  pub ready : IsReady p'
  pub not_null : ¬ IsAtNull c
  pub followed : profile p'.allocations ≡ follow p t c (profile p.allocations)
  pub moved : (u : ℕ) → p'.threads u ≡ (if u == t then move c (p.threads t) else p.threads u)

-- What a call leaves: a process that is ready, or at a failed allocation the end with exit code 5.
abbrev pub IsGood : Process → ℕ → Call → World → Type 0
IsGood p t c (runs p' d') = Serves p t c p'
IsGood p t c (ended e) = (e.code ≡ 5) × IsAtNull c

-- The emergency memory is not part of the books.
pub oom_break_glass-IsSound : (t : AllocationTracker) → IsSound t → IsSound (oom_break_glass t)
unfolding oom_break_glass
oom_break_glass-IsSound t s =
    let a = s.accounted in
    record {
      accounted = record {
        numbered = a.numbered;
        slots = a.slots;
        unique = a.unique;
        mmaps = a.mmaps;
        allocation_ids = a.allocation_ids;
        mmap_ids = a.mmap_ids;
        usage = a.usage;
        summed = record { total = a.summed.total; fits = a.summed.fits };
        peak_total = a.peak_total;
        peak_slots = a.peak_slots;
        ids_last = a.ids_last;
      };
      disjoint = s.disjoint;
    }

pub new_tracker-no_null :
    (path : List ℕ) → lookup ℕ_discrete 0 (new_tracker path).current_allocations ≡ none
unfolding new_tracker lookup
new_tracker-no_null path = refl

pub new_process-IsReady : (path : List ℕ) → IsReady (new_process path)
unfolding new_process
new_process-IsReady path = record {
  sound = new_tracker-IsSound path;
  no_null = new_tracker-no_null path;
}
