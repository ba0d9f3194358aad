-- ===== src/Interface/Adding.antt =====
-- `pymemprofile_add_allocation` and `pymemprofile_add_anon_mmap` of memapi/src/lib.rs on a process that
-- is ready.
use filprofiler.Base.{
  ℕ, ◌+◌, ◌<◌, ◌≡◌, ◌≢◌, Bool, true, false, if◌then◌else◌, List, Option, none, lookup, done,
  Outcome, subst, sym, ap, ◌∙◌, arith, ℕ_discrete,
}
use filprofiler.Word.{usize_mod, u32_mod}
use filprofiler.Text.{Memory}
use filprofiler.Callstack.{Callstack}
use filprofiler.RangeMap.Disjoint.{IsFree}
use filprofiler.Allocation.Rounding.{tracked}
use filprofiler.Tracker
use filprofiler.Tracker.{AllocationTracker, new_tracker, check_if_new_peak}
use filprofiler.Tracker.Accounting.Allocating.{add_allocation-Allocates}
use filprofiler.Tracker.Accounting.Mapping.{add_anon_mmap-Maps}
use filprofiler.Tracker.History.{IsSound, Allocates-IsSound, Maps-IsSound, allocates, maps}
use filprofiler.Tracker.History
use filprofiler.Profile.{Profile, profile, change}
use filprofiler.Profile.Refinement.{profile-Allocates, profile-Maps}
use filprofiler.Process
use filprofiler.Process.Charging.{current_callstack-at_known_line}
use filprofiler.Callstack.Frames.{at_known_line}
use filprofiler.Process.{Process, oom_break_glass}
use filprofiler.Dump.{Disk, Options}
use filprofiler.Oom.{Fork, Exit, oom_dump}
use filprofiler.Oom.Exits.{oom_dump-exits}
use filprofiler.Interface.{World, runs, ended, Call, add_or_end}
use filprofiler.Interface.Ready.{IsReady, IsAtNull, HasOutput, IsGood, follow, move}

-- The tracker's part of a call that adds.
abbrev pub adding : Bool → AllocationTracker → ℕ → ℕ → Callstack → Outcome AllocationTracker
adding is_mmap t address size cs =
    if is_mmap
    then Tracker.add_anon_mmap t address size cs
    else Tracker.add_allocation t address size cs

-- The call of the tracker.
abbrev pub adds : Bool → ℕ → ℕ → Callstack → History.Call
adds is_mmap address size cs = if is_mmap then maps address size cs else allocates address size cs

-- The tracker's part returns with a sound tracker, the same path, and nothing new at the null pointer
-- unless that is the address; its profile follows.
abbrev pub Adds : Bool → AllocationTracker → ℕ → ℕ → Callstack → Type 0
Adds is_mmap t address size cs =
    (t' : AllocationTracker) × (adding is_mmap t address size cs ≡ done t')
    × IsSound t'
    × (t'.default_path ≡ t.default_path)
    × (profile t' ≡ change (adds is_mmap address size cs) (profile t))
    × (address ≢ 0
        → lookup ℕ_discrete 0 t'.current_allocations ≡ lookup ℕ_discrete 0 t.current_allocations)

module _ (t : AllocationTracker) (s : IsSound t) (address size : ℕ) (cs : Callstack) where
  pub adding_block :
      lookup ℕ_discrete address t.current_allocations ≡ none
      → t.interner.max_id + 1 < u32_mod
      → t.current_allocated_bytes + tracked 0 size < usize_mod
      → Adds false t address size cs
  adding_block fresh ids room =
      let (t', ran, a, e) = add_allocation-Allocates t address size cs s.accounted fresh ids room in
      (
        t',
        ran,
        Allocates-IsSound t t' s a address size cs e,
        e.same_path,
        profile-Allocates t s.accounted t' a address size cs e,
        λ ne. e.others 0 (λ q. ne (sym q)),
      )

  pub adding_pages :
      IsFree t.current_anon_mmaps address size
      → address + size < usize_mod
      → t.interner.max_id + 1 < u32_mod
      → t.current_allocated_bytes + size < usize_mod
      → Adds true t address size cs
  adding_pages free bound ids room =
      let (t', ran, a, e) = add_anon_mmap-Maps t address size cs s.accounted bound ids room in
      (
        t',
        ran,
        Maps-IsSound t t' s a address size cs free e,
        e.same_path,
        profile-Maps t s.accounted t' a address size cs e free,
        λ ne. ap (lookup ℕ_discrete 0) e.same_allocations,
      )

module _ (memory : Memory) (from_files : Options → Option (List ℕ) → List ℕ × Bool)
    (mib_text : ℕ → List ℕ) (fork : Fork) (t : ℕ) (d : Disk) where
  -- A call that adds at an address other than 0.
  goes_on :
      (p : Process) (address size line : ℕ) (is_mmap : Bool) (u : AllocationTracker)
      → address ≢ 0
      → adding is_mmap p.allocations address size (at_known_line line (p.threads t)) ≡ done u
      → add_or_end memory from_files mib_text fork p d t address size line is_mmap
        ≡ done (runs (record p { allocations = u }) d)
  unfolding add_or_end Process.add_allocation
  goes_on p address size line is_mmap u ne ran =
      let ran' =
        ap (adding is_mmap p.allocations address size) (current_callstack-at_known_line p t line)
        ∙ ran in
      ground (arith, ne, ran')

  -- A call that adds at 0.
  ends :
      (p : Process) (address size line : ℕ) (is_mmap : Bool) (u : AllocationTracker) (e : Exit)
      → address ≡ 0
      → adding is_mmap
          (oom_break_glass p.allocations)
          address
          size
          (at_known_line line (p.threads t))
        ≡ done u
      → oom_dump from_files mib_text memory fork d u ≡ done e
      → add_or_end memory from_files mib_text fork p d t address size line is_mmap ≡ done (ended e)
  unfolding add_or_end Process.add_allocation
  ends p address size line is_mmap u e q ran gone =
      let ran' =
        ap (adding is_mmap (oom_break_glass p.allocations) address size)
          (current_callstack-at_known_line p t line)
        ∙ ran in
      ground (arith, q, ran', gone)

  -- A call that adds, whatever the address.
  pub add_or_end-IsGood :
      (p : Process) (c : Call) (address size line : ℕ) (is_mmap : Bool)
      → IsReady p
      → (IsAtNull c ≡ (address ≡ 0))
      → ((q : Profile)
          → follow p t c q
            ≡ change (adds is_mmap address size (at_known_line line (p.threads t))) q)
      → ((cs : Callstack) → move c cs ≡ cs)
      → Adds is_mmap p.allocations address size (at_known_line line (p.threads t))
      → Adds is_mmap (oom_break_glass p.allocations) address size (at_known_line line (p.threads t))
      → (address ≡ 0 → HasOutput p d)
      → (w : World) × (add_or_end memory from_files mib_text fork p d t address size line is_mmap
          ≡ done w)
        × IsGood p t c w
  unfolding oom_break_glass
  add_or_end-IsGood p c address size line is_mmap r null follows moves adds broken output =
      elim (ℕ_discrete address 0) [
        | yes q ↦
            let (u, ran, s, path, _, _) = broken in
            let (e, gone, code, _) =
              oom_dump-exits from_files mib_text memory fork d u s.accounted (rw path (output q)) in
            (
              ended e,
              ends p address size line is_mmap u e q ran gone,
              (code, subst (λ (X : Type 0). X) (sym null) q),
            )
        | no ne ↦
            let (u, ran, s, _, profiled, kept) = adds in
            (
              runs (record p { allocations = u }) d,
              goes_on p address size line is_mmap u ne ran,
              record {
                ready = record { sound = s; no_null = kept ne ∙ r.no_null };
                not_null = λ x. ne (subst (λ (X : Type 0). X) null x);
                followed = profiled ∙ sym (follows (profile p.allocations));
                moved = λ v. ground (arith, moves (p.threads t));
              },
            )
      ]
