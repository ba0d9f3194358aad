-- ===== src/Interface/Serving.antt =====
-- The calls of memapi/src/lib.rs on a process that is ready.
use filprofiler.Word.{usize_mod}
use filprofiler.Tracker.{AllocationTracker, check_if_new_peak, new_tracker}
use filprofiler.Base.{
  none, ◌<◌, ◌+◌, sym, ℕ, ◌≡◌, Bool, true, false, List, Option, lookup, done, refl, ap, ◌∙◌, arith,
  ℕ_discrete,
}
use filprofiler.Text.{Memory, text}
use filprofiler.Tracker.Accounting.{check_if_new_peak-IsAccounted}
use filprofiler.Tracker.Accounting.Freeing.{free_allocation-Frees, untracked-Frees}
use filprofiler.Tracker.Accounting.Unmapping.{free_anon_mmap-Unmaps}
use filprofiler.Tracker.History.HighWater.{new_tracker-IsSound}
use filprofiler.Profile.Refinement.{profile-Frees, profile-Frees-none, profile-Unmaps}
use filprofiler.Profile.Runs.{profile-new_tracker}
use filprofiler.Process
use filprofiler.Process.{Process, oom_break_glass}
use filprofiler.Dump.{Disk, Options, dump_peak_to_flamegraph}
use filprofiler.Dump.Errors.{dump_to_flamegraph-ChangesOnly}
use filprofiler.Oom.{Fork}
use filprofiler.Interface.{
  World, runs, Call, add_allocation, add_anon_mmap, free_allocation, free_anon_mmap, start_call,
  finish_call, new_line_number, reset, dump_peak, serve, pymemprofile_start_call,
  pymemprofile_finish_call, pymemprofile_new_line_number, pymemprofile_free_allocation,
  pymemprofile_free_anon_mmap, pymemprofile_reset, pymemprofile_add_allocation,
  pymemprofile_add_anon_mmap, pymemprofile_dump_peak_to_flamegraph,
}
use filprofiler.Interface.Ready.{
  IsReady, IsServable, IsGood, new_tracker-no_null, oom_break_glass-IsSound, Serves, move, IsAtNull,
  follow,
}
use filprofiler.Tracker.History.{IsSound, Frees-IsSound, Unmaps-IsSound}
use filprofiler.Tracker
use filprofiler.Callstack.{CallSiteId, Callstack}
use filprofiler.Callstack.Frames.{
  at_known_line, start_call-at_known_line, finish_call-returned, new_line_number-at_line,
}
use filprofiler.Profile.{Profile, profile}
use filprofiler.Interface.Adding.{adding_block, adding_pages, add_or_end-IsGood}

module _ (memory : Memory) (from_files : Options → Option (List ℕ) → List ℕ × Bool)
    (mib_text : ℕ → List ℕ) (fork : Fork) (t : ℕ) (d : Disk) where
  -- A call that moves no callstack, and leaves the tracker `u`.
  Serves-still :
      (p : Process) (c : Call) (u : AllocationTracker)
      → IsSound u
      → lookup ℕ_discrete 0 u.current_allocations ≡ none
      → profile u ≡ follow p t c (profile p.allocations)
      → ((cs : Callstack) → move c cs ≡ cs)
      → ¬ IsAtNull c
      → Serves p t c (record p { allocations = u })
  Serves-still p c u sound null followed still alive = record {
    ready = record { sound = sound; no_null = null };
    not_null = alive;
    followed = followed;
    moved = λ v. ground (arith, still (p.threads t));
  }

  -- A call that moves the thread's callstack.
  Serves-moving :
      (p : Process) (c : Call) (f : Callstack → Callstack)
      → IsReady p
      → ((q : Profile) → follow p t c q ≡ q)
      → ((cs : Callstack) → f cs ≡ move c cs)
      → ¬ IsAtNull c
      → Serves p t c (Process.with_callstack p t f)
  unfolding Process.with_callstack
  Serves-moving p c f r followed moves alive = record {
    ready = record { sound = r.sound; no_null = r.no_null };
    not_null = alive;
    followed = sym (followed (profile p.allocations));
    moved = λ v. elim (ℕ_discrete v t) [
      | yes q ↦ ground (arith, q, ap (λ x. f (p.threads x)) q, moves (p.threads t))
      | no q ↦ ground (arith, q)
    ];
  }

  serve_free :
      (p : Process) (address : ℕ)
      → IsReady p
      → (u : AllocationTracker) × (Tracker.free_allocation p.allocations address ≡ done u)
        × Serves p t (free_allocation address) (record p { allocations = u })
  serve_free p address r =
      let (u, ran, a, e) = free_allocation-Frees p.allocations address r.sound.accounted in
      (
        u,
        ran,
        Serves-still p (free_allocation address) u
            (Frees-IsSound p.allocations u r.sound a address e)
            (elim (ℕ_discrete 0 address) [
              | yes q ↦ ap (λ x. lookup ℕ_discrete x u.current_allocations) q ∙ e.gone
              | no ne ↦ e.others 0 ne ∙ r.no_null
            ])
            (profile-Frees p.allocations r.sound.accounted u a address e) (λ k. refl) (λ x. x),
      )

  serve_unmap :
      (p : Process) (address length : ℕ)
      → IsReady p
      → address + length < usize_mod
      → (u : AllocationTracker) × (Tracker.free_anon_mmap p.allocations address length ≡ done u)
        × Serves p t (free_anon_mmap address length) (record p { allocations = u })
  serve_unmap p address length r bound =
      let (u, ran, a, e) =
        free_anon_mmap-Unmaps p.allocations address length r.sound.accounted bound in
      (
        u,
        ran,
        Serves-still p (free_anon_mmap address length) u
            (Unmaps-IsSound p.allocations u r.sound a address length e)
            (ap (lookup ℕ_discrete 0) e.same_allocations ∙ r.no_null)
            (profile-Unmaps p.allocations r.sound.accounted u a address length r.sound.disjoint e)
            (λ k. refl) (λ x. x),
      )

  -- The peak that a dump records was already that of the profile.
  serve_checked :
      (p : Process) (pointer : ℕ)
      → IsReady p
      → Serves p t (dump_peak pointer) (record p { allocations = check_if_new_peak p.allocations })
  serve_checked p pointer r =
      let u = check_if_new_peak p.allocations in
      let a = check_if_new_peak-IsAccounted p.allocations r.sound.accounted in
      let e = untracked-Frees p.allocations 0 r.no_null in
      Serves-still p (dump_peak pointer) u (Frees-IsSound p.allocations u r.sound a 0 e) e.gone
        (profile-Frees-none p.allocations r.sound.accounted u a 0 e r.no_null) (λ k. refl) (λ x. x)

  -- When a process is ready (its tracker is sound and tracks nothing at the null pointer) and what
  -- a call of the C code asks for holds (for an addition a free address or free addresses that end
  -- within the word size, with room for one more id and for the bytes, and for a failed one an
  -- output directory; addresses within the word size for an unmapping; a path in UTF-8 for a reset,
  -- and that of a directory for a dump), the call returns. Either the process goes on: the call did
  -- not report a null pointer, the process is ready again, its tracker's profile has followed the
  -- call, with what is added charged to the calling thread's callstack, its running frame at the
  -- call's line unless that is 0; and no callstack has moved but the calling thread's: by a start
  -- of a function, which puts its frame on top and sets its caller's line unless that is 0, by a
  -- return, which takes the running frame off, and by a new line, which the running frame then has.
  -- Or the call reported a null pointer, and the process has ended with code 5.
  pub serve-IsGood :
      (c : Call) (p : Process)
      → IsReady p
      → IsServable memory p d c
      → (w : World) × (serve memory from_files mib_text fork t c p d ≡ done w) × IsGood p t c w
  unfolding serve oom_break_glass pymemprofile_start_call pymemprofile_finish_call
      pymemprofile_new_line_number pymemprofile_free_allocation pymemprofile_free_anon_mmap
      pymemprofile_reset pymemprofile_add_allocation pymemprofile_add_anon_mmap
      pymemprofile_dump_peak_to_flamegraph dump_peak_to_flamegraph Process.free_allocation
      Process.free_anon_mmap Process.reset Process.start_call Process.finish_call
      Process.new_line_number
  serve-IsGood (add_allocation address size line) p r (fresh, ids, room, output) =
      let cs = at_known_line line (p.threads t) in
      let s = r.sound in
      add_or_end-IsGood memory from_files mib_text fork t d p (add_allocation address size line)
        address size line false r refl (λ q. refl) (λ k. refl)
        (adding_block p.allocations s address size cs fresh ids room)
        (adding_block (oom_break_glass p.allocations) (oom_break_glass-IsSound p.allocations s)
          address size cs fresh ids room)
        output
  serve-IsGood (add_anon_mmap address size line) p r (free, bound, ids, room, output) =
      let cs = at_known_line line (p.threads t) in
      let s = r.sound in
      add_or_end-IsGood memory from_files mib_text fork t d p (add_anon_mmap address size line)
        address size line true r refl (λ q. refl) (λ k. refl)
        (adding_pages p.allocations s address size cs free bound ids room)
        (adding_pages (oom_break_glass p.allocations) (oom_break_glass-IsSound p.allocations s)
          address size cs free bound ids room)
        output
  serve-IsGood (free_allocation address) p r _ =
      let (u, ran, g) = serve_free p address r in
      (runs (record p { allocations = u }) d, rw ran refl, g)
  serve-IsGood (free_anon_mmap address length) p r bound =
      let (u, ran, g) = serve_unmap p address length r bound in
      (runs (record p { allocations = u }) d, rw ran refl, g)
  serve-IsGood (start_call parent_line function_loc line) p r _ =
      let site : CallSiteId = record {
        function = record { function = function_loc };
        line_number = line;
      } in
      (
        _,
        refl,
        Serves-moving p (start_call parent_line function_loc line) _ r (λ q. refl)
            (λ cs. start_call-at_known_line cs parent_line site) (λ x. x),
      )
  serve-IsGood finish_call p r _ =
      (_, refl, Serves-moving p finish_call _ r (λ q. refl) finish_call-returned (λ x. x))
  serve-IsGood (new_line_number line) p r _ = (
    _,
    refl,
    Serves-moving p (new_line_number line) _ r (λ q. refl) (λ cs. new_line_number-at_line cs line)
        (λ x. x),
  )
  serve-IsGood (reset pointer) p r (path, known) = (
    runs (Process.reset p path) d,
    rw known refl,
    Serves-still p (reset pointer) (new_tracker path) (new_tracker-IsSound path)
        (new_tracker-no_null path) (profile-new_tracker path) (λ k. refl) (λ x. x),
  )
  serve-IsGood (dump_peak pointer) p r (path, known, there) =
      let (d', ran, _) =
        dump_to_flamegraph-ChangesOnly from_files mib_text memory d p.allocations path true
          (text "peak-memory") (text "Peak Tracked Memory Usage") true r.sound.accounted there in
      (
        runs (record p { allocations = check_if_new_peak p.allocations }) d',
        rw (known, ran) refl,
        serve_checked p pointer r,
      )
