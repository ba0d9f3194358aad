-- ===== src/Interface/Reach.antt =====
-- Every process that the calls of memapi/src/lib.rs can lead to, whatever the threads do between.
use filprofiler.Base.{ℕ, ◌<◌, ◌≡◌, Bool, true, List, Option, done, subst, ap, ◌∙◌, All}
use filprofiler.Text.{Memory}
use filprofiler.Callstack.{Callstack}
use filprofiler.Tracker.{check_if_new_peak}
use filprofiler.Process.{Process, new_process}
use filprofiler.Report.{to_lines}
use filprofiler.Dump.{Disk, Options}
use filprofiler.Oom.{Fork}
use filprofiler.Profile.{Profile, profile, nothing_used}
use filprofiler.Profile.Runs.{profile-new_tracker}
use filprofiler.Profile.Shown.{Any, IsLineOf, to_lines-IsLineOf}
use filprofiler.Interface.{World, runs, ended, Call, serve}
use filprofiler.Interface.Ready.{IsReady, IsServable, IsGood, follow, new_process-IsReady}
use filprofiler.Interface.Serving.{serve-IsGood}

-- A process that goes on is ready and has its profile; one that has ended did so with code 5.
abbrev pub IsSafe : World → Profile → Type 0
IsSafe (runs p d) q = IsReady p × (profile p.allocations ≡ q)
IsSafe (ended e) q = e.code ≡ 5

IsGood-IsSafe :
    (p : Process) (q : Profile) (t : ℕ) (c : Call) (w : World)
    → profile p.allocations ≡ q
    → IsGood p t c w
    → IsSafe w (follow p t c q)
IsGood-IsSafe p q t c (runs p' d') same g = (g.ready, g.followed ∙ ap (follow p t c) same)
IsGood-IsSafe p q t c (ended e) same g = g.0

module _ (from_files : Options → Option (List ℕ) → List ℕ × Bool) (mib_text : ℕ → List ℕ) where
  -- A world that calls have made of a new process, and the profile that they ask for. Memory and the
  -- disk may change between the calls.
  pub data Reaches : World → Profile → Type 0 where
    begin : (path : List ℕ) (d : Disk) → Reaches (runs (new_process path) d) nothing_used
    serves :
        {p : Process} {d : Disk} {q : Profile} {w : World}
        → Reaches (runs p d) q
        → (memory : Memory) (fork : Fork) (t : ℕ) (c : Call) (d' : Disk) → IsServable memory p d' c
        → serve memory from_files mib_text fork t c p d' ≡ done w
        → Reaches w (follow p t c q)

  -- Whatever calls the threads make of a new process, one after the other, each with what it asks
  -- for, and however memory and the disk change between them: a process that goes on is ready, and
  -- its tracker's profile is what the calls make of the empty profile; one that has ended did so
  -- with code 5.
  pub Reaches-IsSafe : {w : World} {q : Profile} → Reaches w q → IsSafe w q
  unfolding new_process
  Reaches-IsSafe (begin path d) = (new_process-IsReady path, profile-new_tracker path)
  Reaches-IsSafe (serves {p} {d} {q} {w} r memory fork t c d' ok e) =
      let (ready, same) = Reaches-IsSafe r in
      let (w', ran, good) = serve-IsGood memory from_files mib_text fork t d' c p ready ok in
      let is : w' ≡ w = cc (ran, e) in IsGood-IsSafe p q t c w same (subst (IsGood p t c) is good)

  -- In every process that such calls lead to and that goes on, a further call returns when what it
  -- asks for holds: it leaves a process that is ready and has followed it, or the end with code 5
  -- at a null pointer, and in both cases a world that the calls reach with the profile that the
  -- call makes.
  pub Reaches-goes_on :
      {p : Process} {d : Disk} {q : Profile}
      → Reaches (runs p d) q
      → (memory : Memory) (fork : Fork) (t : ℕ) (c : Call) (d' : Disk) → IsServable memory p d' c
      → (w : World) × (serve memory from_files mib_text fork t c p d' ≡ done w)
        × IsGood p t c w
        × Reaches w (follow p t c q)
  Reaches-goes_on {p} r memory fork t c d' ok =
      let (ready, _) = Reaches-IsSafe r in
      let (w, ran, good) = serve-IsGood memory from_files mib_text fork t d' c p ready ok in
      (w, ran, good, serves r memory fork t c d' ok ran)

  -- After such calls, `to_lines` of the peak does not panic; each of its lines, cut at its last
  -- space, is the text of a callstack that has bytes at the peak of the profile that the calls
  -- make, and those bytes in decimal; and each callstack with bytes at that peak has such a line.
  pub Reaches-IsLineOf :
      {p : Process} {d : Disk} {q : Profile}
      → Reaches (runs p d) q
      → (memory : Memory) (post : Bool)
      → (lines : List (List ℕ)) × (to_lines memory p.allocations true post
          ≡ done (check_if_new_peak p.allocations, lines))
        × All (λ l. (cs : Callstack) × IsLineOf memory post q cs l) lines
        × ((cs : Callstack) → 0 < q.peak_usage cs → Any (IsLineOf memory post q cs) lines)
  Reaches-IsLineOf {p} r memory post =
      let (ready, same) = Reaches-IsSafe r in
      subst
        (λ x.
          (lines : List (List ℕ)) × (to_lines memory p.allocations true post
            ≡ done (check_if_new_peak p.allocations, lines))
          × All (λ l. (cs : Callstack) × IsLineOf memory post x cs l) lines
          × ((cs : Callstack) → 0 < x.peak_usage cs → Any (IsLineOf memory post x cs) lines))
        same (to_lines-IsLineOf memory p.allocations post ready.sound.accounted)
