-- ===== src/Profile/Runs.antt =====
-- Any calls of the tracker of memapi/src/memorytracking.rs, one after the other, against the profile.
use mathlib.Core.Path.{fun_ext}
use filprofiler.Base.{
  ℕ, ◌+◌, ◌≤◌, ◌<◌, ◌≡◌, List, [], ◌∷◌, length, refl, sym, lookup, ap, subst, ◌∙◌, arith, Outcome,
  done, ◌>>=◌,
}
use filprofiler.Word.{u32_mod}
use filprofiler.Tracker.{AllocationTracker, new_tracker, check_if_new_peak}
use filprofiler.Tracker.Accounting.Allocating.{add_allocation-Allocates}
use filprofiler.Tracker.Accounting.Freeing.{free_allocation-Frees}
use filprofiler.Tracker.Accounting.Mapping.{add_anon_mmap-Maps}
use filprofiler.Tracker.Accounting.Unmapping.{free_anon_mmap-Unmaps}
use filprofiler.Tracker.History.{
  Call, allocates, maps, frees, unmaps, step, IsAdmissible, IsSound, Allocates-IsSound,
  Maps-IsSound, Frees-IsSound, Unmaps-IsSound,
}
use filprofiler.Tracker.History.HighWater.{new_tracker-IsSound}
use filprofiler.Profile.{profile, change, replay, nothing_used, IsAllowed, AreAllowed, Profile_path}
use filprofiler.Profile.Names.{block_of-none, page_of-none}
use filprofiler.Profile.Refinement.{profile-Allocates, profile-Maps, profile-Frees, profile-Unmaps}

-- What the profile allows, the tracker can do, while ids last.
IsAllowed-IsAdmissible :
    (t : AllocationTracker) (c : Call)
    → IsSound t
    → t.interner.max_id + 1 < u32_mod
    → IsAllowed (profile t) c
    → IsAdmissible t c
unfolding profile
IsAllowed-IsAdmissible t (allocates address bytes cs) s ids (free, room) =
    (block_of-none t s.accounted address free, ids, room)
IsAllowed-IsAdmissible t (maps address bytes cs) s ids (free, bound, room) =
    (λ a h. page_of-none t s.accounted a (free a h), bound, ids, room)
IsAllowed-IsAdmissible t (frees address) s ids h = tt
IsAllowed-IsAdmissible t (unmaps address bytes) s ids h = h

-- One call of the tracker does to its profile what `change` says.
pub step-change :
    (t : AllocationTracker) (c : Call)
    → IsSound t
    → t.interner.max_id + 1 < u32_mod
    → IsAllowed (profile t) c
    → (t' : AllocationTracker) × (step c t ≡ done t')
      × IsSound t'
      × (t'.interner.max_id ≤ t.interner.max_id + 1)
      × (profile t' ≡ change c (profile t))
unfolding step
step-change t (allocates address bytes cs) s ids ok =
    let (fresh, _, room) = IsAllowed-IsAdmissible t (allocates address bytes cs) s ids ok in
    let (t', ran, a, e) = add_allocation-Allocates t address bytes cs s.accounted fresh ids room in
    (
      t',
      ran,
      Allocates-IsSound t t' s a address bytes cs e,
      e.grows,
      profile-Allocates t s.accounted t' a address bytes cs e,
    )
step-change t (maps address bytes cs) s ids ok =
    let (free, bound, _, room) = IsAllowed-IsAdmissible t (maps address bytes cs) s ids ok in
    let (t', ran, a, e) = add_anon_mmap-Maps t address bytes cs s.accounted bound ids room in
    (
      t',
      ran,
      Maps-IsSound t t' s a address bytes cs free e,
      e.grows,
      profile-Maps t s.accounted t' a address bytes cs e free,
    )
step-change t (frees address) s ids ok =
    let (t', ran, a, e) = free_allocation-Frees t address s.accounted in
    (
      t',
      ran,
      Frees-IsSound t t' s a address e,
      rw e.same_interner (omega arith),
      profile-Frees t s.accounted t' a address e,
    )
step-change t (unmaps address bytes) s ids ok =
    let (t', ran, a, e) = free_anon_mmap-Unmaps t address bytes s.accounted ok in
    (
      t',
      ran,
      Unmaps-IsSound t t' s a address bytes e,
      rw e.same_interner (omega arith),
      profile-Unmaps t s.accounted t' a address bytes s.disjoint e,
    )

unfoldable pub run : List Call → AllocationTracker → Outcome AllocationTracker
run [] t = done t
run (c ∷ cs) t = step c t >>= run cs

run-replay :
    (cs : List Call) (t : AllocationTracker)
    → IsSound t
    → t.interner.max_id + length cs < u32_mod
    → AreAllowed (profile t) cs
    → (t' : AllocationTracker) × (run cs t ≡ done t')
      × IsSound t'
      × (profile t' ≡ replay cs (profile t))
unfolding run replay
run-replay [] t s ids ok = (t, refl, s, refl)
run-replay (c ∷ cs) t s ids (ok, later) =
    let (t1, ran, s1, grown, changed) = step-change t c s (omega arith) ok in
    let (t', rest, s', end) =
      run-replay cs t1 s1 (omega (arith, grown))
        (subst (λ p. AreAllowed p cs) (sym changed) later) in
    (t', rw ran rest, s', end ∙ ap (replay cs) changed)

pub profile-new_tracker : (path : List ℕ) → profile (new_tracker path) ≡ nothing_used
unfolding profile new_tracker lookup check_if_new_peak
profile-new_tracker path =
    Profile_path (profile (new_tracker path)) nothing_used refl refl (fun_ext λ k. refl) refl
      (fun_ext λ k. refl) refl

-- On a new tracker, no sequence of fewer than 2 ^ 32 calls panics when the profile allows each call
-- in its turn (a block at an address where none starts, a mapping of addresses none of which is
-- mapped, the freeing of any address, the unmapping of any addresses, with sums and ends of ranges
-- within the word size); the tracker is sound afterwards, and the profile that it stands for (the
-- blocks with their callstacks and tracked sizes, the callstack of each mapped address, the bytes
-- in use by callstack and in all, and the same at the peak) is what the calls make of the empty
-- profile.
pub run-new_tracker_refines :
    (path : List ℕ) (cs : List Call)
    → length cs < u32_mod
    → AreAllowed nothing_used cs
    → (t : AllocationTracker) × (run cs (new_tracker path) ≡ done t)
      × IsSound t
      × (profile t ≡ replay cs nothing_used)
unfolding new_tracker
run-new_tracker_refines path cs ids ok =
    let new = profile-new_tracker path in
    let (t, ran, s, same) =
      run-replay cs (new_tracker path) (new_tracker-IsSound path) (omega arith)
        (subst (λ p. AreAllowed p cs) (sym new) ok) in
    (t, ran, s, same ∙ ap (replay cs) new)
