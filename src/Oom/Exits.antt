-- ===== src/Oom/Exits.antt =====
-- How `oom_dump` of memapi/src/memorytracking.rs ends.
use filprofiler.Base.{
  ℕ, ◌≡◌, ◌≢◌, ◌↔◌, true, false, List, [], Option, some, Bool, lookup, done, ◌⊎◌, inl, inr, refl,
  ℕ_discrete,
}
use filprofiler.Text.{Memory, text}
use filprofiler.Allocation.{Allocation}
use filprofiler.Tracker.{AllocationTracker}
use filprofiler.Tracker.Accounting.{IsAccounted}
use filprofiler.Dump.{
  Path-discrete, directory, Disk, Options, say, forking, freeing, dumping, join_path,
}
use filprofiler.Dump.Errors.{dump_to_flamegraph-ChangesOnly}
use filprofiler.Process.Emergency.{is_in, IsLargePython, oom_free-FreesLarge}
use filprofiler.Oom.{Fork, parent, child, failed, Exit, free_and_dump, oom_dump}

-- The blocks given back are the large ones of Python, and only the files of the dump change.
pub record Frees (d : Disk) (t : AllocationTracker) (e : Exit) : Type 0 where
  pub freed :
      (address : ℕ)
      → (is_in address e.freed ≡ true) ↔ (
          (alloc : Allocation) × (lookup ℕ_discrete address t.current_allocations ≡ some alloc)
          × IsLargePython t.interner alloc)
  pub only :
      (q : List ℕ)
      → q ≢ join_path t.default_path (text "out-of-memory.prof")
      → q ≢ join_path t.default_path (text "out-of-memory.svg")
      → q ≢ join_path t.default_path (text "out-of-memory-reversed.svg")
      → lookup Path-discrete q e.disk.entries ≡ lookup Path-discrete q d.entries

module _ (from_files : Options → Option (List ℕ) → List ℕ × Bool) (mib_text : ℕ → List ℕ)
    (memory : Memory) where
  free_and_dump-Frees :
      (d : Disk) (t : AllocationTracker)
      → IsAccounted t
      → lookup Path-discrete t.default_path d.entries ≡ some directory
      → (e : Exit) × (free_and_dump from_files mib_text memory d t ≡ done e)
        × (e.code ≡ 5)
        × Frees d t e
  unfolding free_and_dump
  free_and_dump-Frees d t a there =
      let (freed, gave, which) = oom_free-FreesLarge t a in
      let (d', ran, only) =
        dump_to_flamegraph-ChangesOnly from_files mib_text memory (say dumping (say freeing d)) t
          t.default_path false (text "out-of-memory")
          (text "Current allocations at out-of-memory time") false a there in
      (
        record { code = 5; disk = d'; freed = freed },
        rw (gave, ran) refl,
        refl,
        record { freed = which; only = only },
      )

  -- When the books are in order and the default path is a directory, `oom_dump` ends the process
  -- with code 5, whatever the fork returns and whatever file operations fail. In the parent of a
  -- fork nothing is freed and no file changes; in the child, and where the fork fails, exactly the
  -- tracked blocks of more than 300000 bytes with a callstack that is not empty are freed, and no
  -- paths change but those of the lines and the two graphs.
  pub oom_dump-exits :
      (fork : Fork) (d : Disk) (t : AllocationTracker)
      → IsAccounted t
      → lookup Path-discrete t.default_path d.entries ≡ some directory
      → (e : Exit) × (oom_dump from_files mib_text memory fork d t ≡ done e)
        × (e.code ≡ 5)
        × (((fork ≡ parent) × (e.freed ≡ []) × (e.disk.entries ≡ d.entries))
            ⊎ ((fork ≢ parent) × Frees d t e))
  unfolding oom_dump
  oom_dump-exits parent d t a there =
      (record { code = 5; disk = say forking d; freed = [] }, refl, refl, inl (refl, refl, refl))
  oom_dump-exits child d t a there =
      let (e, ran, code, f) = free_and_dump-Frees (say forking d) t a there in
      (e, ran, code, inr ((λ q. absurd (cc)), record { freed = f.freed; only = f.only }))
  oom_dump-exits failed d t a there =
      let (e, ran, code, f) = free_and_dump-Frees (say forking d) t a there in
      (e, ran, code, inr ((λ q. absurd (cc)), record { freed = f.freed; only = f.only }))
