-- ===== src/Oom.antt =====
-- memapi/src/memorytracking.rs: `oom_dump`, the end of a program that is out of memory.
pub mod Exits
use filprofiler.Base.{ℕ, false, List, [], Option, Bool, Outcome, done, ◌>>=◌}
use filprofiler.Text.{Memory, text}
use filprofiler.Tracker.{AllocationTracker}
use filprofiler.Dump.{Disk, Options, say, forking, freeing, dumping, dump_to_flamegraph}
use filprofiler.Process.{oom_free}

-- What `libc::fork` returns: a process id in the parent, 0 in the child, or -1.
pub data Fork : Type 0 where
  parent child failed : Fork

-- A process that has ended by `libc::_exit`, with what it leaves, and the addresses that it gave to
-- `libc::free` before.
pub record Exit : Type 0 where
  pub code : ℕ
  pub disk : Disk
  pub freed : List ℕ

module _ (from_files : Options → Option (List ℕ) → List ℕ × Bool) (mib_text : ℕ → List ℕ)
    (memory : Memory) where
  -- The part after the fork.
  unfoldable pub free_and_dump : Disk → AllocationTracker → Outcome Exit
  free_and_dump d self = do
    freed ← oom_free self
    (d', _) ←
        dump_to_flamegraph from_files mib_text memory (say dumping (say freeing d)) self
          self.default_path false (text "out-of-memory")
          (text "Current allocations at out-of-memory time") false
    done (record { code = 5; disk = d'; freed = freed })

  unfoldable pub oom_dump : Fork → Disk → AllocationTracker → Outcome Exit
  oom_dump parent d self = done (record { code = 5; disk = say forking d; freed = [] })
  oom_dump child d self = free_and_dump (say forking d) self
  oom_dump failed d self = free_and_dump (say forking d) self
