-- ===== src/Interface.antt =====
-- memapi/src/lib.rs: the functions that the C code calls, each on the calling thread `t` of a process
-- with its file system.
pub mod Ready
pub mod Adding
pub mod Serving
pub mod Reach
use filprofiler.Base.{ℕ, true, false, List, Option, Bool, Outcome, done, ◌>>=◌}
use filprofiler.Text.{Memory}
use filprofiler.Callstack.{FunctionId}
use filprofiler.Process
use filprofiler.Process.{Process, running, out_of_memory}
use filprofiler.Dump.{Disk, Options, dump_peak_to_flamegraph}
use filprofiler.CString.{path_argument}
use filprofiler.Oom.{Fork, Exit, oom_dump}

-- The process after a call: it goes on, or it has ended.
pub data World : Type 0 where
  runs : Process → Disk → World
  ended : Exit → World

-- A call of the C code, with its arguments.
pub data Call : Type 0 where
  add_allocation add_anon_mmap : ℕ → ℕ → ℕ → Call
  free_allocation : ℕ → Call
  free_anon_mmap : ℕ → ℕ → Call
  start_call : ℕ → ℕ → ℕ → Call
  finish_call : Call
  new_line_number : ℕ → Call
  reset dump_peak : ℕ → Call

unfoldable pub pymemprofile_start_call : Process → ℕ → ℕ → ℕ → ℕ → Process
pymemprofile_start_call p t parent_line_number function_loc line_number =
    Process.start_call p t (record { function = function_loc }) parent_line_number line_number

unfoldable pub pymemprofile_finish_call : Process → ℕ → Process
pymemprofile_finish_call p t = Process.finish_call p t

unfoldable pub pymemprofile_new_line_number : Process → ℕ → ℕ → Process
pymemprofile_new_line_number p t line_number = Process.new_line_number p t line_number

unfoldable pub pymemprofile_free_allocation : Process → ℕ → Outcome Process
pymemprofile_free_allocation p address = Process.free_allocation p address

unfoldable pub pymemprofile_get_allocation_size : Process → ℕ → ℕ
pymemprofile_get_allocation_size p address = Process.get_allocation_size p address

unfoldable pub pymemprofile_free_anon_mmap : Process → ℕ → ℕ → Outcome Process
pymemprofile_free_anon_mmap p address length = Process.free_anon_mmap p address length

module _ (memory : Memory) where
  unfoldable pub pymemprofile_reset : Process → ℕ → Outcome Process
  pymemprofile_reset p default_path = do
    path ← path_argument memory default_path
    done (Process.reset p path)

  module _ (from_files : Options → Option (List ℕ) → List ℕ × Bool) (mib_text : ℕ → List ℕ) where
    -- `add_allocation` to its end, also where that is the end of the process
    unfoldable pub add_or_end : Fork → Process → Disk → ℕ → ℕ → ℕ → ℕ → Bool → Outcome World
    add_or_end fork p d t address size line_number is_mmap = do
      reply ← Process.add_allocation p t address size line_number is_mmap
      elim reply [
        | running p' ↦ done (runs p' d)
        | out_of_memory p' ↦ do
          e ← oom_dump from_files mib_text memory fork d p'.allocations
          done (ended e)
      ]

    unfoldable pub pymemprofile_add_allocation :
        Fork → Process → Disk → ℕ → ℕ → ℕ → ℕ → Outcome World
    pymemprofile_add_allocation fork p d t address size line_number =
        add_or_end fork p d t address size line_number false

    unfoldable pub pymemprofile_add_anon_mmap :
        Fork → Process → Disk → ℕ → ℕ → ℕ → ℕ → Outcome World
    pymemprofile_add_anon_mmap fork p d t address size line_number =
        add_or_end fork p d t address size line_number true

    unfoldable pub pymemprofile_dump_peak_to_flamegraph :
        Process → Disk → ℕ → Outcome (Process × Disk)
    pymemprofile_dump_peak_to_flamegraph p d pointer = do
      path ← path_argument memory pointer
      (d', allocations) ← dump_peak_to_flamegraph from_files mib_text memory d p.allocations path
      done (record p { allocations = allocations }, d')

    -- Any of the calls.
    unfoldable pub serve : Fork → ℕ → Call → Process → Disk → Outcome World
    serve fork t (add_allocation address size line) p d =
        pymemprofile_add_allocation fork p d t address size line
    serve fork t (add_anon_mmap address size line) p d =
        pymemprofile_add_anon_mmap fork p d t address size line
    serve fork t (free_allocation address) p d = do
      p' ← pymemprofile_free_allocation p address
      done (runs p' d)
    serve fork t (free_anon_mmap address length) p d = do
      p' ← pymemprofile_free_anon_mmap p address length
      done (runs p' d)
    serve fork t (start_call parent_line function_loc line) p d =
        done (runs (pymemprofile_start_call p t parent_line function_loc line) d)
    serve fork t finish_call p d = done (runs (pymemprofile_finish_call p t) d)
    serve fork t (new_line_number line) p d = done (runs (pymemprofile_new_line_number p t line) d)
    serve fork t (reset pointer) p d = do p' ← pymemprofile_reset p pointer; done (runs p' d)
    serve fork t (dump_peak pointer) p d = do
      (p', d') ← pymemprofile_dump_peak_to_flamegraph p d pointer
      done (runs p' d')
