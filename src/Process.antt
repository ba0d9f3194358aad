-- ===== src/Process.antt =====
-- memapi/src/lib.rs and the free functions of memapi/src/memorytracking.rs: the calls that the C code
-- makes, on the callstack of the calling thread and on the tracker that all threads share. The mutex
-- round the tracker makes each call one step. A panic unwinds into C, which ends the process, so that
-- no call sees a poisoned mutex.
pub mod Threads
pub mod Charging
pub mod Sizes
pub mod Emergency
use filprofiler.Base.{
  ℕ, ltb, ◌==◌, not, ◌&&◌, Bool, true, false, if◌then◌else◌, List, [], ◌∷◌, ite, lookup, none, some,
  Outcome, done, ◌>>=◌, unwrap, ℕ_discrete,
}
use filprofiler.Callstack
use filprofiler.Callstack.{FunctionId, CallSiteId, Callstack, new_callstack, is_empty, in_python}
use filprofiler.HashMap.{HashMap}
use filprofiler.Interner.{get_reverse_map}
use filprofiler.Allocation.{Allocation, size}
use filprofiler.Tracker
use filprofiler.Tracker.{AllocationTracker, new_tracker}

-- `THREAD_CALLSTACK` of each thread, and `ALLOCATIONS`.
pub record Process : Type 0 where
  pub threads : ℕ → Callstack
  pub allocations : AllocationTracker

-- Where the statics start. The code's path is "/tmp".
unfoldable pub new_process : List ℕ → Process
new_process path = record { threads = λ t. new_callstack; allocations = new_tracker path }

-- `THREAD_CALLSTACK.with(|cs| ...)` on the thread `t`
unfoldable pub with_callstack : Process → ℕ → (Callstack → Callstack) → Process
with_callstack p t f = record p { threads = λ u. if u == t then f (p.threads u) else p.threads u }

unfoldable pub start_call : Process → ℕ → FunctionId → ℕ → ℕ → Process
unfolding with_callstack
start_call p t call_site parent_line_number line_number = with_callstack p t (λ cs.
    Callstack.start_call cs parent_line_number
      (record { function = call_site; line_number = line_number }))

unfoldable pub finish_call : Process → ℕ → Process
unfolding with_callstack
finish_call p t = with_callstack p t Callstack.finish_call

unfoldable pub new_line_number : Process → ℕ → ℕ → Process
unfolding with_callstack
new_line_number p t line_number =
    with_callstack p t (λ cs. Callstack.new_line_number cs line_number)

-- `oom_break_glass`
unfoldable pub oom_break_glass : AllocationTracker → AllocationTracker
oom_break_glass self = record self { spare_memory = 0 }

-- the callstack that an allocation is charged to: the thread's, with the line that the caller gives
unfoldable pub current_callstack : Process → ℕ → ℕ → Callstack
current_callstack p t line_number =
    let callstack = p.threads t in
    if not (line_number == 0) && not (is_empty callstack.calls)
    then Callstack.new_line_number callstack line_number
    else callstack

-- The process goes on, or it is out of memory and ends in `oom_dump`.
pub data Reply : Type 0 where
  running : Process → Reply
  out_of_memory : Process → Reply

unfoldable pub add_allocation : Process → ℕ → ℕ → ℕ → ℕ → Bool → Outcome Reply
unfolding current_callstack
add_allocation p t address size line_number is_mmap =
    let tracker = if address == 0 then oom_break_glass p.allocations else p.allocations in
    let callstack = current_callstack p t line_number in
    do
      allocations ←
          (if is_mmap
            then Tracker.add_anon_mmap tracker address size callstack
            else Tracker.add_allocation tracker address size callstack)
      let p' = record p { allocations = allocations }
      done (if address == 0 then out_of_memory p' else running p')

unfoldable pub free_allocation : Process → ℕ → Outcome Process
free_allocation p address = do
  allocations ← Tracker.free_allocation p.allocations address
  done (record p { allocations = allocations })

unfoldable pub get_allocation_size : Process → ℕ → ℕ
get_allocation_size p address = elim (lookup ℕ_discrete address p.allocations.current_allocations) [
  | some allocation ↦ size allocation
  | none ↦ 0
]

unfoldable pub free_anon_mmap : Process → ℕ → ℕ → Outcome Process
free_anon_mmap p address length = do
  allocations ← Tracker.free_anon_mmap p.allocations address length
  done (record p { allocations = allocations })

unfoldable pub reset : Process → List ℕ → Process
reset p default_path = record p { allocations = new_tracker default_path }

-- the test of `oom_dump`'s loop
unfoldable pub is_large_python : HashMap ℕ Callstack → Allocation → Outcome Bool
is_large_python id_to_callstack allocation = do
  callstack ← unwrap (lookup ℕ_discrete allocation.callstack_id id_to_callstack)
  done (in_python callstack && ltb 300000 (size allocation))

-- the loop of `oom_dump`: the addresses that are given to `libc::free`
unfoldable pub free_large : HashMap ℕ Callstack → HashMap ℕ Allocation → Outcome (List ℕ)
unfolding is_large_python
free_large id_to_callstack [] = done []
free_large id_to_callstack ((address, allocation) ∷ rest) = do
  large ← is_large_python id_to_callstack allocation
  freed ← free_large id_to_callstack rest
  done (if large then address ∷ freed else freed)

-- The part of `oom_dump` between the fork and the dump.
unfoldable pub oom_free : AllocationTracker → Outcome (List ℕ)
unfolding free_large
oom_free self = free_large (get_reverse_map self.interner) self.current_allocations
