-- ===== src/Tracker.antt =====
-- memapi/src/memorytracking.rs: `AllocationTracker`. A method returns the new tracker; an index out
-- of bounds is `panic`. The report is in Report, the end of memory in Process.
pub mod Slots
pub mod Accounting
pub mod Peak
pub mod History
use filprofiler.Base.{
  ℕ, ◌+◌, ◌*◌, ltb, if◌then◌else◌, List, [], ◌∷◌, ◌++◌, lookup, none, some, get_elem?, set, Outcome,
  done, ◌>>=◌, unwrap, ℕ_discrete,
}
use filprofiler.Word.{add_usize, sub_usize}
use filprofiler.HashMap
use filprofiler.HashMap.{HashMap}
use filprofiler.RangeMap
use filprofiler.RangeMap.{RangeMap}
use filprofiler.Callstack.{Callstack}
use filprofiler.Interner.{CallstackInterner, new_interner, get_or_insert_id}
use filprofiler.Allocation
use filprofiler.Allocation.{Allocation, new_allocation}

-- The main data structure tracking everything.
pub record AllocationTracker : Type 0 where
  pub current_allocations : HashMap ℕ Allocation
  pub current_anon_mmaps : RangeMap ℕ
  pub interner : CallstackInterner
  -- by callstack id
  pub current_memory_usage : List ℕ
  pub peak_memory_usage : List ℕ
  pub current_allocated_bytes : ℕ
  pub peak_allocated_bytes : ℕ
  -- the capacity of the vector, which stays empty
  pub spare_memory : ℕ
  -- the bytes of the string
  pub default_path : List ℕ

-- `AllocationTracker::new`
unfoldable pub new_tracker : List ℕ → AllocationTracker
new_tracker default_path = record {
  current_allocations = [];
  current_anon_mmaps = RangeMap.empty;
  interner = new_interner;
  current_memory_usage = [];
  peak_memory_usage = [];
  current_allocated_bytes = 0;
  peak_allocated_bytes = 0;
  spare_memory = 16 * 1024 * 1024;
  default_path = default_path;
}

unfoldable pub check_if_new_peak : AllocationTracker → AllocationTracker
check_if_new_peak self =
    if ltb self.peak_allocated_bytes self.current_allocated_bytes
    then record self {
      peak_allocated_bytes = self.current_allocated_bytes;
      peak_memory_usage = self.current_memory_usage;
    }
    else self

unfoldable pub add_memory_usage : AllocationTracker → ℕ → ℕ → Outcome AllocationTracker
add_memory_usage self callstack_id bytes = do
  usage ← unwrap (get_elem? self.current_memory_usage callstack_id)
  done (record self {
    current_allocated_bytes = add_usize self.current_allocated_bytes bytes;
    current_memory_usage = set self.current_memory_usage callstack_id (add_usize usage bytes);
  })

unfoldable pub remove_memory_usage : AllocationTracker → ℕ → ℕ → Outcome AllocationTracker
remove_memory_usage self callstack_id bytes = do
  usage ← unwrap (get_elem? self.current_memory_usage callstack_id)
  done (record self {
    current_allocated_bytes = sub_usize self.current_allocated_bytes bytes;
    current_memory_usage = set self.current_memory_usage callstack_id (sub_usize usage bytes);
  })

unfoldable pub get_callstack_id : AllocationTracker → Callstack → AllocationTracker × ℕ
get_callstack_id self callstack =
    let (interner, usage, id) =
      get_or_insert_id self.interner callstack (λ (u : List ℕ). u ++ 0 ∷ [])
        self.current_memory_usage in
    (record self { interner = interner; current_memory_usage = usage }, id)

unfoldable pub add_allocation : AllocationTracker → ℕ → ℕ → Callstack → Outcome AllocationTracker
add_allocation self address size callstack =
    let (tracker, callstack_id) = get_callstack_id self callstack in
    let alloc = new_allocation callstack_id size in
    let compressed_size = Allocation.size alloc in
    add_memory_usage
      (record tracker {
        current_allocations = HashMap.insert ℕ_discrete address alloc tracker.current_allocations;
      })
      callstack_id compressed_size

unfoldable pub free_allocation : AllocationTracker → ℕ → Outcome AllocationTracker
free_allocation self address =
    let tracker = check_if_new_peak self in
    elim (lookup ℕ_discrete address tracker.current_allocations) [
      | some removed ↦
          remove_memory_usage
            (record tracker {
              current_allocations = HashMap.remove ℕ_discrete address tracker.current_allocations;
            })
            removed.callstack_id (Allocation.size removed)
      | none ↦ done tracker
    ]

unfoldable pub add_anon_mmap : AllocationTracker → ℕ → ℕ → Callstack → Outcome AllocationTracker
add_anon_mmap self address size callstack =
    let (tracker, callstack_id) = get_callstack_id self callstack in
    do
      mmaps ← RangeMap.add tracker.current_anon_mmaps address size callstack_id
      add_memory_usage (record tracker { current_anon_mmaps = mmaps }) callstack_id size

-- the loop of `free_anon_mmap`
unfoldable pub remove_each : AllocationTracker → List (ℕ × ℕ) → Outcome AllocationTracker
remove_each self [] = done self
remove_each self ((callstack_id, removed) ∷ rest) = do
  tracker ← remove_memory_usage self callstack_id removed
  remove_each tracker rest

unfoldable pub free_anon_mmap : AllocationTracker → ℕ → ℕ → Outcome AllocationTracker
unfolding remove_each
free_anon_mmap self address size =
    let tracker = check_if_new_peak self in
    do
      (mmaps, removed) ← RangeMap.remove tracker.current_anon_mmaps address size
      remove_each (record tracker { current_anon_mmaps = mmaps }) removed
