-- ===== src/Tests.antt =====
-- The data of the tests: small trackers, maps and callstacks, with their invariants.
pub mod Ranges
pub mod Stacks
pub mod Books
pub mod Reports
pub mod Dumps
mod Interfaces
mod Units
use filprofiler.Base.{
  ℕ, zero, suc, ◌+◌, ◌≡◌, ◌==◌, if◌then◌else◌, List, [], ◌∷◌, refl, some, lookup, arith, done,
  ℕ_discrete,
}
use filprofiler.HashMap.{IsUnique}
use filprofiler.RangeMap.{RangeMap}
use filprofiler.RangeMap.Bounds.{IsProper}
use filprofiler.RangeMap.Disjoint.{IsDisjoint}
use filprofiler.RangeMap.Reference
use filprofiler.RangeMap.Reference.{StupidRangeMap}
use filprofiler.RangeMap.Agreement.{Agrees}
use filprofiler.Callstack.{CallSiteId, Callstack, Callstack-discrete}
use filprofiler.Interner.{CallstackInterner}
use filprofiler.Interner.Numbering.{IsNumbered}
use filprofiler.Allocation.{Allocation, size}
use filprofiler.Tracker.{AllocationTracker}
use filprofiler.Tracker.Accounting.{IsAccounted, allocation_bytes}
use filprofiler.Tracker.Slots.{usage_of}
use filprofiler.RangeMap.Bytes.{held_bytes}
use filprofiler.Text.{Memory}

-- One mapping of two bytes.
abbrev pub two_bytes : RangeMap ℕ
two_bytes = record { ranges = (record { start = 10; end = 12 }, 7) ∷ [] }

abbrev pub two_items : StupidRangeMap ℕ
two_items = record { items = (11, 7) ∷ (10, 7) ∷ [] }

two_bytes-IsProper : IsProper (record { start = 10; end = 12 })
two_bytes-IsProper = record { nonempty = omega arith; bounded = omega arith }

pub two_bytes-Agrees : Agrees two_bytes two_items
unfolding lookup Reference.size ℕ_discrete
two_bytes-Agrees = record {
  valid = (two_bytes-IsProper, tt);
  disjoint = λ a. ground arith;
  unique = (refl, (refl, tt));
  same = λ a. ground arith;
  bytes = refl;
  bounded = omega arith;
}

-- main() calls a function, at two places.
abbrev pub main_call : CallSiteId
main_call = record { function = record { function = 0 }; line_number = 1 }

abbrev pub inner_call : CallSiteId
inner_call = record { function = record { function = 1 }; line_number = 2 }

abbrev pub deep : Callstack
deep = record { calls = main_call ∷ inner_call ∷ [] }

abbrev pub flat : Callstack
flat = record { calls = main_call ∷ [] }

abbrev pub one_callstack : CallstackInterner
one_callstack = record { max_id = 1; callstack_to_id = (deep, 0) ∷ [] }

pub one_callstack-IsNumbered : IsNumbered one_callstack
unfolding lookup Callstack-discrete
one_callstack-IsNumbered = record {
  unique = (refl, tt);
  distinct = (tt, tt);
  bounded = (omega arith, tt);
  dense = λ id h. (deep, ground arith);
}

-- Two allocations and a mapping, all by the same callstack, before any check for a peak.
abbrev pub busy : AllocationTracker
busy = record {
  current_allocations =
      (2, record { callstack_id = 0; compressed_size = 400000 })
      ∷ (1, record { callstack_id = 0; compressed_size = 1000 })
      ∷ [];
  current_anon_mmaps = record { ranges = (record { start = 100; end = 150 }, 0) ∷ [] };
  interner = one_callstack;
  current_memory_usage = 401050 ∷ [];
  peak_memory_usage = [];
  current_allocated_bytes = 401050;
  peak_allocated_bytes = 0;
  spare_memory = 0;
  default_path = [];
}

busy_usage :
    (id : ℕ)
    → usage_of busy id
      ≡ allocation_bytes id busy.current_allocations
        + held_bytes (λ v. v == id) busy.current_anon_mmaps.ranges
unfolding size
busy_usage zero = refl
busy_usage (suc id) = ground arith

pub busy-IsAccounted : IsAccounted busy
unfolding lookup size ℕ_discrete
busy-IsAccounted = record {
  numbered = one_callstack-IsNumbered;
  slots = refl;
  unique = (refl, (refl, tt));
  mmaps = (record { nonempty = omega arith; bounded = omega arith }, tt);
  allocation_ids = (refl, (refl, tt));
  mmap_ids = (refl, tt);
  usage = busy_usage;
  summed = record { total = refl; fits = omega arith };
  peak_total = refl;
  peak_slots = omega arith;
  ids_last = omega arith;
}

pub busy-IsDisjoint : IsDisjoint busy.current_anon_mmaps
busy-IsDisjoint a = ground arith

-- Every function is `a` in the file `a`.
abbrev pub all_a : Memory
all_a = record {
  byte = λ _. b'a';
  location = λ _. record {
    filename = 0;
    filename_length = 1;
    function_name = 0;
    function_name_length = 1;
  };
}
