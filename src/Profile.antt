-- ===== src/Profile.antt =====
-- What the tracker of memapi/src/memorytracking.rs promises: a profile by address and by callstack,
-- without ids, compressed sizes, ranges or the order of maps.
pub mod Names
pub mod Peaks
pub mod Pages
pub mod Refinement
pub mod Runs
pub mod Shown
pub mod Lines
use filprofiler.Base.{
  ℕ, ◌+◌, ◌-◌, ◌<◌, ◌≡◌, ◌==◌, ltb, if◌then◌else◌, max, List, [], ◌∷◌, Option, none, some, ite,
  lookup, length, true, ℕ_discrete,
}
use filprofiler.Word.{usize_mod}
use filprofiler.Callstack.{Callstack, Callstack-discrete}
use filprofiler.RangeMap.Points.{within, values_at}
use filprofiler.RangeMap.Bytes.{sum_range}
use filprofiler.Allocation.{Allocation, size}
use filprofiler.Allocation.Rounding.{tracked}
use filprofiler.Tracker.{AllocationTracker, check_if_new_peak}
use filprofiler.Tracker.Slots.{usage_of}
use filprofiler.Interner.{CallstackInterner}
use filprofiler.Interner.Extension.{name_of, by_name}
use filprofiler.Tracker.History.{Call, allocates, maps, frees, unmaps}
use filprofiler.Tracker.History.HighWater.{peak_usage_of}

-- For each address the block that starts there, with its callstack and size, and the callstack that
-- has the page byte there; the bytes in use by callstack and in all; and the same at the moment of
-- the highest total.
pub record Profile : Type 0 where
  pub blocks : ℕ → Option (Callstack × ℕ)
  pub pages : ℕ → Option Callstack
  pub usage : Callstack → ℕ
  pub total : ℕ
  pub peak_usage : Callstack → ℕ
  pub peak : ℕ

-- Nothing in use.
abbrev pub nothing_used : Profile
nothing_used = record {
  blocks = λ _. none;
  pages = λ _. none;
  usage = λ _. 0;
  total = 0;
  peak_usage = λ _. 0;
  peak = 0;
}

-- The highest total is kept with the usage of the moment when it was first reached.
abbrev pub observe : Profile → Profile
observe p = record p {
  peak_usage = λ cs. if ltb p.peak p.total then p.usage cs else p.peak_usage cs;
  peak = max p.peak p.total;
}

-- `n` bytes more for a callstack.
abbrev pub charge : Callstack → ℕ → (Callstack → ℕ) → Callstack → ℕ
charge cs n usage k = usage k + ite (Callstack-discrete k cs) n 0

abbrev pub is_owned : Callstack → Option Callstack → ℕ
is_owned k none = 0
is_owned k (some cs) = ite (Callstack-discrete k cs) 1 0

abbrev pub is_taken : Option Callstack → ℕ
is_taken none = 0
is_taken (some cs) = 1

-- `p` without what starts at an address.
abbrev pub release : ℕ → Option (Callstack × ℕ) → Profile → Profile
release address none p = p
release address (some (cs, n)) p = record p {
  blocks = λ a. if a == address then none else p.blocks a;
  usage = λ k. p.usage k - ite (Callstack-discrete k cs) n 0;
  total = p.total - n;
}

unfoldable pub change : Call → Profile → Profile
change (allocates address bytes cs) p = observe (record p {
  blocks = λ a. if a == address then some (cs, tracked 0 bytes) else p.blocks a;
  usage = charge cs (tracked 0 bytes) p.usage;
  total = p.total + tracked 0 bytes;
})
change (maps address bytes cs) p = observe (record p {
  pages = λ a. if within address bytes a then some cs else p.pages a;
  usage = charge cs bytes p.usage;
  total = p.total + bytes;
})
change (frees address) p = release address (p.blocks address) p
change (unmaps address bytes) p = record p {
  pages = λ a. if within address bytes a then none else p.pages a;
  usage = λ k. p.usage k - sum_range (λ a. is_owned k (p.pages a)) address bytes;
  total = p.total - sum_range (λ a. is_taken (p.pages a)) address bytes;
}

-- What an allocator guarantees: it does not hand out what is in use, and what it hands out lies in
-- the address space.
abbrev pub IsAllowed : Profile → Call → Type 0
IsAllowed p (allocates address bytes cs) =
    (p.blocks address ≡ none) × (p.total + tracked 0 bytes < usize_mod)
IsAllowed p (maps address bytes cs) =
    ((a : ℕ) → within address bytes a ≡ true → p.pages a ≡ none)
    × (address + bytes < usize_mod)
    × (p.total + bytes < usize_mod)
IsAllowed p (frees address) = Unit {0}
IsAllowed p (unmaps address bytes) = address + bytes < usize_mod

unfoldable pub replay : List Call → Profile → Profile
unfolding change
replay [] p = p
replay (c ∷ cs) p = replay cs (change c p)

abbrev pub AreAllowed : Profile → List Call → Type 0
AreAllowed p [] = Unit {0}
AreAllowed p (c ∷ cs) = IsAllowed p c × AreAllowed (change c p) cs

-- What an interner makes of an entry, and of the ids at an address.
module _ (i : CallstackInterner) where
  abbrev pub block_of : Option Allocation → Option (Callstack × ℕ)
  block_of none = none
  block_of (some alloc) = elim (name_of i alloc.callstack_id) [
    | none ↦ none
    | some cs ↦ some (cs, size alloc)
  ]

  abbrev pub page_of : List ℕ → Option Callstack
  page_of [] = none
  page_of (id ∷ _) = name_of i id

-- The profile that a tracker stands for.
unfoldable pub profile : AllocationTracker → Profile
profile t = record {
  blocks = λ a. block_of t.interner (lookup ℕ_discrete a t.current_allocations);
  pages = λ a. page_of t.interner (values_at a t.current_anon_mmaps.ranges);
  usage = by_name t.interner (usage_of t);
  total = t.current_allocated_bytes;
  peak_usage = by_name t.interner (peak_usage_of t);
  peak = (check_if_new_peak t).peak_allocated_bytes;
}

pub Profile_path :
    (p q : Profile)
    → p.blocks ≡ q.blocks
    → p.pages ≡ q.pages
    → p.usage ≡ q.usage
    → p.total ≡ q.total
    → p.peak_usage ≡ q.peak_usage
    → p.peak ≡ q.peak
    → p ≡ q
Profile_path p q b g u t h k = λ i. record {
  blocks = b i;
  pages = g i;
  usage = u i;
  total = t i;
  peak_usage = h i;
  peak = k i;
}
