-- ===== src/Process/Sizes.antt =====
-- `get_allocation_size` of memapi/src/memorytracking.rs, after the other calls.
use filprofiler.Base.{
  ℕ, ◌+◌, ◌<◌, ◌≡◌, ◌≢◌, false, lookup, none, some, Option, refl, sym, ap, ◌∙◌, arith, done,
  ℕ_discrete,
}
use filprofiler.Word.{usize_mod, u32_mod}
use filprofiler.Allocation.{Allocation, size}
use filprofiler.Allocation.Rounding.{tracked, tracked_any}
use filprofiler.Tracker.Accounting.{IsAccounted}
use filprofiler.Tracker.Accounting.Allocating.{add_allocation-Allocates}
use filprofiler.Tracker.Accounting.Freeing.{free_allocation-Frees}
use filprofiler.Process.{
  Process, running, add_allocation, free_allocation, get_allocation_size, current_callstack,
}

size_or_zero : Option Allocation → ℕ
size_or_zero none = 0
size_or_zero (some a) = size a

get_allocation_size_lem :
    (p : Process) (q : ℕ)
    → get_allocation_size p q ≡ size_or_zero (lookup ℕ_discrete q p.allocations.current_allocations)
unfolding get_allocation_size size_or_zero
get_allocation_size_lem p q = ground arith

-- When the books are in order, the address is not 0 and free, and there is room for one more id and
-- for the tracked size, `add_allocation` of a malloc'd block returns with the books in order and
-- the threads' callstacks as they were; `get_allocation_size` then gives the tracked size at the
-- address, and what it gave before at all others.
pub get_allocation_size-add_allocation :
    (p : Process) (t address bytes line : ℕ)
    → IsAccounted p.allocations
    → address ≢ 0
    → lookup ℕ_discrete address p.allocations.current_allocations ≡ none
    → p.allocations.interner.max_id + 1 < u32_mod
    → p.allocations.current_allocated_bytes + tracked 0 bytes < usize_mod
    → (p' : Process) × (add_allocation p t address bytes line false ≡ done (running p'))
      × IsAccounted p'.allocations
      × (p'.threads ≡ p.threads)
      × (get_allocation_size p' address ≡ tracked 0 bytes)
      × ((q : ℕ) → q ≢ address → get_allocation_size p' q ≡ get_allocation_size p q)
unfolding add_allocation size_or_zero
get_allocation_size-add_allocation p t address bytes line a nonzero fresh ids room =
    let cs = current_callstack p t line in
    let (u, ran, b, e) = add_allocation-Allocates p.allocations address bytes cs a fresh ids room in
    let p' = record p { allocations = u } in
    (
      p',
      ground (arith, ran),
      b,
      refl,
      get_allocation_size_lem p' address ∙ ap size_or_zero e.stored ∙ tracked_any e.id 0 bytes,
      λ q ne.
          get_allocation_size_lem p' q
          ∙ ap size_or_zero (e.others q ne)
          ∙ sym (get_allocation_size_lem p q),
    )

-- When the books are in order, `free_allocation` returns with the books in order and the threads'
-- callstacks as they were; `get_allocation_size` then gives 0 at the address, and what it gave
-- before at all others.
pub get_allocation_size-free_allocation :
    (p : Process) (address : ℕ)
    → IsAccounted p.allocations
    → (p' : Process) × (free_allocation p address ≡ done p')
      × IsAccounted p'.allocations
      × (p'.threads ≡ p.threads)
      × (get_allocation_size p' address ≡ 0)
      × ((q : ℕ) → q ≢ address → get_allocation_size p' q ≡ get_allocation_size p q)
unfolding free_allocation size_or_zero
get_allocation_size-free_allocation p address a =
    let (u, ran, b, e) = free_allocation-Frees p.allocations address a in
    let p' = record p { allocations = u } in
    (
      p',
      rw ran refl,
      b,
      refl,
      get_allocation_size_lem p' address ∙ ap size_or_zero e.gone,
      λ q ne.
          get_allocation_size_lem p' q
          ∙ ap size_or_zero (e.others q ne)
          ∙ sym (get_allocation_size_lem p q),
    )
