-- ===== src/Profile/Refinement.antt =====
-- The tracker of memapi/src/memorytracking.rs against its profile.
use mathlib.Core.Path.{fun_ext}
use mathlib.Core.List.{append-nil}
use filprofiler.Base.{
  ℕ, ◌≤◌, ◌≡◌, Bool-cases, true, [], Option, none, some, lookup, refl, sym, ap, ◌∙◌, inl, inr,
  arith, Option-cases, ℕ_discrete,
}
use filprofiler.Callstack.{Callstack}
use filprofiler.RangeMap.{RangeMap}
use filprofiler.RangeMap.Points.{within, values_at}
use filprofiler.RangeMap.Disjoint.{IsDisjoint}
use filprofiler.Interner.Numbering.{id_of}
use filprofiler.Interner.Extension.{name_of_found, by_name, by_name-Extends, by_name_less}
use filprofiler.Allocation.{Allocation, new_allocation, size}
use filprofiler.Allocation.Rounding.{tracked}
use filprofiler.Tracker.{AllocationTracker, check_if_new_peak}
use filprofiler.Tracker.Peak.{peak_is_max}
use filprofiler.Tracker.Slots.{usage_of}
use filprofiler.Tracker.Accounting.{IsAccounted}
use filprofiler.Tracker.Accounting.Allocating.{Allocates}
use filprofiler.Tracker.Accounting.Freeing.{Frees}
use filprofiler.Tracker.Accounting.Mapping.{Maps}
use filprofiler.Tracker.Accounting.Unmapping.{Unmaps}
use filprofiler.Tracker.History.{Moves, allocates, maps, frees, unmaps, up, down}
use filprofiler.Profile.{Profile_path, profile, change, release, block_of, page_of}
use filprofiler.Profile.Names.{block_of-Extends, page_of-Extends, block_of_some}
use filprofiler.Profile.Pages.{by_name-Unmaps, total-Unmaps}
use filprofiler.Profile.Peaks.{usage_of_new, Moves-peak, Moves-Extends, Moves-lower}

module _ (t : AllocationTracker) (a : IsAccounted t) (t' : AllocationTracker)
    (a' : IsAccounted t') where
  pub profile-Allocates :
      (address bytes : ℕ) (cs : Callstack)
      → Allocates t address bytes cs t'
      → profile t' ≡ change (allocates address bytes cs) (profile t)
  unfolding profile change new_allocation size
  profile-Allocates address bytes cs e =
      let m : Moves t t' =
        up e.id (tracked e.id bytes) e.charged e.total e.same_peak e.same_peak_usage in
      let named = name_of_found t.interner t'.interner cs e.id e.extends a.numbered a'.numbered in
      let used =
        by_name-Extends t.interner t'.interner cs e.id e.extends a.numbered a'.numbered (usage_of t)
          (usage_of t') (tracked 0 bytes) e.charged (usage_of_new t a e.id) in
      Profile_path (profile t') (change (allocates address bytes cs) (profile t))
        (fun_ext λ q. elim (ℕ_discrete q address) [
          | yes p ↦ ground (arith, p, e.stored, named)
          | no p ↦ ground (
            arith,
            p,
            e.others q p,
            block_of-Extends t a t'.interner cs e.id e.extends a'.numbered q,
          )
        ])
        (fun_ext λ q.
          ap (λ (w : RangeMap ℕ). page_of t'.interner (values_at q w.ranges)) e.same_mmaps
          ∙ page_of-Extends t a t'.interner cs e.id e.extends a'.numbered q)
        (fun_ext used) e.total
        (fun_ext
          λ k. Moves-Extends t t' m cs e.id a a' e.extends k ∙ ground (arith, e.total, used k))
        (Moves-peak t t' m ∙ ground (arith, e.total))

  pub profile-Maps :
      (address bytes : ℕ) (cs : Callstack)
      → Maps t address bytes cs t'
      → ((q : ℕ) → within address bytes q ≡ true → values_at q t.current_anon_mmaps.ranges ≡ [])
      → profile t' ≡ change (maps address bytes cs) (profile t)
  unfolding profile change
  profile-Maps address bytes cs e free =
      let m : Moves t t' = up e.id bytes e.charged e.total e.same_peak e.same_peak_usage in
      let named = name_of_found t.interner t'.interner cs e.id e.extends a.numbered a'.numbered in
      let used =
        by_name-Extends t.interner t'.interner cs e.id e.extends a.numbered a'.numbered (usage_of t)
          (usage_of t') bytes e.charged (usage_of_new t a e.id) in
      Profile_path (profile t') (change (maps address bytes cs) (profile t))
        (fun_ext λ q.
          ap (λ m'. block_of t'.interner (lookup ℕ_discrete q m')) e.same_allocations
          ∙ block_of-Extends t a t'.interner cs e.id e.extends a'.numbered q)
        (fun_ext λ q. elim (Bool-cases (within address bytes q)) [
          | inl p ↦ ap (page_of t'.interner) (e.points q) ∙ rw (p, free q p) named
          | inr p ↦
              ap (page_of t'.interner) (e.points q)
              ∙ rw p (
                  ap (page_of t'.interner) (append-nil (values_at q t.current_anon_mmaps.ranges))
                  ∙ page_of-Extends t a t'.interner cs e.id e.extends a'.numbered q)
        ])
        (fun_ext used) e.total
        (fun_ext
          λ k. Moves-Extends t t' m cs e.id a a' e.extends k ∙ ground (arith, e.total, used k))
        (Moves-peak t t' m ∙ ground (arith, e.total))

  -- Calls that keep the interner.
  module _ (same : t'.interner ≡ t.interner) where
    same_blocks :
        (q : ℕ)
        → lookup ℕ_discrete q t'.current_allocations ≡ lookup ℕ_discrete q t.current_allocations
        → block_of t'.interner (lookup ℕ_discrete q t'.current_allocations)
          ≡ block_of t.interner (lookup ℕ_discrete q t.current_allocations)
    same_blocks q e = rw (same, e) refl

    same_pages :
        (q : ℕ)
        → values_at q t'.current_anon_mmaps.ranges ≡ values_at q t.current_anon_mmaps.ranges
        → page_of t'.interner (values_at q t'.current_anon_mmaps.ranges)
          ≡ page_of t.interner (values_at q t.current_anon_mmaps.ranges)
    same_pages q e = rw (same, e) refl

    -- The recorded peak of a call that does not raise the total.
    lower_peak :
        Moves t t'
        → t'.current_allocated_bytes ≤ t.current_allocated_bytes
        → (check_if_new_peak t').peak_allocated_bytes ≡ (check_if_new_peak t).peak_allocated_bytes
    lower_peak m less = omega (arith, Moves-peak t t' m, peak_is_max t)

  pub profile-Frees-none :
      (address : ℕ)
      → Frees t address t'
      → lookup ℕ_discrete address t.current_allocations ≡ none
      → profile t' ≡ profile t
  unfolding profile
  profile-Frees-none address e absent =
      let less : t'.current_allocated_bytes ≤ t.current_allocated_bytes = omega (arith, e.total) in
      let m : Moves t t' = down less e.peak e.peak_usage in
      Profile_path (profile t') (profile t)
        (fun_ext λ q. elim (ℕ_discrete q address) [
          | yes p ↦ same_blocks e.same_interner q (
              ap (λ x. lookup ℕ_discrete x t'.current_allocations) p
              ∙ e.gone
              ∙ sym (ap (λ x. lookup ℕ_discrete x t.current_allocations) p ∙ absent))
          | no p ↦ same_blocks e.same_interner q (e.others q p)
        ])
        (fun_ext λ q.
          same_pages e.same_interner q (ap (λ (w : RangeMap ℕ). values_at q w.ranges) e.same_mmaps))
        (fun_ext λ k. rw e.same_interner (
          ap (λ (f : ℕ → ℕ). by_name t.interner f k)
            (fun_ext λ id. ground (arith, e.credited id, absent))))
        (ground (arith, e.total, absent)) (fun_ext (Moves-lower t t' m less e.same_interner))
        (lower_peak e.same_interner m less)

  profile-Frees-some :
      (address : ℕ) (alloc : Allocation) (cs : Callstack)
      → Frees t address t'
      → lookup ℕ_discrete address t.current_allocations ≡ some alloc
      → id_of t.interner cs ≡ some alloc.callstack_id
      → profile t' ≡ release address (some (cs, size alloc)) (profile t)
  unfolding profile
  profile-Frees-some address alloc cs e there named =
      let less : t'.current_allocated_bytes ≤ t.current_allocated_bytes = omega (arith, e.total) in
      let m : Moves t t' = down less e.peak e.peak_usage in
      Profile_path (profile t') _
        (fun_ext λ q. elim (ℕ_discrete q address) [
          | yes p ↦ ground (arith, p, e.gone)
          | no p ↦ same_blocks e.same_interner q (e.others q p) ∙ ground (arith, p)
        ])
        (fun_ext λ q.
          same_pages e.same_interner q (ap (λ (w : RangeMap ℕ). values_at q w.ranges) e.same_mmaps))
        (fun_ext λ k. rw e.same_interner (
          by_name_less t.interner cs alloc.callstack_id a.numbered named (usage_of t) (usage_of t')
            (size alloc) (λ id. ground (arith, e.credited id, there)) k))
        (ground (arith, e.total, there)) (fun_ext (Moves-lower t t' m less e.same_interner))
        (lower_peak e.same_interner m less)

  pub profile-Frees :
      (address : ℕ) → Frees t address t' → profile t' ≡ change (frees address) (profile t)
  unfolding profile change
  profile-Frees address e = elim (Option-cases (lookup ℕ_discrete address t.current_allocations)) [
    | inl absent ↦
        profile-Frees-none address e absent
        ∙ ap (λ b. release address b (profile t)) (sym (ap (block_of t.interner) absent))
    | inr (alloc, there) ↦
        let (cs, name, named) = block_of_some t a address alloc there in
        profile-Frees-some address alloc cs e there named
        ∙ ap (λ b. release address b (profile t))
            (sym (
              ap (block_of t.interner) there
              ∙ ap
                  (λ (n : Option Callstack). elim n [ none ↦ none | some k ↦ some (k, size alloc) ])
                  name))
  ]

  pub profile-Unmaps :
      (address bytes : ℕ)
      → IsDisjoint t.current_anon_mmaps
      → Unmaps t address bytes t'
      → profile t' ≡ change (unmaps address bytes) (profile t)
  unfolding profile change
  profile-Unmaps address bytes d e =
      let m : Moves t t' = down e.no_more e.peak e.peak_usage in
      Profile_path (profile t') _
        (fun_ext λ q. same_blocks e.same_interner q (ap (lookup ℕ_discrete q) e.same_allocations))
        (fun_ext λ q. ground (arith, e.same_interner, e.points q))
        (fun_ext λ k. rw e.same_interner (by_name-Unmaps t a d address bytes t' e k))
        (total-Unmaps t a d address bytes t' e)
        (fun_ext (Moves-lower t t' m e.no_more e.same_interner))
        (lower_peak e.same_interner m e.no_more)
