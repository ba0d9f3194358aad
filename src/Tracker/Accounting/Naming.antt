-- ===== src/Tracker/Accounting/Naming.antt =====
-- `AllocationTracker::get_callstack_id` of memapi/src/memorytracking.rs and the books.
use filprofiler.Base.{
  ℕ, ◌+◌, ◌≤◌, ◌<◌, ◌≡◌, ltb, true, List, [], ◌∷◌, ◌++◌, get_or, get_or-push, sum_by-append, sum,
  All, length, length-append, refl, sym, ◌∙◌, arith, inl, inr, some,
}
use filprofiler.Word.{u32_mod}
use filprofiler.Callstack.{Callstack}
use filprofiler.Interner.{CallstackInterner, get_or_insert_id}
use filprofiler.Interner.Numbering.{
  Interns, id_of, get_or_insert_id-Interns, Interns-max_id, id_of-lt,
}
use filprofiler.Interner.Extension.{Extends, Interns-Extends}
use filprofiler.Tracker.{AllocationTracker, get_callstack_id}
use filprofiler.Tracker.Slots.{usage_of}
use filprofiler.Tracker.Accounting.{IsAccounted}

pub All-ltb_mono {ℓ} :
    {A : Type ℓ} (f : A → ℕ) (m n : ℕ) (l : List A)
    → m ≤ n
    → All (λ e. ltb (f e) m ≡ true) l
    → All (λ e. ltb (f e) n ≡ true) l
All-ltb_mono f m n [] h a = tt
All-ltb_mono f m n (x ∷ l) h a = (ground arith, All-ltb_mono f m n l h a.1)

-- What `get_callstack_id` promises beside the books being in order.
pub record Names (t : AllocationTracker) (cs : Callstack) (r : AllocationTracker × ℕ) : Type 0 where
  pub found : id_of r.0.interner cs ≡ some r.1
  pub valid : r.1 < length r.0.current_memory_usage
  pub same :
      r.0 ≡ record t { interner = r.0.interner; current_memory_usage = r.0.current_memory_usage }
  pub same_usage : (id : ℕ) → usage_of r.0 id ≡ usage_of t id
  pub extends : Extends t.interner cs r.0.interner r.1
  pub grows : r.0.interner.max_id ≤ t.interner.max_id + 1

module _ (t : AllocationTracker) (cs : Callstack) (r : CallstackInterner × List ℕ × ℕ)
    (n : Interns t.interner cs (λ (u : List ℕ). u ++ 0 ∷ []) t.current_memory_usage r) where
  slots_kept : length t.current_memory_usage ≡ t.interner.max_id → length r.1 ≡ r.0.max_id
  slots_kept h = elim n.new_or_old [
    | inl (_, e, f) ↦ rw (e, f) h
    | inr (_, _, e, f) ↦ rw (e, f) (omega (arith, length-append t.current_memory_usage (0 ∷ []), h))
  ]

  usage_kept : (id : ℕ) → get_or r.1 id 0 ≡ get_or t.current_memory_usage id 0
  usage_kept id = elim n.new_or_old [
    | inl (_, e, f) ↦ rw f refl
    | inr (_, _, e, f) ↦ rw f (get_or-push t.current_memory_usage id 0)
  ]

  sum_kept : sum r.1 ≡ sum t.current_memory_usage
  sum_kept = elim n.new_or_old [
    | inl (_, e, f) ↦ rw f refl
    | inr (_, _, e, f) ↦
        rw f (omega (arith, sum_by-append (λ (x : ℕ). x) t.current_memory_usage (0 ∷ [])))
  ]

  module _ (a : IsAccounted t) (room : t.interner.max_id + 1 < u32_mod) where
    renamed_total : t.current_allocated_bytes ≡ sum r.1
    renamed_total = a.summed.total ∙ sym sum_kept

    more : t.interner.max_id ≤ r.0.max_id
    more = (Interns-max_id t.interner cs (λ (u : List ℕ). u ++ 0 ∷ []) t.current_memory_usage r n).0

    most : r.0.max_id ≤ t.interner.max_id + 1
    most = (Interns-max_id t.interner cs (λ (u : List ℕ). u ++ 0 ∷ []) t.current_memory_usage r n).1

    renamed-IsAccounted : IsAccounted (record t { interner = r.0; current_memory_usage = r.1 })
    renamed-IsAccounted = record {
      numbered = n.valid;
      slots = slots_kept a.slots;
      unique = a.unique;
      mmaps = a.mmaps;
      allocation_ids = All-ltb_mono _ _ _ t.current_allocations more a.allocation_ids;
      mmap_ids = All-ltb_mono _ _ _ t.current_anon_mmaps.ranges more a.mmap_ids;
      usage = λ id. usage_kept id ∙ a.usage id;
      summed = record { total = renamed_total; fits = a.summed.fits };
      peak_total = a.peak_total;
      peak_slots = omega (arith, a.peak_slots, more);
      ids_last = omega (arith, room, most);
    }

    renamed-Names : Names t cs (record t { interner = r.0; current_memory_usage = r.1 }, r.2)
    renamed-Names = record {
      found = n.found;
      valid = rw (slots_kept a.slots) (id_of-lt r.0 cs r.2 n.valid n.found);
      same = refl;
      same_usage = usage_kept;
      extends =
          Interns-Extends t.interner cs (λ (u : List ℕ). u ++ 0 ∷ []) t.current_memory_usage r n;
      grows = most;
    }

-- While numbers last, `get_callstack_id` keeps the books in order.
pub get_callstack_id-Names :
    (t : AllocationTracker) (cs : Callstack)
    → IsAccounted t
    → t.interner.max_id + 1 < u32_mod
    → IsAccounted (get_callstack_id t cs).0 × Names t cs (get_callstack_id t cs)
unfolding get_callstack_id
get_callstack_id-Names t cs a room =
    let r = get_or_insert_id t.interner cs (λ (u : List ℕ). u ++ 0 ∷ []) t.current_memory_usage in
    let n =
      get_or_insert_id-Interns t.interner cs (λ (u : List ℕ). u ++ 0 ∷ []) t.current_memory_usage
        a.numbered room in
    (renamed-IsAccounted t cs r n a room, renamed-Names t cs r n a room)
