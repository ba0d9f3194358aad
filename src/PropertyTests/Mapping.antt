-- ===== src/PropertyTests/Mapping.antt =====
-- The first loop of `current_allocated_anon_maps_matches_sum_of_allocations` of
-- memapi/src/memorytracking.rs.
use mathlib.Core.List.{append_assoc, append-nil}
use filprofiler.Base.{
  ℕ, zero, suc, ◌+◌, ◌≤◌, ◌<◌, ◌≡◌, List, [], ◌∷◌, ◌++◌, length, length-append, All-append, get_or,
  sum, All, lookup, none, done, refl, ap, sym, ◌∙◌, subst, arith, ℕ_discrete, inl, inr, ◌*◌, true,
}
use filprofiler.Word.{usize_mod, u32_mod, mul_usize, mul_usize_exact}
use filprofiler.HashMap.{lookup-All}
use filprofiler.Callstack.{Callstack-discrete}
use filprofiler.Interner.Numbering.{id_of}
use filprofiler.Tracker.{AllocationTracker, new_tracker, add_anon_mmap}
use filprofiler.Tracker.Accounting.{IsAccounted, new_tracker-IsAccounted}
use filprofiler.PropertyTests.{call_of, add_mappings}
use filprofiler.RangeMap.Points.{within, values_at}
use filprofiler.Tracker.Accounting.Mapping.{add_anon_mmap-Maps}
use filprofiler.PropertyTests.Adding.{
  get_or_ext, get_or-last, get_or-last_self, get_or-last_ne, sum-last, call_of_ne,
}

-- The mapping with an index holds its addresses alone.
abbrev pub IsMapped : List ℕ → AllocationTracker → ℕ → Type 0
IsMapped l t j =
    (a : ℕ)
    → within (j * 10000) (get_or l j 0) a ≡ true
    → values_at a t.current_anon_mmaps.ranges ≡ j ∷ []

-- The tracker after mappings of the sizes `l`.
pub record Mapped (l : List ℕ) (t : AllocationTracker) : Type 0 where
  pub accounted : IsAccounted t
  pub usage : t.current_memory_usage ≡ l
  pub stored : (j : ℕ) → j < length l → IsMapped l t j
  pub fresh : (a : ℕ) → length l * 10000 ≤ a → values_at a t.current_anon_mmaps.ranges ≡ []
  pub unknown : (j : ℕ) → length l ≤ j → id_of t.interner (call_of j) ≡ none
  pub no_peak : t.peak_allocated_bytes ≡ 0

pub new_tracker-Mapped : (path : List ℕ) → Mapped [] (new_tracker path)
unfolding new_tracker lookup
new_tracker-Mapped path = record {
  accounted = new_tracker-IsAccounted path;
  usage = refl;
  stored = λ j h. absurd (omega arith);
  fresh = λ a h. refl;
  unknown = λ j h. refl;
  no_peak = refl;
}

pub Mapped-total :
    (l : List ℕ) (t : AllocationTracker) → Mapped l t → t.current_allocated_bytes ≡ sum l
Mapped-total l t a = a.accounted.summed.total ∙ ap sum a.usage

pub get_or-narrow : (l : List ℕ) (j : ℕ) → All (λ n. n < 10000) l → get_or l j 0 < 10000
get_or-narrow [] j h = omega arith
get_or-narrow (n ∷ l) zero h = h.0
get_or-narrow (n ∷ l) (suc j) h = get_or-narrow l j h.1

module _ (l : List ℕ) (s : ℕ) (t : AllocationTracker) (a : Mapped l t)
    (small : All (λ n. n < 10000) l) (narrow : s < 10000) (ids : length l + 1 < u32_mod)
    (room : sum l + s < usize_mod) where
  -- The next mapping.
  next_mapping :
      (t' : AllocationTracker) × (add_anon_mmap t
          (mul_usize (length l) 10000)
          s
          (call_of (length l))
        ≡ done t')
      × Mapped (l ++ s ∷ []) t'
  next_mapping =
      let i = length l in
      let b = a.accounted in
      let last : t.interner.max_id ≡ i = sym b.slots ∙ ap length a.usage in
      let (t', ran, b', e) =
        add_anon_mmap-Maps t (i * 10000) s (call_of i) b (omega arith) (omega (arith, last))
          (omega (arith, Mapped-total l t a)) in
      let own : e.id ≡ i = elim e.extends.known_or_new [
        | inl known ↦ absurd (cc (known, a.unknown i (omega arith)))
        | inr (_, new) ↦ new ∙ last
      ] in
      let used =
        lookup-All Callstack-discrete (λ n. n < t'.interner.max_id) (call_of i) e.id
          t'.interner.callstack_to_id b'.numbered.bounded e.found in
      let longer = length-append l (s ∷ []) in
      (
        t',
        rw (mul_usize_exact i 10000 (omega arith)) ran,
        record {
          accounted = b';
          usage =
              get_or_ext t'.current_memory_usage (l ++ s ∷ [])
                (omega (arith, b'.slots, e.grows, last, own, used, longer))
                (λ k.
                  ground
                    (arith, e.charged k, get_or-last l s k, ap (λ x. get_or x k 0) a.usage, own));
          stored = λ j h x w. elim (ℕ_discrete j i) [
            | yes p ↦ ground (arith, p, e.points x, own, get_or-last_self l s, w, a.fresh x)
            | no p ↦
                let old = get_or-last_ne l s j p in
                ground (
                  arith,
                  e.points x,
                  old,
                  w,
                  a.stored j (omega (arith, h, longer, p)) x,
                  get_or-narrow l j small,
                  h,
                  longer,
                  p,
                )
          ];
          fresh =
              λ x h. ground (arith, e.points x, a.fresh x (omega (arith, h, longer)), h, longer);
          unknown = λ j h.
              e.extends.kept (call_of j) (call_of_ne i j (omega (arith, h, longer)))
              ∙ a.unknown j (omega (arith, h, longer));
          no_peak = e.same_peak ∙ a.no_peak;
        },
      )

pub add_mappings-Mapped :
    (l sizes : List ℕ) (t : AllocationTracker)
    → Mapped l t
    → All (λ n. n < 10000) l
    → All (λ n. n < 10000) sizes
    → length l + length sizes < u32_mod
    → sum l + sum sizes < usize_mod
    → (t' : AllocationTracker) × (add_mappings (length l) sizes t ≡ done t')
      × Mapped (l ++ sizes) t'
unfolding add_mappings
add_mappings-Mapped l [] t a small narrow ids room = (t, refl, rw (append-nil l) a)
add_mappings-Mapped l (s ∷ sizes) t a small narrow ids room =
    let (t1, ran, a1) = next_mapping l s t a small narrow.0 (omega arith) (omega arith) in
    let longer : length (l ++ s ∷ []) ≡ suc (length l) = omega (arith, length-append l (s ∷ [])) in
    let (t', rest, a') =
      add_mappings-Mapped (l ++ s ∷ []) sizes t1 a1
        (All-append (λ n. n < 10000) l (s ∷ []) small (narrow.0, tt)) narrow.1
        (omega (arith, longer)) (omega (arith, sum-last l s)) in
    (
      t',
      rw ran (subst (λ n. add_mappings n sizes t1 ≡ done t') longer rest),
      subst (λ x. Mapped x t') (append_assoc l (s ∷ []) sizes) a',
    )
