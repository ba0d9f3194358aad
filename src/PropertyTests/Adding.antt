-- ===== src/PropertyTests/Adding.antt =====
-- The first loop of `current_allocated_matches_sum_of_allocations` of memapi/src/memorytracking.rs.
use mathlib.Core.List.{append_assoc, append-nil}
use filprofiler.Callstack
use filprofiler.Base.{
  ℕ, zero, suc, ◌+◌, ◌≤◌, ◌<◌, ◌≡◌, ◌≢◌, ◌==◌, if◌then◌else◌, List, [], ◌∷◌, ◌++◌, length,
  length-append, get_or, get_or_beyond, sum, All, lookup, some, none, done, refl, ap, sym, ◌∙◌,
  subst, arith, ℕ_discrete, inl, inr,
}
use filprofiler.Word.{usize_mod, u32_mod}
use filprofiler.HashMap.{lookup-All}
use filprofiler.Callstack.{Callstack, Callstack-discrete}
use filprofiler.Interner.Numbering.{id_of}
use filprofiler.Allocation.{new_allocation, high_32bit}
use filprofiler.Allocation.Rounding.{tracked, size-new_allocation_small}
use filprofiler.Tracker.{AllocationTracker, new_tracker, add_allocation}
use filprofiler.Tracker.Accounting.{IsAccounted, new_tracker-IsAccounted}
use filprofiler.Tracker.Accounting.Allocating.{add_allocation-Allocates}
use filprofiler.PropertyTests.{call_of, add_blocks}

-- Lists of numbers with the same length and the same members are the same.
pub get_or_ext :
    (k l : List ℕ) → length k ≡ length l → ((i : ℕ) → get_or k i 0 ≡ get_or l i 0) → k ≡ l
get_or_ext [] [] h e = refl
get_or_ext [] (y ∷ l) h e = absurd (omega (arith, h))
get_or_ext (x ∷ k) [] h e = absurd (omega (arith, h))
get_or_ext (x ∷ k) (y ∷ l) h e =
    let tail = get_or_ext k l (omega (arith, h)) (λ i. e (suc i)) in
    ap (λ z. z ∷ k) (e 0) ∙ ap (λ m. y ∷ m) tail

pub get_or-last :
    (l : List ℕ) (s i : ℕ)
    → get_or (l ++ s ∷ []) i 0 ≡ get_or l i 0 + (if length l == i then s else 0)
get_or-last [] s zero = omega arith
get_or-last [] s (suc i) = ground arith
get_or-last (x ∷ l) s zero = ground arith
get_or-last (x ∷ l) s (suc i) = ground (arith, get_or-last l s i)

pub get_or-last_self : (l : List ℕ) (s : ℕ) → get_or (l ++ s ∷ []) (length l) 0 ≡ s
get_or-last_self l s =
    ground (arith, get_or-last l s (length l), get_or_beyond l (length l) 0 (omega arith))

pub get_or-last_ne : (l : List ℕ) (s i : ℕ) → i ≢ length l → get_or (l ++ s ∷ []) i 0 ≡ get_or l i 0
get_or-last_ne l s i ne = ground (arith, get_or-last l s i)

pub sum-last : (l : List ℕ) (s : ℕ) → sum (l ++ s ∷ []) ≡ sum l + s
sum-last [] s = omega arith
sum-last (x ∷ l) s = omega (arith, sum-last l s)

first_function : Callstack → ℕ
first_function cs = elim cs.calls [ [] ↦ 0 | c ∷ _ ↦ c.function.function ]

pub call_of_ne : (i j : ℕ) → j ≢ i → call_of j ≢ call_of i
unfolding call_of first_function Callstack.start_call
call_of_ne i j ne e = ne (ap first_function e)

-- The tracker after blocks of the sizes `l`.
pub record Added (l : List ℕ) (t : AllocationTracker) : Type 0 where
  pub accounted : IsAccounted t
  pub usage : t.current_memory_usage ≡ l
  pub stored :
      (j : ℕ)
      → j < length l
      → lookup ℕ_discrete j t.current_allocations ≡ some (new_allocation j (get_or l j 0))
  pub fresh : (j : ℕ) → length l ≤ j → lookup ℕ_discrete j t.current_allocations ≡ none
  pub unknown : (j : ℕ) → length l ≤ j → id_of t.interner (call_of j) ≡ none
  pub no_peak : t.peak_allocated_bytes ≡ 0

pub new_tracker-Added : (path : List ℕ) → Added [] (new_tracker path)
unfolding new_tracker lookup
new_tracker-Added path = record {
  accounted = new_tracker-IsAccounted path;
  usage = refl;
  stored = λ j h. absurd (omega arith);
  fresh = λ j h. refl;
  unknown = λ j h. refl;
  no_peak = refl;
}

pub Added-total :
    (l : List ℕ) (t : AllocationTracker) → Added l t → t.current_allocated_bytes ≡ sum l
Added-total l t a = a.accounted.summed.total ∙ ap sum a.usage

module _ (l : List ℕ) (s : ℕ) (t : AllocationTracker) (a : Added l t) (small : s < high_32bit)
    (ids : length l + 1 < u32_mod) (room : sum l + s < usize_mod) where
  -- The next block.
  next_block :
      (t' : AllocationTracker) × (add_allocation t (length l) s (call_of (length l)) ≡ done t')
      × Added (l ++ s ∷ []) t'
  next_block =
      let i = length l in
      let b = a.accounted in
      let exact = size-new_allocation_small 0 s small in
      let last : t.interner.max_id ≡ i = sym b.slots ∙ ap length a.usage in
      let (t', ran, b', e) =
        add_allocation-Allocates t i s (call_of i) b (a.fresh i (omega arith)) (omega (arith, last))
          (omega (arith, exact, Added-total l t a)) in
      let own : e.id ≡ i = elim e.extends.known_or_new [
        | inl known ↦ absurd (cc (known, a.unknown i (omega arith)))
        | inr (_, new) ↦ new ∙ last
      ] in
      let used =
        lookup-All Callstack-discrete (λ n. n < t'.interner.max_id) (call_of i) e.id
          t'.interner.callstack_to_id b'.numbered.bounded e.found in
      let longer = length-append l (s ∷ []) in
      let tracked_s : tracked e.id s ≡ s = size-new_allocation_small e.id s small in
      (
        t',
        ran,
        record {
          accounted = b';
          usage =
              get_or_ext t'.current_memory_usage (l ++ s ∷ [])
                (omega (arith, b'.slots, e.grows, last, own, used, longer))
                (λ k. ground (
                  arith,
                  e.charged k,
                  get_or-last l s k,
                  ap (λ x. get_or x k 0) a.usage,
                  own,
                  tracked_s,
                ));
          stored = λ j h. elim (ℕ_discrete j i) [
            | yes p ↦ let here = get_or-last_self l s in cc (p, own, e.stored, here)
            | no p ↦
                e.others j p
                ∙ a.stored j (omega (arith, h, longer, p))
                ∙ ap (λ x. some (new_allocation j x)) (sym (get_or-last_ne l s j p))
          ];
          fresh =
              λ j h. e.others j (omega (arith, h, longer)) ∙ a.fresh j (omega (arith, h, longer));
          unknown = λ j h.
              e.extends.kept (call_of j) (call_of_ne i j (omega (arith, h, longer)))
              ∙ a.unknown j (omega (arith, h, longer));
          no_peak = e.same_peak ∙ a.no_peak;
        },
      )

pub add_blocks-Added :
    (l sizes : List ℕ) (t : AllocationTracker)
    → Added l t
    → All (λ s. s < high_32bit) sizes
    → length l + length sizes < u32_mod
    → sum l + sum sizes < usize_mod
    → (t' : AllocationTracker) × (add_blocks (length l) sizes t ≡ done t') × Added (l ++ sizes) t'
unfolding add_blocks
add_blocks-Added l [] t a small ids room = (t, refl, rw (append-nil l) a)
add_blocks-Added l (s ∷ sizes) t a small ids room =
    let (t1, ran, a1) = next_block l s t a small.0 (omega arith) (omega arith) in
    let longer : length (l ++ s ∷ []) ≡ suc (length l) = omega (arith, length-append l (s ∷ [])) in
    let (t', rest, a') =
      add_blocks-Added (l ++ s ∷ []) sizes t1 a1 small.1 (omega (arith, longer))
        (omega (arith, sum-last l s)) in
    (
      t',
      rw ran (subst (λ n. add_blocks n sizes t1 ≡ done t') longer rest),
      subst (λ x. Added x t') (append_assoc l (s ∷ []) sizes) a',
    )
