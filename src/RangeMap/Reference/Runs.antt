-- ===== src/RangeMap/Reference/Runs.antt =====
-- `StupidRangeMap::as_hashmap` of memapi/src/rangemap.rs: it joins the addresses to their runs.
pub mod Rounds
pub mod Whole
use native.Mathlib.Decide.{dec_lt}
use filprofiler.Base.{
  ℕ, suc, ◌+◌, ◌-◌, ◌≤◌, ◌<◌, ◌≡◌, ◌≢◌, ◌∙◌, ◌⊎◌, inl, inr, min, refl, sym, ap, subst, [], ◌∷◌,
  ◌==◌, ◌&&◌, ltb, if◌then◌else◌, true, false, arith, lookup, Option, Option-cases, none, some,
  ℕ_discrete, if_pos, if_neg,
}
use filprofiler.Word.{usize_mod, add_usize, add_usize_exact}
use filprofiler.HashMap.{HashMap, IsUnique, insert, lookup-insert_self, lookup-insert_ne}
use filprofiler.RangeMap.Reference.{
  Coalescing, StupidRangeMap, eq, coalesce_one, coalesce, as_hashmap, in_order,
}
use filprofiler.RangeMap.Reference.Order.{IsFrom, lookup-below, lookup-in_order, in_order-IsFrom}

-- The entries of `runs` are the runs of `f`: each a start with a length and a value. The runs hold
-- the addresses of `f`, overlap nowhere, and one that starts where another ends has another value.
pub record AreRuns {V : Type 0} (f : ℕ → Option V) (runs : ℕ → Option (ℕ × V)) : Type 0 where
  pub holds : (k n a : ℕ) (v : V) → runs k ≡ some (n, v) → k ≤ a → a < k + n → f a ≡ some v
  pub held :
      (a : ℕ) (v : V) → f a ≡ some v → (k n : ℕ) × (runs k ≡ some (n, v)) × (k ≤ a) × (a < k + n)
  pub apart :
      (k l m n a : ℕ) (v w : V)
      → runs k ≡ some (m, v)
      → runs l ≡ some (n, w)
      → k ≤ a
      → a < k + m
      → l ≤ a
      → a < l + n
      → k ≡ l
  pub changes : (k m n : ℕ) (v w : V) → runs k ≡ some (m, v) → runs (k + m) ≡ some (n, w) → v ≢ w
  pub nonempty : (k n : ℕ) (v : V) → runs k ≡ some (n, v) → 0 < n
  pub bounded : (k n : ℕ) (v : V) → runs k ≡ some (n, v) → k + n < usize_mod

module _ {V : Type 0} where
  lookup-insert_at :
      (q k : ℕ) (x : ℕ × V) (m : HashMap ℕ (ℕ × V))
      → q ≡ k
      → lookup ℕ_discrete q (insert ℕ_discrete k x m) ≡ some x
  lookup-insert_at q k x m e =
      ap (λ a. lookup ℕ_discrete a (insert ℕ_discrete k x m)) e
      ∙ lookup-insert_self ℕ_discrete k x m

  -- The part of a run below `b`.
  abbrev cut : ℕ → ℕ → Option (ℕ × V) → Option (ℕ × V)
  cut b k none = none
  cut b k (some (n, v)) = if ltb k b then some (min n (b - k), v) else none

module _ {V : Type 0} (f : ℕ → Option V) (runs : ℕ → Option (ℕ × V)) (r : AreRuns f runs) where
  -- Where the last entry is: there was none, or it is the run that holds the last address.
  abbrev IsLast : ℕ → Coalescing V → Type 0
  IsLast b s =
      ((s.last_entry ≡ none) × ((a : ℕ) → a < b → f a ≡ none))
      ⊎ ((key n : ℕ) × (w : V) × (s.last_entry ≡ some key)
          × (runs key ≡ some (n, w))
          × (key ≤ s.last_k)
          × (s.last_k < key + n)
          × (s.last_k < b)
          × ((a : ℕ) → s.last_k < a → a < b → f a ≡ none))

  -- The loop has seen the addresses below `b`.
  record HasSeen (b : ℕ) (s : Coalescing V) : Type 0 where
    entries : (k : ℕ) → lookup ℕ_discrete k s.result ≡ cut b k (runs k)
    last : IsLast b s

  -- No address from `b` to `c` holds anything.
  abbrev IsGap : ℕ → ℕ → Type 0
  IsGap b c = (a : ℕ) → b ≤ a → a < c → f a ≡ none

  cut_gap : (b c : ℕ) → b ≤ c → IsGap b c → (k : ℕ) → cut b k (runs k) ≡ cut c k (runs k)
  cut_gap b c h gap k = elim (Option-cases (runs k)) [
    | inl e ↦ rw e refl
    | inr ((n, v), e) ↦
        let pos = r.nonempty k n v e in
        ground (arith, e, h, pos, gap k, r.holds k n k v e, gap b, r.holds k n b v e)
  ]

  HasSeen-gap : (b c : ℕ) (s : Coalescing V) → b ≤ c → IsGap b c → HasSeen b s → HasSeen c s
  HasSeen-gap b c s h gap seen = record {
    entries = λ k. seen.entries k ∙ cut_gap b c h gap k;
    last = elim seen.last [
      | inl (e, free) ↦
          inl (e, λ a l. elim (dec_lt a b) [ yes p ↦ free a p | no p ↦ gap a (omega (arith, p)) l ])
      | inr (key, n, w, e, known, low, high, below, free) ↦ inr (
        key,
        n,
        w,
        e,
        known,
        low,
        high,
        omega arith,
        λ a l l'. elim (dec_lt a b) [ yes p ↦ free a l p | no p ↦ gap a (omega (arith, p)) l' ],
      )
    ];
  }
