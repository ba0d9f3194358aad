-- ===== src/RangeMap/Reference/Order.antt =====
-- The entries of `StupidRangeMap` (memapi/src/rangemap.rs) in the order of their addresses.
use filprofiler.Base.{
  ℕ, suc, ◌≤◌, ◌<◌, ◌≡◌, ◌∙◌, refl, [], ◌∷◌, leb, ◌&&◌, if◌then◌else◌, arith, lookup, none, some,
  ℕ_discrete,
}
use filprofiler.HashMap.{HashMap, IsUnique}
use filprofiler.RangeMap.Reference.{place, in_order}

module _ {V : Type 0} where
  -- Ascending keys, from `b` on.
  abbrev pub IsFrom : ℕ → HashMap ℕ V → Type 0
  IsFrom b [] = Unit
  IsFrom b ((k, v) ∷ m) = (b ≤ k) × IsFrom (suc k) m

  pub lookup-below : (b a : ℕ) (m : HashMap ℕ V) → IsFrom b m → a < b → lookup ℕ_discrete a m ≡ none
  unfolding lookup
  lookup-below b a [] h l = refl
  lookup-below b a ((k, v) ∷ m) h l =
      ground (arith, lookup-below (suc k) a m h.1 (omega (arith, h.0)), h.0)

  lookup-place :
      (k a : ℕ) (v : V) (m : HashMap ℕ V)
      → lookup ℕ_discrete a (place k v m)
        ≡ (if leb k a && leb a k then some v else lookup ℕ_discrete a m)
  unfolding place lookup
  lookup-place k a v [] = ground arith
  lookup-place k a v ((j, w) ∷ m) = ground (arith, lookup-place k a v m)

  pub lookup-in_order :
      (a : ℕ) (m : HashMap ℕ V) → lookup ℕ_discrete a (in_order m) ≡ lookup ℕ_discrete a m
  unfolding in_order lookup
  lookup-in_order a [] = refl
  lookup-in_order a ((k, v) ∷ m) =
      ground (arith, lookup-place k a v (in_order m), lookup-in_order a m)

  IsFrom-place :
      (b k : ℕ) (v : V) (m : HashMap ℕ V)
      → IsFrom b m
      → b ≤ k
      → lookup ℕ_discrete k m ≡ none
      → IsFrom b (place k v m)
  unfolding place lookup
  IsFrom-place b k v [] h l e = (l, tt)
  IsFrom-place b k v ((j, w) ∷ m) h l e =
      ground (arith, IsFrom-place (suc j) k v m h.1, h.0, h.1, l, e)

  pub in_order-IsFrom : (m : HashMap ℕ V) → IsUnique ℕ_discrete m → IsFrom 0 (in_order m)
  unfolding in_order
  in_order-IsFrom [] u = tt
  in_order-IsFrom ((k, v) ∷ m) u =
      IsFrom-place 0 k v (in_order m) (in_order-IsFrom m u.1) (omega arith)
        (lookup-in_order k m ∙ u.0)
