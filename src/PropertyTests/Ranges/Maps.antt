-- ===== src/PropertyTests/Ranges/Maps.antt =====
-- The comparisons of maps in `adding_removing_ranges` of memapi/src/rangemap.rs.
use filprofiler.Base.{
  ◌≡◌, ◌∙◌, refl, sym, ap, [], ◌∷◌, ◌==◌, true, false, arith, lookup, length, some, if_pos, if_neg,
}
use filprofiler.HashMap.Order.{lookup_tail}
use filprofiler.HashMap.{HashMap, IsUnique, remove, remove-IsUnique, length-remove}
use filprofiler.PropertyTests.Ranges.{is_in, eq_maps}

module _ {K V : Type 0} (dec : Discrete K) (same : Discrete V) where
  is_in_of :
      (m n : HashMap K V)
      → IsUnique dec m
      → ((k : K) (v : V) → lookup dec k m ≡ some v → lookup dec k n ≡ some v)
      → is_in dec same m n ≡ true
  unfolding lookup
  is_in_of [] n u h = refl
  is_in_of ((k, v) ∷ m) n u h =
      let here : lookup dec k n ≡ some v = h k v (if_pos (dec k k) refl (some v) _) in
      let rest = is_in_of m n u.1 (λ q w e. h q w (elim (dec q k) [
        | yes p ↦ absurd (cc (ap (λ x. lookup dec x m) p, u.0, e))
        | no p ↦ if_neg (dec q k) p (some v) (lookup dec q m) ∙ e
      ])) in
      rw (here, if_pos (same v v) refl true false, rest) refl

  length_of :
      (m n : HashMap K V)
      → IsUnique dec m
      → IsUnique dec n
      → ((k : K) → lookup dec k m ≡ lookup dec k n)
      → length m ≡ length n
  unfolding lookup
  length_of [] [] u w h = refl
  length_of [] ((k, v) ∷ n) u w h =
      absurd (cc (h k, if_pos (dec k k) refl (some v) (lookup dec k n)))
  length_of ((k, v) ∷ m) n u w h =
      let here : lookup dec k n ≡ some v =
        sym (h k) ∙ if_pos (dec k k) refl (some v) (lookup dec k m) in
      let rest =
        length_of m (remove dec k n) u.1 (remove-IsUnique dec k n w)
          (lookup_tail dec k v m n u.0 h) in
      omega (arith, rest, length-remove dec k v n w here)

  -- Maps that give the same at every key are equal.
  pub eq_maps_of :
      (m n : HashMap K V)
      → IsUnique dec m
      → IsUnique dec n
      → ((k : K) → lookup dec k m ≡ lookup dec k n)
      → eq_maps dec same m n ≡ true
  eq_maps_of m n u w h =
      let long : (length m == length n) ≡ true = ground (arith, length_of m n u w h) in
      rw (long, is_in_of m n u (λ k v e. sym (h k) ∙ e)) refl
