-- ===== src/HashMap/Order.antt =====
-- Maps with the same entries in another order, as the standard library leaves the order open.
use mathlib.Core.List.{Perm}
use mathlib.Core.List.Perm
use filprofiler.Base.{◌≡◌, ◌∙◌, sym, ap, refl, [], ◌∷◌, lookup, some, none, if_pos, if_neg}
use filprofiler.HashMap.{
  HashMap, IsUnique, remove, remove_absent, lookup-remove_self, lookup-remove_ne, remove-IsUnique,
}

module _ {K V : Type 0} (dec : Discrete K) where
  -- The entries behind the first are those of the other map without its key.
  pub lookup_tail :
      (k : K) (v : V) (m n : HashMap K V)
      → lookup dec k m ≡ none
      → ((q : K) → lookup dec q ((k, v) ∷ m) ≡ lookup dec q n)
      → (q : K) → lookup dec q m ≡ lookup dec q (remove dec k n)
  unfolding lookup
  lookup_tail k v m n fresh h q = elim (dec q k) [
    | yes p ↦
        ap (λ x. lookup dec x m) p
        ∙ fresh
        ∙ sym (lookup-remove_self dec k n)
        ∙ ap (λ x. lookup dec x (remove dec k n)) (sym p)
    | no p ↦
        sym (if_neg (dec q k) p (some v) (lookup dec q m))
        ∙ h q
        ∙ sym (lookup-remove_ne dec k q n p)
  ]

  remove-perm :
      (k : K) (v : V) (m : HashMap K V)
      → IsUnique dec m
      → lookup dec k m ≡ some v
      → Perm m ((k, v) ∷ remove dec k m)
  unfolding lookup remove
  remove-perm k v [] u e = absurd (cc e)
  remove-perm k v ((j, w) ∷ m) u e = elim (dec k j) [
    | yes p ↦
        let same : w ≡ v = cc (if_pos (dec k j) p (some w) (lookup dec k m), e) in
        let whole : remove dec k ((j, w) ∷ m) ≡ m =
          if_pos (dec k j) p (remove dec k m) ((j, w) ∷ remove dec k m)
          ∙ remove_absent dec k m (ap (λ x. lookup dec x m) p ∙ u.0) in
        rw (whole, p, ← same) Perm.rfl
    | no p ↦
        let there : lookup dec k m ≡ some v =
          sym (if_neg (dec k j) p (some w) (lookup dec k m)) ∙ e in
        let whole : remove dec k ((j, w) ∷ m) ≡ (j, w) ∷ remove dec k m =
          if_neg (dec k j) p (remove dec k m) ((j, w) ∷ remove dec k m) in
        rw whole (
          Perm.trans (Perm.cons (j, w) (remove-perm k v m u.1 there))
            (Perm.swap (k, v) (j, w) (remove dec k m)))
  ]

  -- Maps that give the same at every key have the same entries.
  pub perm_of :
      (m n : HashMap K V)
      → IsUnique dec m
      → IsUnique dec n
      → ((k : K) → lookup dec k m ≡ lookup dec k n)
      → Perm m n
  unfolding lookup
  perm_of [] [] u w h = Perm.nil
  perm_of [] ((k, v) ∷ n) u w h = absurd (cc (h k, if_pos (dec k k) refl (some v) (lookup dec k n)))
  perm_of ((k, v) ∷ m) n u w h =
      let here : lookup dec k n ≡ some v =
        sym (h k) ∙ if_pos (dec k k) refl (some v) (lookup dec k m) in
      let rest =
        perm_of m (remove dec k n) u.1 (remove-IsUnique dec k n w) (lookup_tail k v m n u.0 h) in
      Perm.trans (Perm.cons (k, v) rest) (Perm.symm (remove-perm k v n w here))
