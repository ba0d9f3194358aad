-- ===== src/HashMap.antt =====
-- The parts of the standard library's `HashMap` and `BTreeMap` that the program uses, as association
-- lists. The order of the entries is the order in which the map is iterated, which the standard library
-- leaves open.
pub mod Order
use filprofiler.Word.{usize_mod, add_usize, add_usize_exact}
use filprofiler.Base.{
  ◌<◌, subst, All, if_pos, if_neg, suc, inl, inr, Option-cases, length, ℕ, ◌+◌, ◌≡◌, ◌≢◌, refl,
  List, [], ◌∷◌, lookup, none, some, ite, arith, sum_by,
}

abbrev pub HashMap {ℓ} : Type ℓ → Type ℓ → Type ℓ
HashMap K V = List (K × V)

module _ {ℓ} {K V : Type ℓ} (dec : Discrete K) where
  -- the map without a key
  unfoldable pub remove : K → HashMap K V → HashMap K V
  remove k [] = []
  remove k ((j, v) ∷ m) = ite (dec k j) (remove k m) ((j, v) ∷ remove k m)

  -- `insert`: the value replaces an older one
  unfoldable pub insert : K → V → HashMap K V → HashMap K V
  insert k v m = (k, v) ∷ remove k m

  abbrev pub IsUnique : HashMap K V → Type ℓ
  IsUnique [] = Unit
  IsUnique ((k, v) ∷ m) = (lookup dec k m ≡ none) × IsUnique m

  pub lookup-remove_self : (k : K) (m : HashMap K V) → lookup dec k (remove k m) ≡ none
  unfolding remove lookup
  lookup-remove_self k [] = refl
  lookup-remove_self k ((j, v) ∷ m) = ground (arith, lookup-remove_self k m)

  pub lookup-remove_ne :
      (k q : K) (m : HashMap K V) → q ≢ k → lookup dec q (remove k m) ≡ lookup dec q m
  unfolding remove lookup
  lookup-remove_ne k q [] h = refl
  lookup-remove_ne k q ((j, v) ∷ m) h = ground (arith, lookup-remove_ne k q m)

  pub lookup-insert_self : (k : K) (v : V) (m : HashMap K V) → lookup dec k (insert k v m) ≡ some v
  unfolding insert lookup
  lookup-insert_self k v m = ground arith

  pub lookup-insert_ne :
      (k q : K) (v : V) (m : HashMap K V) → q ≢ k → lookup dec q (insert k v m) ≡ lookup dec q m
  unfolding insert lookup
  lookup-insert_ne k q v m h = ground (arith, lookup-remove_ne k q m)

  pub remove_absent : (k : K) (m : HashMap K V) → lookup dec k m ≡ none → remove k m ≡ m
  unfolding remove lookup
  remove_absent k [] h = refl
  remove_absent k ((j, v) ∷ m) h = ground (arith, remove_absent k m)

  -- A new key's entry is put to the others.
  pub insert_absent :
      (k : K) (v : V) (m : HashMap K V) → lookup dec k m ≡ none → insert k v m ≡ (k, v) ∷ m
  unfolding insert
  insert_absent k v m h = rw (remove_absent k m h)

  lookup-remove-none :
      (k q : K) (m : HashMap K V) → lookup dec q m ≡ none → lookup dec q (remove k m) ≡ none
  unfolding remove lookup
  lookup-remove-none k q [] h = refl
  lookup-remove-none k q ((j, v) ∷ m) h = ground (arith, lookup-remove-none k q m)

  pub remove-IsUnique : (k : K) (m : HashMap K V) → IsUnique m → IsUnique (remove k m)
  unfolding remove
  remove-IsUnique k [] u = u
  remove-IsUnique k ((j, v) ∷ m) u =
      ground (arith, remove-IsUnique k m u.1, lookup-remove-none k j m u.0)

  pub insert-IsUnique : (k : K) (v : V) (m : HashMap K V) → IsUnique m → IsUnique (insert k v m)
  unfolding insert
  insert-IsUnique k v m u = (lookup-remove_self k m, remove-IsUnique k m u)

  -- Removing a key takes exactly its entry out of every sum over the map.
  pub sum_by-remove :
      (f : K × V → ℕ) (k : K) (v : V) (m : HashMap K V)
      → IsUnique m
      → lookup dec k m ≡ some v
      → sum_by f m ≡ f (k, v) + sum_by f (remove k m)
  unfolding remove lookup
  sum_by-remove f k v [] u h = cc
  sum_by-remove f k v ((j, w) ∷ m) u h = elim (dec k j) [
    | yes p ↦ ground (arith, remove_absent j m u.0)
    | no p ↦ ground (arith, sum_by-remove f k v m u.1)
  ]

  length-sum_by : (m : HashMap K V) → length m ≡ sum_by (λ e. 1) m
  length-sum_by [] = refl
  length-sum_by (e ∷ m) = omega (arith, length-sum_by m)

  pub length-remove :
      (k : K) (v : V) (m : HashMap K V)
      → IsUnique m
      → lookup dec k m ≡ some v
      → length m ≡ suc (length (remove k m))
  length-remove k v m u h =
      omega (arith, sum_by-remove (λ e. 1) k v m u h, length-sum_by m, length-sum_by (remove k m))

module _ {K : Type 0} (dec : Discrete K) where
  -- `*map.entry(k).or_insert(0) += n`
  unfoldable pub add_entry : K → ℕ → HashMap K ℕ → HashMap K ℕ
  add_entry k n m = elim (lookup dec k m) [
    | none ↦ insert dec k (add_usize 0 n) m
    | some old ↦ insert dec k (add_usize old n) m
  ]

  -- The number at a key, 0 where there is none.
  abbrev pub amount : K → HashMap K ℕ → ℕ
  amount k m = elim (lookup dec k m) [ none ↦ 0 | some n ↦ n ]

  pub amount-add_entry_self :
      (k : K) (n : ℕ) (m : HashMap K ℕ)
      → amount k m + n < usize_mod
      → amount k (add_entry k n m) ≡ amount k m + n
  unfolding add_entry
  amount-add_entry_self k n m h = elim (Option-cases (lookup dec k m)) [
    | inl e ↦ ground (arith, lookup-insert_self dec k (add_usize 0 n) m, add_usize_exact 0 n)
    | inr (old, e) ↦
        ground (arith, lookup-insert_self dec k (add_usize old n) m, add_usize_exact old n)
  ]

  pub amount-add_entry_ne :
      (k q : K) (n : ℕ) (m : HashMap K ℕ) → q ≢ k → amount q (add_entry k n m) ≡ amount q m
  unfolding add_entry
  amount-add_entry_ne k q n m h = elim (Option-cases (lookup dec k m)) [
    | inl e ↦ ground (arith, lookup-insert_ne dec k q (add_usize 0 n) m)
    | inr (old, e) ↦ ground (arith, lookup-insert_ne dec k q (add_usize old n) m)
  ]

  pub add_entry-IsUnique :
      (k : K) (n : ℕ) (m : HashMap K ℕ) → IsUnique dec m → IsUnique dec (add_entry k n m)
  unfolding add_entry
  add_entry-IsUnique k n m u = elim (Option-cases (lookup dec k m)) [
    | inl e ↦ rw (e, add_entry) (insert-IsUnique dec k (add_usize 0 n) m u)
    | inr (old, e) ↦ rw (e, add_entry) (insert-IsUnique dec k (add_usize old n) m u)
  ]

pub remove-All {ℓ κ} :
    {K V : Type ℓ} (dec : Discrete K) (P : K × V → Type κ) (k : K) (m : HashMap K V)
    → All P m
    → All P (remove dec k m)
unfolding remove
remove-All dec P k [] h = h
remove-All dec P k ((j, v) ∷ m) h = elim (dec k j) [
  | yes p ↦ rw (if_pos _ p) (remove-All dec P k m h.1)
  | no p ↦ rw (if_neg _ p) (h.0, remove-All dec P k m h.1)
]

pub lookup-All {ℓ κ} :
    {K V : Type ℓ} (dec : Discrete K) (P : V → Type κ) (k : K) (v : V) (m : HashMap K V)
    → All (λ e. P e.1) m
    → lookup dec k m ≡ some v
    → P v
unfolding lookup
lookup-All dec P k v [] h e = absurd (cc)
lookup-All dec P k v ((j, w) ∷ m) h e = elim (dec k j) [
  | yes p ↦ let same : w ≡ v = ground arith in subst P same h.0
  | no p ↦ lookup-All dec P k v m h.1 (ground arith)
]
