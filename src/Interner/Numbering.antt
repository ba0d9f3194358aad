-- ===== src/Interner/Numbering.antt =====
-- The numbers that `CallstackInterner` (memapi/src/memorytracking.rs) gives out.
use filprofiler.Base.{
  ℕ, ◌⊎◌, ◌+◌, ◌≤◌, ◌<◌, ◌≡◌, ◌≢◌, ◌↔◌, refl, ◌∙◌, [], ◌∷◌, lookup, Option, none, some,
  Option-cases, inl, inr, arith, All, ℕ_discrete,
}
use filprofiler.Word.{u32_mod, add_u32_exact}
use filprofiler.HashMap.{
  HashMap, IsUnique, insert, insert-IsUnique, lookup-insert_self, lookup-insert_ne, remove_absent,
}
use filprofiler.Callstack.{Callstack, Callstack-discrete}
use filprofiler.Interner.{CallstackInterner, new_interner, get_or_insert_id}

-- No number stands in two entries.
abbrev pub HasDistinctIds : HashMap Callstack ℕ → Type 0
HasDistinctIds [] = Unit
HasDistinctIds ((cs, id) ∷ m) = All (λ e. e.1 ≢ id) m × HasDistinctIds m

abbrev pub id_of : CallstackInterner → Callstack → Option ℕ
id_of i cs = lookup Callstack-discrete cs i.callstack_to_id

pub record IsNumbered (i : CallstackInterner) : Type 0 where
  pub unique : IsUnique Callstack-discrete i.callstack_to_id
  pub distinct : HasDistinctIds i.callstack_to_id
  pub bounded : All (λ e. e.1 < i.max_id) i.callstack_to_id
  pub dense : (id : ℕ) → id < i.max_id → (cs : Callstack) × (id_of i cs ≡ some id)

All-ne-bounded : (n : ℕ) (m : HashMap Callstack ℕ) → All (λ e. e.1 < n) m → All (λ e. e.1 ≢ n) m
All-ne-bounded n [] h = tt
All-ne-bounded n (e ∷ m) h = (omega arith, All-ne-bounded n m h.1)

All-lt-suc : (n : ℕ) (m : HashMap Callstack ℕ) → All (λ e. e.1 < n) m → All (λ e. e.1 < n + 1) m
All-lt-suc n [] h = tt
All-lt-suc n (e ∷ m) h = (omega arith, All-lt-suc n m h.1)

lookup_bounded :
    (n id : ℕ) (cs : Callstack) (m : HashMap Callstack ℕ)
    → All (λ e. e.1 < n) m
    → lookup Callstack-discrete cs m ≡ some id
    → id < n
unfolding lookup
lookup_bounded n id cs [] h e = absurd (cc)
lookup_bounded n id cs ((k, v) ∷ m) h e = ground (arith, lookup_bounded n id cs m h.1)

lookup_other :
    (id id' : ℕ) (cs : Callstack) (m : HashMap Callstack ℕ)
    → All (λ e. e.1 ≢ id) m
    → lookup Callstack-discrete cs m ≡ some id'
    → id' ≢ id
unfolding lookup
lookup_other id id' cs [] h e = absurd (cc)
lookup_other id id' cs ((k, v) ∷ m) h e = ground (arith, lookup_other id id' cs m h.1)

-- Callstacks with the same number are the same.
pub lookup_injective :
    (id : ℕ) (cs cs' : Callstack) (m : HashMap Callstack ℕ)
    → HasDistinctIds m
    → lookup Callstack-discrete cs m ≡ some id
    → lookup Callstack-discrete cs' m ≡ some id
    → cs ≡ cs'
unfolding lookup
lookup_injective id cs cs' [] d e e' = absurd (cc)
lookup_injective id cs cs' ((k, v) ∷ m) d e e' = ground (
  arith,
  lookup_other v id cs m d.0,
  lookup_other v id cs' m d.0,
  lookup_injective id cs cs' m d.1,
)

pub new_interner-IsNumbered : IsNumbered new_interner
new_interner-IsNumbered = record {
  unique = tt;
  distinct = tt;
  bounded = tt;
  dense = λ id h. absurd (omega arith);
}

-- What a call promises: the callstack has its number, all others keep theirs, and a new number is
-- the old `max_id`, in which case alone `call_on_new` is called, once.
pub record Interns {S : Type 0} (i : CallstackInterner) (cs : Callstack) (call_on_new : S → S)
    (s : S) (r : CallstackInterner × S × ℕ) : Type 0 where
  pub valid : IsNumbered r.0
  pub found : id_of r.0 cs ≡ some r.2
  pub kept : (cs' : Callstack) → cs' ≢ cs → id_of r.0 cs' ≡ id_of i cs'
  pub new_or_old :
      ((id_of i cs ≡ some r.2) × (r.0 ≡ i) × (r.1 ≡ s))
      ⊎ ((id_of i cs ≡ none)
          × (r.2 ≡ i.max_id)
          × (r.0.max_id ≡ i.max_id + 1)
          × (r.1 ≡ call_on_new s))

module _ {S : Type 0} (i : CallstackInterner) (cs : Callstack) (call_on_new : S → S) (s : S) where
  -- The interner after a new callstack.
  abbrev grown : CallstackInterner
  grown = record {
    max_id = i.max_id + 1;
    callstack_to_id = insert Callstack-discrete cs i.max_id i.callstack_to_id;
  }

  dense-grown :
      IsNumbered i
      → id_of i cs ≡ none
      → (id : ℕ) → id < i.max_id + 1
      → (cs' : Callstack) × (id_of grown cs' ≡ some id)
  dense-grown v e id h = elim (ℕ_discrete id i.max_id) [
    | yes p ↦ (cs, rw p (lookup-insert_self Callstack-discrete cs i.max_id i.callstack_to_id))
    | no p ↦
        let (cs', there) = v.dense id (omega arith) in
        (
          cs',
          lookup-insert_ne Callstack-discrete cs cs' i.max_id i.callstack_to_id (λ q. cc) ∙ there,
        )
  ]

  grown-IsNumbered : IsNumbered i → id_of i cs ≡ none → IsNumbered grown
  unfolding insert
  grown-IsNumbered v e =
      let same = remove_absent Callstack-discrete cs i.callstack_to_id e in
      record {
        unique = insert-IsUnique Callstack-discrete cs i.max_id i.callstack_to_id v.unique;
        distinct = rw same (All-ne-bounded i.max_id i.callstack_to_id v.bounded, v.distinct);
        bounded = rw same (omega arith, All-lt-suc i.max_id i.callstack_to_id v.bounded);
        dense = dense-grown v e;
      }

  -- With a well-numbered interner and room for one more id, `get_or_insert_id` keeps it
  -- well-numbered, returns the id that the callstack then has, and changes no other callstack's id;
  -- either the id was there and nothing changes, or it is the old `max_id`, which grows by one, and
  -- `call_on_new` is called once.
  pub get_or_insert_id-Interns :
      IsNumbered i
      → i.max_id + 1 < u32_mod
      → Interns i cs call_on_new s (get_or_insert_id i cs call_on_new s)
  unfolding get_or_insert_id
  get_or_insert_id-Interns v room =
      elim (Option-cases (lookup Callstack-discrete cs i.callstack_to_id)) [
        | inl e ↦
            rw (e, get_or_insert_id, add_u32_exact i.max_id 1 room)
              (record {
                valid = grown-IsNumbered v e;
                found = lookup-insert_self Callstack-discrete cs i.max_id i.callstack_to_id;
                kept = λ cs' ne.
                    lookup-insert_ne Callstack-discrete cs cs' i.max_id i.callstack_to_id ne;
                new_or_old = inr (e, refl, refl, refl);
              })
        | inr (id, e) ↦
            rw (e, get_or_insert_id)
              (record {
                valid = v;
                found = e;
                kept = λ cs' ne. refl;
                new_or_old = inl (e, refl, refl);
              })
      ]

pub Interns-max_id :
    {S : Type 0} (i : CallstackInterner) (cs : Callstack) (f : S → S) (s : S)
    (r : CallstackInterner × S × ℕ)
    → Interns i cs f s r
    → (i.max_id ≤ r.0.max_id) × (r.0.max_id ≤ i.max_id + 1)
Interns-max_id i cs f s r a = elim a.new_or_old [
  | inl (_, e, _) ↦ rw e (omega arith, omega arith)
  | inr (_, _, e, _) ↦ rw e (omega arith, omega arith)
]

-- The number that a callstack has just been given, and that of the next.
same_id :
    {S : Type 0} (i : CallstackInterner) (cs cs' : Callstack) (f : S → S) (s : S) (id : ℕ)
    (r : CallstackInterner × S × ℕ)
    → id_of i cs ≡ some id
    → Interns i cs' f s r
    → (id ≡ r.2) ↔ (cs ≡ cs')
same_id i cs cs' f s id r e b = (
  λ q. elim (Callstack-discrete cs cs') [
    | yes p ↦ p
    | no p ↦
        lookup_injective id cs cs' r.0.callstack_to_id b.valid.distinct (b.kept cs p ∙ e)
          (rw q b.found)
  ],
  λ q. elim b.new_or_old [
    | inl (known, _, _) ↦ cc (q, e, known)
    | inr (unknown, _, _, _) ↦ cc (q, e, unknown)
  ],
)

-- With a well-numbered interner and room for two more ids, two calls of `get_or_insert_id` one
-- after the other return the same id exactly when they are given the same callstack.
pub ids_distinguish :
    {S : Type 0} (i : CallstackInterner) (cs cs' : Callstack) (f g : S → S) (s : S)
    → IsNumbered i
    → i.max_id + 2 < u32_mod
    → let (i', s', id) = get_or_insert_id i cs f s in
      let (_, _, id') = get_or_insert_id i' cs' g s' in (id ≡ id') ↔ (cs ≡ cs')
ids_distinguish i cs cs' f g s v room =
    let r = get_or_insert_id i cs f s in
    let a = get_or_insert_id-Interns i cs f s v (omega arith) in
    let (_, most) = Interns-max_id i cs f s r a in
    same_id r.0 cs cs' g r.1 r.2 _ a.found
      (get_or_insert_id-Interns r.0 cs' g r.1 a.valid (omega (arith, most)))

-- The numbers are below `max_id`.
pub id_of-lt :
    (i : CallstackInterner) (cs : Callstack) (id : ℕ)
    → IsNumbered i
    → id_of i cs ≡ some id
    → id < i.max_id
id_of-lt i cs id v = lookup_bounded i.max_id id cs i.callstack_to_id v.bounded
