-- ===== src/Interner/Extension.antt =====
-- An interner of memapi/src/memorytracking.rs before and after a callstack is given its id: what is
-- kept by id, seen by callstack.
use filprofiler.Base.{
  ℕ, ◌⊎◌, ◌+◌, ◌-◌, ◌<◌, ◌≡◌, ◌≢◌, ◌==◌, if◌then◌else◌, ap, sym, ◌∙◌, lookup, Option, none, some,
  Option-cases, inl, inr, arith, ite, ℕ_discrete,
}
use filprofiler.Callstack.{Callstack, Callstack-discrete}
use filprofiler.Interner.{CallstackInterner, get_reverse_map}
use filprofiler.Interner.Numbering.{IsNumbered, id_of, lookup_injective, Interns}
use filprofiler.Interner.Reverse.{get_reverse_map_iff}

-- `i'` is `i` in which `cs` has the id `id`.
pub record Extends (i : CallstackInterner) (cs : Callstack) (i' : CallstackInterner) (id : ℕ)
    : Type 0 where
  pub found : id_of i' cs ≡ some id
  pub kept : (cs' : Callstack) → cs' ≢ cs → id_of i' cs' ≡ id_of i cs'
  pub known_or_new : (id_of i cs ≡ some id) ⊎ ((id_of i cs ≡ none) × (id ≡ i.max_id))

pub Interns-Extends :
    {S : Type 0} (i : CallstackInterner) (cs : Callstack) (f : S → S) (s : S)
    (r : CallstackInterner × S × ℕ)
    → Interns i cs f s r
    → Extends i cs r.0 r.2
Interns-Extends i cs f s r n = record {
  found = n.found;
  kept = n.kept;
  known_or_new = elim n.new_or_old [
    | inl (known, _, _) ↦ inl known
    | inr (unknown, last, _, _) ↦ inr (unknown, last)
  ];
}

-- The callstack that has an id.
abbrev pub name_of : CallstackInterner → ℕ → Option Callstack
name_of i id = lookup ℕ_discrete id (get_reverse_map i)

-- A number for each id, read by callstack.
abbrev pub by_name : CallstackInterner → (ℕ → ℕ) → Callstack → ℕ
by_name i f cs = elim (id_of i cs) [ none ↦ 0 | some id ↦ f id ]

module _ (i i' : CallstackInterner) (cs : Callstack) (id : ℕ) (e : Extends i cs i' id)
    (v : IsNumbered i) (v' : IsNumbered i') where
  -- An id keeps its callstack.
  pub name_of-Extends : (k : ℕ) → k < i.max_id → name_of i' k ≡ name_of i k
  name_of-Extends k h =
      let (cs', named) = v.dense k h in
      let named' : id_of i' cs' ≡ some k = elim (Callstack-discrete cs' cs) [
        | yes p ↦ elim e.known_or_new [
          | inl known ↦ cc (p, named, known, e.found)
          | inr (unknown, _) ↦ absurd (cc (p, named, unknown))
        ]
        | no p ↦ e.kept cs' p ∙ named
      ] in
      (get_reverse_map_iff i' cs' k v').1 named' ∙ sym ((get_reverse_map_iff i cs' k v).1 named)

  pub name_of_found : name_of i' id ≡ some cs
  name_of_found = (get_reverse_map_iff i' cs id v').1 e.found

  -- What is added at one id is added at its callstack alone.
  pub by_name-Extends :
      (f f' : ℕ → ℕ) (n : ℕ)
      → ((k : ℕ) → f' k ≡ f k + (if id == k then n else 0))
      → (id ≡ i.max_id → f id ≡ 0)
      → (cs' : Callstack)
      → by_name i' f' cs' ≡ by_name i f cs' + ite (Callstack-discrete cs' cs) n 0
  by_name-Extends f f' n charged fresh cs' = elim (Callstack-discrete cs' cs) [
    | yes p ↦ elim e.known_or_new [
      | inl known ↦ ground (arith, p, known, e.found, charged id)
      | inr (unknown, last) ↦ ground (arith, p, unknown, e.found, charged id, fresh last)
    ]
    | no p ↦ elim (Option-cases (id_of i cs')) [
      | inl unknown ↦ ground (arith, p, unknown, e.kept cs' p)
      | inr (k, known) ↦
          let other : id ≢ k = λ q. p (
            lookup_injective id cs' cs i'.callstack_to_id v'.distinct
              (e.kept cs' p ∙ known ∙ ap some (sym q)) e.found) in
          ground (arith, p, known, other, e.kept cs' p, charged k)
    ]
  ]

-- What is taken away at one id is taken away at its callstack alone.
pub by_name_less :
    (i : CallstackInterner) (cs : Callstack) (id : ℕ)
    → IsNumbered i
    → id_of i cs ≡ some id
    → (f f' : ℕ → ℕ) (n : ℕ) → ((k : ℕ) → f' k + (if id == k then n else 0) ≡ f k)
    → (cs' : Callstack) → by_name i f' cs' ≡ by_name i f cs' - ite (Callstack-discrete cs' cs) n 0
by_name_less i cs id v known f f' n less cs' = elim (Callstack-discrete cs' cs) [
  | yes p ↦ ground (arith, p, known, less id)
  | no p ↦ elim (Option-cases (id_of i cs')) [
    | inl unknown ↦ ground (arith, p, unknown)
    | inr (k, other) ↦
        let differ : id ≢ k = λ q. p (
          lookup_injective id cs' cs i.callstack_to_id v.distinct (other ∙ ap some (sym q))
            known) in
        ground (arith, p, other, differ, less k)
  ]
]
