-- ===== src/Interner/Reverse.antt =====
-- `CallstackInterner::get_reverse_map` of memapi/src/memorytracking.rs.
use filprofiler.Base.{
  ℕ, ◌≡◌, ◌≢◌, ◌↔◌, refl, sym, ◌∙◌, [], ◌∷◌, lookup, Option, none, some, arith, All, ℕ_discrete,
}
use filprofiler.HashMap.{HashMap, IsUnique, insert, lookup-insert_self, lookup-insert_ne}
use filprofiler.Callstack.{Callstack, Callstack-discrete}
use filprofiler.Interner.{CallstackInterner, reverse_loop, get_reverse_map}
use filprofiler.Interner.Numbering.{HasDistinctIds, IsNumbered, id_of}

-- The callstack that a list of entries has for a number, by going through the entries.
callstack_of : ℕ → HashMap Callstack ℕ → Option Callstack
callstack_of id [] = none
callstack_of id ((cs, n) ∷ m) = elim (ℕ_discrete id n) [
  | yes p ↦ some cs
  | no p ↦ callstack_of id m
]

callstack_of_other :
    (id : ℕ) (m : HashMap Callstack ℕ) → All (λ e. e.1 ≢ id) m → callstack_of id m ≡ none
unfolding callstack_of
callstack_of_other id [] h = refl
callstack_of_other id ((cs, n) ∷ m) h = ground (arith, callstack_of_other id m h.1)

or_else : Option Callstack → Option Callstack → Option Callstack
or_else none d = d
or_else (some c) d = some c

or_else-none : (o : Option Callstack) → or_else o none ≡ o
unfolding or_else
or_else-none none = refl
or_else-none (some c) = refl

lookup-reverse_loop :
    (id : ℕ) (m : HashMap Callstack ℕ) (acc : HashMap ℕ Callstack)
    → HasDistinctIds m
    → lookup ℕ_discrete id (reverse_loop m acc)
      ≡ or_else (callstack_of id m) (lookup ℕ_discrete id acc)
unfolding reverse_loop callstack_of or_else
lookup-reverse_loop id [] acc d = refl
lookup-reverse_loop id ((cs, n) ∷ m) acc d = elim (ℕ_discrete id n) [
  | yes p ↦ ground (
    arith,
    p,
    lookup-reverse_loop id m (insert ℕ_discrete n cs acc) d.1,
    callstack_of_other n m d.0,
    lookup-insert_self ℕ_discrete n cs acc,
  )
  | no p ↦ ground (
    arith,
    lookup-reverse_loop id m (insert ℕ_discrete n cs acc) d.1,
    lookup-insert_ne ℕ_discrete n id cs acc p,
  )
]

callstack_of-lookup :
    (id : ℕ) (cs : Callstack) (m : HashMap Callstack ℕ)
    → IsUnique Callstack-discrete m
    → callstack_of id m ≡ some cs
    → lookup Callstack-discrete cs m ≡ some id
unfolding callstack_of lookup
callstack_of-lookup id cs [] u e = absurd (cc)
callstack_of-lookup id cs ((k, n) ∷ m) u e = ground (arith, callstack_of-lookup id cs m u.1)

lookup-callstack_of :
    (id : ℕ) (cs : Callstack) (m : HashMap Callstack ℕ)
    → HasDistinctIds m
    → lookup Callstack-discrete cs m ≡ some id
    → callstack_of id m ≡ some cs
unfolding callstack_of lookup
lookup-callstack_of id cs [] d e = absurd (cc)
lookup-callstack_of id cs ((k, n) ∷ m) d e =
    ground (arith, lookup-callstack_of id cs m d.1, callstack_of_other n m d.0)

-- The reverse map of a well-numbered interner has a callstack for an id exactly when the interner
-- has that id for the callstack.
pub get_reverse_map_iff :
    (i : CallstackInterner) (cs : Callstack) (id : ℕ)
    → IsNumbered i
    → (lookup ℕ_discrete id (get_reverse_map i) ≡ some cs) ↔ (id_of i cs ≡ some id)
unfolding get_reverse_map lookup
get_reverse_map_iff i cs id v = (
  λ e. callstack_of-lookup id cs i.callstack_to_id v.unique (sym there ∙ e),
  λ e. there ∙ lookup-callstack_of id cs i.callstack_to_id v.distinct e,
)
  where
    there :
        lookup ℕ_discrete id (reverse_loop i.callstack_to_id []) ≡ callstack_of id i.callstack_to_id
    there = lookup-reverse_loop id i.callstack_to_id [] v.distinct ∙ or_else-none _
