-- ===== src/Interner.antt =====
-- memapi/src/memorytracking.rs: `CallstackInterner`, which gives each callstack a number.
pub mod Numbering
pub mod Reverse
pub mod Extension
use filprofiler.Base.{ℕ, List, [], ◌∷◌, lookup, none, some, ℕ_discrete}
use filprofiler.Word.{add_u32}
use filprofiler.HashMap.{HashMap, insert}
use filprofiler.Callstack.{Callstack, Callstack-discrete}

pub record CallstackInterner : Type 0 where
  pub max_id : ℕ
  pub callstack_to_id : HashMap Callstack ℕ

-- `CallstackInterner::new`
abbrev pub new_interner : CallstackInterner
new_interner = record { max_id = 0; callstack_to_id = [] }

-- `call_on_new` works on a state that the caller passes along.
unfoldable pub get_or_insert_id :
    {S : Type 0} → CallstackInterner → Callstack → (S → S) → S → CallstackInterner × S × ℕ
get_or_insert_id self callstack call_on_new s =
    elim (lookup Callstack-discrete callstack self.callstack_to_id) [
      | some result ↦ (self, s, result)
      | none ↦
          let new_id = self.max_id in
          (
            record {
              max_id = add_u32 new_id 1;
              callstack_to_id = insert Callstack-discrete callstack new_id self.callstack_to_id;
            },
            call_on_new s,
            new_id,
          )
    ]

-- the loop of `get_reverse_map`
reverse_loop : HashMap Callstack ℕ → HashMap ℕ Callstack → HashMap ℕ Callstack
reverse_loop [] result = result
reverse_loop ((call_site, csid) ∷ rest) result =
    reverse_loop rest (insert ℕ_discrete csid call_site result)

unfoldable pub get_reverse_map : CallstackInterner → HashMap ℕ Callstack
unfolding reverse_loop
get_reverse_map self = reverse_loop self.callstack_to_id []
