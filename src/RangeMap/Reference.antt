-- ===== src/RangeMap/Reference.antt =====
-- `StupidRangeMap`, the reference of memapi/src/rangemap.rs: a map with a key for each address.
pub mod Loops
pub mod Order
pub mod Runs
use filprofiler.Base.{
  ℕ, zero, suc, ◌-◌, ◌∷◌, ite, ◌==◌, ◌&&◌, Bool, true, false, leb, ltb, if◌then◌else◌, lookup,
  length, Option, none, some, Outcome, done, panic, ℕ_discrete, [],
}
use filprofiler.Word.{add_usize}
use filprofiler.HashMap.{HashMap, insert, remove as erase, add_entry}

pub record StupidRangeMap (V : Type 0) : Type 0 where
  pub items : HashMap ℕ V

-- The variables of `as_hashmap`. `last_entry`, a reference to an entry of the result, is its key.
pub record Coalescing (V : Type 0) : Type 0 where
  pub result : HashMap ℕ (ℕ × V)
  pub last_entry : Option ℕ
  pub last_k : ℕ

module _ {V : Type 0} where
  -- `StupidRangeMap::new`
  abbrev pub new_stupid : StupidRangeMap V
  new_stupid = record { items = [] }

  -- the loop of `add`, over the addresses `i`, …, `i + n - 1`
  unfoldable pub insert_each : ℕ → ℕ → V → HashMap ℕ V → HashMap ℕ V
  insert_each i zero value items = items
  insert_each i (suc n) value items = insert_each (suc i) n value (insert ℕ_discrete i value items)

  unfoldable pub add : StupidRangeMap V → ℕ → ℕ → V → Outcome (StupidRangeMap V)
  unfolding insert_each
  add m start length value =
      if ltb 0 length
      then done
          (record { items = insert_each start (add_usize start length - start) value m.items })
      else panic

  -- The entries in the order of their keys, in which a `BTreeMap` is iterated.
  unfoldable pub place : ℕ → V → HashMap ℕ V → HashMap ℕ V
  place k v [] = (k, v) ∷ []
  place k v ((j, w) ∷ m) = if leb k j then (k, v) ∷ (j, w) ∷ m else (j, w) ∷ place k v m

  unfoldable pub in_order : HashMap ℕ V → HashMap ℕ V
  in_order [] = []
  in_order ((k, v) ∷ m) = place k v (in_order m)

  unfoldable pub size : StupidRangeMap V → ℕ
  size m = length m.items

  module _ (dec : Discrete V) where
    -- one round of the loop of `remove`
    unfoldable pub remove_at : ℕ → HashMap ℕ V × HashMap V ℕ → HashMap ℕ V × HashMap V ℕ
    remove_at i (items, removed) = elim (lookup ℕ_discrete i items) [
      | none ↦ (items, removed)
      | some value ↦ (erase ℕ_discrete i items, add_entry dec value 1 removed)
    ]

    -- the loop of `remove`
    unfoldable pub remove_each : ℕ → ℕ → HashMap ℕ V × HashMap V ℕ → HashMap ℕ V × HashMap V ℕ
    remove_each i zero s = s
    remove_each i (suc n) s = remove_each (suc i) n (remove_at i s)

    -- The second part of the result is the map that the code turns into a list of its entries.
    unfoldable pub remove : StupidRangeMap V → ℕ → ℕ → Outcome (StupidRangeMap V × HashMap V ℕ)
    unfolding remove_each remove_at
    remove m start length =
        if ltb 0 length
        then (let (items, removed) =
              remove_each start (add_usize start length - start) (m.items, []) in
            done (record { items = items }, removed))
        else panic

    -- `PartialEq` of the values
    abbrev pub eq : V → V → Bool
    eq v w = ite (dec v w) true false

    -- One round of the loop of `as_hashmap`. No entry is ever taken out of the result, so that the
    -- entry that is referred to is there.
    unfoldable pub coalesce_one : ℕ → V → Coalescing V → Coalescing V
    coalesce_one k v s =
        let new : Coalescing V = record {
          result = insert ℕ_discrete k (1, v) s.result;
          last_entry = some k;
          last_k = k;
        } in
        elim s.last_entry [
          | none ↦ new
          | some key ↦ elim (lookup ℕ_discrete key s.result) [
            | none ↦ new
            | some (size, value) ↦
                if eq value v && k == add_usize s.last_k 1
                then record s {
                  result = insert ℕ_discrete key (add_usize size 1, value) s.result;
                  last_k = k;
                }
                else new
          ]
        ]

    -- the loop of `as_hashmap`
    unfoldable pub coalesce : HashMap ℕ V → Coalescing V → Coalescing V
    coalesce [] s = s
    coalesce ((k, v) ∷ rest) s = coalesce rest (coalesce_one k v s)

    unfoldable pub as_hashmap : StupidRangeMap V → HashMap ℕ (ℕ × V)
    as_hashmap m =
        (coalesce (in_order m.items) (record { result = []; last_entry = none; last_k = 0 })).result
