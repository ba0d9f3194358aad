-- ===== src/Tests/Units.antt =====
-- The unit tests of memapi/src/memorytracking.rs, run on the model. An `assert!` that fails panics.
pub mod Peaks
pub mod Lines
use filprofiler.HashMap
use filprofiler.Word
use filprofiler.Base.{
  ℕ, zero, suc, ◌+◌, ◌*◌, ◌==◌, ◌&&◌, ltb, not, if◌then◌else◌, Bool, true, false, List, [], ◌∷◌,
  arith, ◌++◌, length, get_or, ite, lookup, some, none, Option, Outcome, done, panic, ◌>>=◌, ◌≡◌,
  refl, ℕ_discrete,
}
use filprofiler.HashMap.{HashMap, insert}
use filprofiler.Text.{text, Memory, FunctionLocation, get_filename, get_function_name}
use filprofiler.Callstack
use filprofiler.Callstack.{FunctionId, CallSiteId, Callstack, Callstack-discrete, new_callstack}
use filprofiler.Interner.{new_interner, get_or_insert_id, get_reverse_map}
use filprofiler.Dump.{Path-discrete}
use filprofiler.PropertyTests.{
  assert, is_same, correct_allocation_size_tracked, current_allocated_matches_sum_of_allocations,
  current_allocated_anon_maps_matches_sum_of_allocations,
}
use filprofiler.PropertyTests.Unmapping.{current_allocated_anon_maps_passes}
use filprofiler.PropertyTests.Sizes.{correct_allocation_size_tracked_passes}
use filprofiler.PropertyTests.Freeing.{current_allocated_matches_passes}

abbrev pub is {ℓ} : {A : Type ℓ} → Discrete A → A → A → Bool
is dec a b = ite (dec a b) true false

-- A location whose strings stand one behind the other at a pointer.
unfoldable pub from_strings : ℕ → List ℕ → List ℕ → FunctionLocation
from_strings pointer filename function_name = record {
  filename = pointer;
  filename_length = length filename;
  function_name = pointer + length filename;
  function_name_length = length function_name;
}

-- Three functions, at the pointers 0, 1 and 2.
unfoldable pub locations : Memory
unfolding from_strings
locations = record {
  byte = λ p. get_or (text "aafbbfccf") p 0;
  location = λ p.
      if p == 0
      then from_strings 0 (text "a") (text "af")
      else if p == 1
      then from_strings 3 (text "b") (text "bf")
      else from_strings 6 (text "c") (text "cf");
}

abbrev pub fid : ℕ → FunctionId
fid pointer = record { function = pointer }

abbrev pub site : ℕ → ℕ → CallSiteId
site pointer line = record { function = fid pointer; line_number = line }

-- A callstack of one call.
unfoldable pub called : CallSiteId → Callstack
called id = Callstack.start_call new_callstack 0 id

unfoldable functionlocation_and_functionid_strings : Outcome (Unit {0})
functionlocation_and_functionid_strings = do
  _ ← assert (is_same (get_filename locations (fid 0)) (text "a"))
  assert (is_same (get_function_name locations (fid 0)) (text "af"))

functionlocation_and_functionid_strings_passes : functionlocation_and_functionid_strings ≡ done tt
unfolding functionlocation_and_functionid_strings Path-discrete get_filename locations ℕ_discrete
    get_function_name
functionlocation_and_functionid_strings_passes = refl

unfoldable callstack_line_numbers : Outcome (Unit {0})
callstack_line_numbers =
    let id1 = site 0 2 in
    let id2 = site 1 45 in
    let id3 = site 2 6 in
    let cs1 = Callstack.start_call new_callstack 123 id1 in
    let cs1' = Callstack.start_call cs1 0 id2 in
    let cs2 =
      Callstack.start_call (Callstack.start_call (Callstack.start_call new_callstack 0 id1) 10 id2)
        12 id3 in
    do
      _ ← assert (is Callstack-discrete cs1 (record { calls = id1 ∷ [] }))
      _ ← assert (is Callstack-discrete cs1' (record { calls = id1 ∷ id2 ∷ [] }))
      assert (is Callstack-discrete cs2 (record { calls = site 0 10 ∷ site 1 12 ∷ id3 ∷ [] }))

callstack_line_numbers_passes : callstack_line_numbers ≡ done tt
unfolding callstack_line_numbers Callstack-discrete Callstack.start_call Callstack.set_last_line
    ℕ_discrete
callstack_line_numbers_passes = refl

-- Every entry of the first map is found in the second.
abbrev is_in_map : HashMap ℕ Callstack → HashMap ℕ Callstack → Bool
is_in_map [] m = true
is_in_map ((k, cs) ∷ rest) m =
    elim (lookup ℕ_discrete k m) [ none ↦ false | some cs' ↦ is Callstack-discrete cs cs' ]
    && is_in_map rest m

unfoldable callstackinterner_notices_duplicates : Outcome (Unit {0})
callstackinterner_notices_duplicates =
    let cs1 = called (site 0 2) in
    let cs2 = called (site 1 4) in
    let cs3 = new_callstack in
    let (interner, new1, id1) = get_or_insert_id new_interner cs1 (λ _. true) false in
    let (interner, new1b, id1b) = get_or_insert_id interner cs1 (λ _. true) false in
    let (interner, new2, id2) = get_or_insert_id interner cs2 (λ _. true) false in
    let (interner, new3, id3) = get_or_insert_id interner cs3 (λ _. true) false in
    let (interner, new3b, id3b) = get_or_insert_id interner cs3 (λ _. true) false in
    let expected =
      insert ℕ_discrete id3 cs3 (insert ℕ_discrete id2 cs2 (insert ℕ_discrete id1 cs1 [])) in
    let reversed = get_reverse_map interner in
    do
      _ ← assert new1
      _ ← assert (not new1b)
      _ ← assert new2
      _ ← assert new3
      _ ← assert (not new3b)
      _ ← assert (id1 == id1b)
      _ ← assert (not (id1 == id2))
      _ ← assert (not (id1 == id3))
      _ ← assert (not (id2 == id3))
      _ ← assert (id3 == id3b)
      assert (is_in_map reversed expected && is_in_map expected reversed)

callstackinterner_notices_duplicates_passes : callstackinterner_notices_duplicates ≡ done tt
unfolding callstackinterner_notices_duplicates get_or_insert_id lookup insert Callstack-discrete
    called Callstack.start_call ℕ_discrete HashMap.remove Word.add_u32 get_reverse_map
callstackinterner_notices_duplicates_passes = refl

correct_allocation_size_tracked_passes_example :
    correct_allocation_size_tracked 3000000000 ≡ done tt
correct_allocation_size_tracked_passes_example =
    correct_allocation_size_tracked_passes 3000000000 (omega arith) (omega arith)

current_allocated_matches_passes_example :
    current_allocated_matches_sum_of_allocations (5 ∷ 700 ∷ 9 ∷ []) (0 ∷ 2 ∷ []) ≡ done tt
current_allocated_matches_passes_example =
    current_allocated_matches_passes (5 ∷ 700 ∷ 9 ∷ [])
      (omega arith, (omega arith, (omega arith, tt))) 0 (2 ∷ []) (omega arith) (omega arith)
      (omega arith, (omega arith, tt), (omega arith, tt, tt))

current_allocated_anon_maps_passes_example :
    current_allocated_anon_maps_matches_sum_of_allocations (5 ∷ 700 ∷ 9 ∷ []) (1 ∷ 2 ∷ []) ≡ done tt
current_allocated_anon_maps_passes_example =
    current_allocated_anon_maps_passes (5 ∷ 700 ∷ 9 ∷ [])
      (omega arith, (omega arith, (omega arith, tt))) 1 (2 ∷ []) (omega arith) (omega arith)
      (omega arith, (omega arith, tt), (omega arith, tt, tt))
