-- ===== src/PropertyTests/Ranges.antt =====
-- `adding_removing_ranges`, the property test of memapi/src/rangemap.rs, as a function of the ranges
-- that it draws, and `ranges`, which makes them. An assertion that fails panics.
pub mod Maps
pub mod Sums
pub mod Adding
pub mod Removing
pub mod Drawing
use filprofiler.Base.{
  ℕ, ◌+◌, ◌==◌, ◌&&◌, Bool, true, false, List, [], ◌∷◌, length, lookup, Option, none, some, ite,
  Outcome, done, ◌>>=◌, ℕ_discrete,
}
use filprofiler.Word.{add_usize, mul_usize}
use filprofiler.HashMap.{HashMap, insert, add_entry}
use filprofiler.RangeMap
use filprofiler.RangeMap.{RangeMap, empty}
use filprofiler.RangeMap.Reference
use filprofiler.RangeMap.Reference.{StupidRangeMap, new_stupid}
use filprofiler.PropertyTests.{assert}

-- The closure of `ranges`: from shifts and lengths to starts and lengths, from an address on.
unfoldable pub ranges_from : ℕ → List (ℕ × ℕ) → List (ℕ × ℕ)
ranges_from previous_start [] = []
ranges_from previous_start ((shift_start, length) ∷ rest) =
    let start = add_usize previous_start shift_start in
    (start, length) ∷ ranges_from (add_usize start length) rest

-- `PartialEq` of `HashMap`: as many entries, and each is found in the other map.
module _ {ℓ} {K V : Type ℓ} (dec : Discrete K) (same : Discrete V) where
  abbrev pub is_in : HashMap K V → HashMap K V → Bool
  is_in [] n = true
  is_in ((k, v) ∷ m) n =
      elim (lookup dec k n) [ none ↦ false | some w ↦ ite (same v w) true false ] && is_in m n

  abbrev pub eq_maps : HashMap K V → HashMap K V → Bool
  eq_maps m n = length m == length n && is_in m n

pub Entry-discrete : Discrete (ℕ × ℕ)
Entry-discrete = hlevel ℕ_discrete

-- The loop that adds.
unfoldable pub add_each :
    List (ℕ × ℕ) → RangeMap ℕ → StupidRangeMap ℕ → Outcome (RangeMap ℕ × StupidRangeMap ℕ)
add_each [] real stupid = done (real, stupid)
add_each ((start, length) ∷ rest) real stupid = do
  real ← RangeMap.add real start length (mul_usize start length)
  stupid ← Reference.add stupid start length (mul_usize start length)
  _ ← assert (RangeMap.size real == Reference.size stupid)
  _ ← assert (
      eq_maps ℕ_discrete Entry-discrete (RangeMap.as_hashmap real)
        (Reference.as_hashmap ℕ_discrete stupid))
  add_each rest real stupid

-- The loop that sums what `RangeMap::remove` reports.
unfoldable pub sum_entries : List (ℕ × ℕ) → HashMap ℕ ℕ → HashMap ℕ ℕ
sum_entries [] m = m
sum_entries ((k, v) ∷ removed) m = sum_entries removed (add_entry ℕ_discrete k v m)

-- `collect` of a list of entries into a `HashMap`
unfoldable pub collect_entries : List (ℕ × ℕ) → HashMap ℕ ℕ → HashMap ℕ ℕ
collect_entries [] m = m
collect_entries ((k, v) ∷ removed) m = collect_entries removed (insert ℕ_discrete k v m)

-- The loop that removes.
unfoldable pub remove_ranges_each :
    List (ℕ × ℕ) → RangeMap ℕ → StupidRangeMap ℕ → Outcome (Unit {0})
remove_ranges_each [] real stupid = done tt
remove_ranges_each ((start, length) ∷ rest) real stupid = do
  (real, removed1) ← RangeMap.remove real start (mul_usize length 2)
  (stupid, removed2) ← Reference.remove ℕ_discrete stupid start (mul_usize length 2)
  let removed1_map = sum_entries removed1 []
  let removed2_map = collect_entries removed2 []
  _ ← assert (eq_maps ℕ_discrete ℕ_discrete removed1_map removed2_map)
  _ ← assert (RangeMap.size real == Reference.size stupid)
  _ ← assert (
      eq_maps ℕ_discrete Entry-discrete (RangeMap.as_hashmap real)
        (Reference.as_hashmap ℕ_discrete stupid))
  remove_ranges_each rest real stupid

unfoldable pub adding_removing_ranges : List (ℕ × ℕ) → List (ℕ × ℕ) → Outcome (Unit {0})
adding_removing_ranges add_ranges remove_ranges = do
  (real, stupid) ← add_each add_ranges empty new_stupid
  remove_ranges_each remove_ranges real stupid
