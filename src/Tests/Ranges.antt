-- ===== src/Tests/Ranges.antt =====
-- Runs of the lemmas on memapi/src/rangemap.rs on concrete maps.
use mathlib.Core.List.{Perm}
use mathlib.Core.List.Perm
use filprofiler.PropertyTests.Ranges.{ranges_from, adding_removing_ranges}
use filprofiler.PropertyTests.Ranges.Drawing.{adding_removing_ranges_passes}
use filprofiler.RangeMap.Starts.{IsApart}
use filprofiler.RangeMap.Coalesced.{as_hashmap-Agrees}
use filprofiler.Word.{add_usize}
use filprofiler.Base.{refl, lookup, ℕ, ◌≡◌, arith, List, ◌∷◌, [], ℕ_discrete, done}
use filprofiler.HashMap.{HashMap, amount}
use filprofiler.RangeMap.{RangeMap, add, remove, as_hashmap}
use filprofiler.RangeMap.Bytes.{removed_bytes}
use filprofiler.RangeMap.Removal.{Removes, remove-Removes}
use filprofiler.RangeMap.Reference
use filprofiler.RangeMap.Reference.{StupidRangeMap}
use filprofiler.RangeMap.Agreement.{is, Agrees, add-Agrees, remove-Agrees}
use filprofiler.Tests.{two_bytes, two_items, two_bytes-Agrees}

remove-Agrees_example :
    (m' : RangeMap ℕ) × (gone : List (ℕ × ℕ)) × (s' : StupidRangeMap ℕ) × (counts : HashMap ℕ ℕ)
    × (remove two_bytes 11 5 ≡ done (m', gone))
    × (Reference.remove ℕ_discrete two_items 11 5 ≡ done (s', counts))
    × ((v : ℕ) → removed_bytes (is ℕ_discrete v) gone ≡ amount ℕ_discrete v counts)
    × Agrees m' s'
remove-Agrees_example =
    remove-Agrees ℕ_discrete two_bytes two_items 11 5 two_bytes-Agrees (omega arith) (omega arith)

remove-Removes_example :
    (r : RangeMap ℕ × List (ℕ × ℕ)) × (remove two_bytes 11 5 ≡ done r) × Removes two_bytes 11 5 r
remove-Removes_example = remove-Removes two_bytes 11 5 two_bytes-Agrees.valid (omega arith)

add-Agrees_example :
    (m' : RangeMap ℕ) × (s' : StupidRangeMap ℕ) × (add two_bytes 12 3 8 ≡ done m')
    × (Reference.add two_items 12 3 8 ≡ done s')
    × Agrees m' s'
unfolding Reference.size
add-Agrees_example =
    add-Agrees two_bytes two_items 12 3 8 two_bytes-Agrees (omega arith) (omega arith)
      (λ a h. ground (arith, h)) (omega arith)

two_bytes-IsApart : IsApart two_bytes
two_bytes-IsApart = (λ a next e. absurd (ground (arith, next, e)), tt)

as_hashmap-Agrees_example :
    lookup ℕ_discrete 10 (as_hashmap two_bytes)
    ≡ lookup ℕ_discrete 10 (Reference.as_hashmap ℕ_discrete two_items)
as_hashmap-Agrees_example =
    as_hashmap-Agrees ℕ_discrete two_bytes two_items two_bytes-Agrees two_bytes-IsApart 10

-- what is drawn, with the ranges made of it
abbrev vec_add : List (ℕ × ℕ)
vec_add = (3, 2) ∷ (1, 4) ∷ []

abbrev vec_remove : List (ℕ × ℕ)
vec_remove = (4, 3) ∷ []

made_add : ranges_from 0 vec_add ≡ (3, 2) ∷ (6, 4) ∷ []
unfolding ranges_from add_usize
made_add = refl

shuffled : Perm (ranges_from 0 vec_add) ((6, 4) ∷ (3, 2) ∷ [])
shuffled = rw made_add (Perm.swap (6, 4) (3, 2) [])

made_remove : ranges_from 0 vec_remove ≡ (4, 3) ∷ []
unfolding ranges_from add_usize
made_remove = refl

adding_removing_ranges_passes_example :
    adding_removing_ranges ((6, 4) ∷ (3, 2) ∷ []) ((4, 3) ∷ []) ≡ done tt
adding_removing_ranges_passes_example =
    adding_removing_ranges_passes vec_add vec_remove ((6, 4) ∷ (3, 2) ∷ []) ((4, 3) ∷ [])
      (
        omega arith,
        omega arith,
        (
          (omega arith, omega arith, omega arith, omega arith),
          ((omega arith, omega arith, omega arith, omega arith), tt),
        ),
      )
      (omega arith, omega arith, ((omega arith, omega arith, omega arith, omega arith), tt))
      shuffled (rw made_remove Perm.rfl)
