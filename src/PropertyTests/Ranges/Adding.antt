-- ===== src/PropertyTests/Ranges/Adding.antt =====
-- The first loop of `adding_removing_ranges` of memapi/src/rangemap.rs.
use filprofiler.Base.{
  ℕ, ◌+◌, ◌<◌, ◌≡◌, subst, ◌⊎◌, inl, inr, refl, ap, List, [], ◌∷◌, ◌++◌, ◌==◌, true, if◌then◌else◌,
  arith, All, sum_by, done, ℕ_discrete,
}
use filprofiler.Word.{usize_mod, mul_usize}
use filprofiler.RangeMap
use filprofiler.RangeMap.{RangeMap, empty}
use filprofiler.RangeMap.Points.{values_at, within}
use filprofiler.RangeMap.Bytes.{held_bytes}
use filprofiler.RangeMap.Removal.{add-values_at}
use filprofiler.RangeMap.Agreement.{Agrees, size-Agrees, add-Agrees}
use filprofiler.RangeMap.Starts.{IsApart}
use filprofiler.RangeMap.Coalesced.{as_hashmap-Agrees, IsClear, add-IsApart}
use filprofiler.RangeMap.Keys.{as_hashmap-IsUnique, as_hashmap-IsUnique_reference}
use filprofiler.RangeMap.Reference
use filprofiler.RangeMap.Reference.{StupidRangeMap, new_stupid}
use filprofiler.PropertyTests.Ranges.{eq_maps, Entry-discrete, add_each}
use filprofiler.PropertyTests.Ranges.Maps.{eq_maps_of}

-- The state between two rounds of a loop.
pub record InStep (real : RangeMap ℕ) (stupid : StupidRangeMap ℕ) : Type 0 where
  pub agrees : Agrees real stupid
  pub apart : IsApart real

-- The last two assertions of a round.
pub record Passes (real : RangeMap ℕ) (stupid : StupidRangeMap ℕ) : Type 0 where
  pub sizes : (RangeMap.size real == Reference.size stupid) ≡ true
  pub maps :
      eq_maps ℕ_discrete Entry-discrete
        (RangeMap.as_hashmap real)
        (Reference.as_hashmap ℕ_discrete stupid)
      ≡ true

pub InStep-Passes :
    (real : RangeMap ℕ) (stupid : StupidRangeMap ℕ) → InStep real stupid → Passes real stupid
InStep-Passes real stupid h = record {
  sizes = ground (arith, size-Agrees real stupid h.agrees);
  maps =
      eq_maps_of ℕ_discrete Entry-discrete _ _ (as_hashmap-IsUnique real)
        (as_hashmap-IsUnique_reference ℕ_discrete stupid)
        (as_hashmap-Agrees ℕ_discrete real stupid h.agrees h.apart);
}

-- There is an address at least between the two ranges.
abbrev pub IsSpaced : ℕ × ℕ → ℕ × ℕ → Type 0
IsSpaced (s, n) (t, k) = (s + n < t) ⊎ (t + k < s)

abbrev pub AreSpaced : List (ℕ × ℕ) → Type 0
AreSpaced [] = Unit
AreSpaced (e ∷ l) = All (IsSpaced e) l × AreSpaced l

-- The range is not empty and lies within the word size.
abbrev pub IsDrawn : ℕ × ℕ → Type 0
IsDrawn (start, length) = (0 < length) × (start + length < usize_mod)

abbrev pub AreClear : RangeMap ℕ → List (ℕ × ℕ) → Type 0
AreClear m = All (λ e. IsClear m e.0 e.1)

AreClear-add :
    (m m' : RangeMap ℕ) (e : ℕ × ℕ) (v : ℕ) (l : List (ℕ × ℕ))
    → ((a : ℕ)
        → values_at a m'.ranges ≡ values_at a m.ranges ++ (if within e.0 e.1 a then v ∷ [] else []))
    → All (IsSpaced e) l
    → AreClear m l
    → AreClear m' l
AreClear-add m m' e v [] points spaced h = tt
AreClear-add m m' (s, n) v ((t, k) ∷ l) points spaced h = (
  λ a p q. elim spaced.0 [
    | inl u ↦ ground (arith, points a, h.0 a p q)
    | inr u ↦ ground (arith, points a, h.0 a p q)
  ],
  AreClear-add m m' (s, n) v l points spaced.1 h.1,
)

-- A round for a range with clear addresses round it: both maps are changed alike.
add_round :
    (real : RangeMap ℕ) (stupid : StupidRangeMap ℕ) (start n v : ℕ)
    → InStep real stupid
    → IsDrawn (start, n)
    → IsClear real start n
    → Reference.size stupid + n < usize_mod
    → (real' : RangeMap ℕ) × (stupid' : StupidRangeMap ℕ) × (RangeMap.add real start n v
        ≡ done real')
      × (Reference.add stupid start n v ≡ done stupid')
      × InStep real' stupid'
      × (Reference.size stupid' ≡ Reference.size stupid + n)
      × ((a : ℕ)
          → values_at a real'.ranges
            ≡ values_at a real.ranges ++ (if within start n a then v ∷ [] else []))
add_round real stupid start n v h (pos, bound) clear room =
    let (m, ran, valid, points, bytes, _) = add-values_at real start n v h.agrees.valid bound in
    let (m', s', ran', added, agrees) =
      add-Agrees real stupid start n v h.agrees pos bound
        (λ a e. clear a (ground arith) (ground arith)) room in
    let same : m ≡ m' = ground (arith, ran, ran') in
    let points' =
      subst
        (λ (x : RangeMap ℕ).
          (a : ℕ)
          → values_at a x.ranges
            ≡ values_at a real.ranges ++ (if within start n a then v ∷ [] else []))
        same points in
    (
      m',
      s',
      ran',
      added,
      record {
        agrees = agrees;
        apart = add-IsApart real m' start n v pos bound h.agrees.valid clear ran' points' h.apart;
      },
      omega (
        arith,
        agrees.bytes,
        h.agrees.bytes,
        bytes (λ _. true),
        ap (λ x. held_bytes (λ _. true) x.ranges) same,
      ),
      points',
    )

pub add_each-passes :
    (l : List (ℕ × ℕ)) (real : RangeMap ℕ) (stupid : StupidRangeMap ℕ)
    → InStep real stupid
    → All IsDrawn l
    → AreSpaced l
    → AreClear real l
    → Reference.size stupid + sum_by (λ e. e.1) l < usize_mod
    → (real' : RangeMap ℕ) × (stupid' : StupidRangeMap ℕ) × (add_each l real stupid
        ≡ done (real', stupid'))
      × InStep real' stupid'
unfolding add_each
add_each-passes [] real stupid h drawn spaced clear room = (real, stupid, refl, h)
add_each-passes ((start, n) ∷ l) real stupid h drawn spaced clear room =
    let v : ℕ = mul_usize start n in
    let (m, s, added, grown, next, size, points) =
      add_round real stupid start n v h drawn.0 clear.0 (omega (arith, room)) in
    let passes = InStep-Passes m s next in
    let (m', s', ran, last) =
      add_each-passes l m s next drawn.1 spaced.1
        (AreClear-add real m (start, n) v l points spaced.0 clear.1) (omega (arith, room, size)) in
    (m', s', rw (added, grown, passes.sizes, passes.maps) ran, last)
