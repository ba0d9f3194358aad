-- ===== src/PropertyTests/Ranges/Removing.antt =====
-- The second loop of `adding_removing_ranges` of memapi/src/rangemap.rs.
use filprofiler.Base.{
  ℕ, ◌+◌, ◌-◌, ◌*◌, ◌<◌, ◌≡◌, refl, subst, List, [], ◌∷◌, true, arith, lookup, All, length, done,
  ℕ_discrete,
}
use filprofiler.Word.{usize_mod, mul_usize_exact, add_usize_exact}
use filprofiler.HashMap.{HashMap, IsUnique}
use filprofiler.RangeMap
use filprofiler.RangeMap.{Range, RangeMap, remove_loop}
use filprofiler.RangeMap.Bounds.{IsProper, new_range_exact}
use filprofiler.RangeMap.Points.{IsWellFormed, remove_loop-reports}
use filprofiler.RangeMap.Removal.{Removes, remove-Removes}
use filprofiler.RangeMap.Agreement.{remove-Agrees}
use filprofiler.RangeMap.Coalesced.{remove-IsApart}
use filprofiler.RangeMap.Reference
use filprofiler.RangeMap.Reference.{StupidRangeMap}
use filprofiler.PropertyTests.Ranges.{eq_maps, sum_entries, collect_entries, remove_ranges_each}
use filprofiler.PropertyTests.Ranges.Sums.{
  IsPositive, remove_each-Counts, sum_entries-collect_entries,
}
use filprofiler.PropertyTests.Ranges.Adding.{InStep, InStep-Passes}

-- No report of a removal is empty.
remove-reports :
    {V : Type 0} (m : RangeMap V) (start n : ℕ) (r : RangeMap V × List (V × ℕ))
    → 0 < n
    → start + n < usize_mod
    → IsWellFormed m
    → RangeMap.remove m start n ≡ done r
    → All (λ e. 0 < e.1) r.1
unfolding RangeMap.remove
remove-reports m start n r pos bound h ran =
    let cut : Range = record { start = start; end = start + n } in
    let c : IsProper cut = record { nonempty = omega arith; bounded = bound } in
    let size : cut.end - cut.start ≡ n = omega arith in
    let same : (remove_loop cut n m.ranges).1 ≡ r.1 =
      ground (arith, ran, new_range_exact start n pos bound) in
    subst (λ l. All (λ e. 0 < e.1) l) same
      (subst (λ k. All (λ e. 0 < e.1) (remove_loop cut k m.ranges).1) size
        (remove_loop-reports cut c m.ranges h))

-- The counts of a removal have distinct keys, and none is 0.
remove-counts :
    (s s' : StupidRangeMap ℕ) (start n : ℕ) (counts : HashMap ℕ ℕ)
    → 0 < n
    → start + n < usize_mod
    → IsUnique ℕ_discrete s.items
    → Reference.size s < usize_mod
    → Reference.remove ℕ_discrete s start n ≡ done (s', counts)
    → IsUnique ℕ_discrete counts × IsPositive counts
unfolding Reference.remove Reference.size lookup
remove-counts s s' start n counts pos bound u room ran =
    let size : start + n - start ≡ n = omega arith in
    let same : (Reference.remove_each ℕ_discrete start n (s.items, [])).1 ≡ counts =
      ground (arith, ran, add_usize_exact start n bound, size) in
    let result =
      remove_each-Counts start n (s.items, [])
        (record {
          items = u;
          unique = tt;
          positive = λ k e. absurd (cc e);
          room = λ k. omega (arith, room);
        }) in
    (
      subst (λ m. IsUnique ℕ_discrete m) same result.unique,
      subst (λ m. IsPositive m) same result.positive,
    )

-- A round: both maps are changed alike, and report the same.
remove_round :
    (real : RangeMap ℕ) (stupid : StupidRangeMap ℕ) (start n : ℕ)
    → InStep real stupid
    → 0 < n
    → start + n < usize_mod
    → (real' : RangeMap ℕ) × (gone : List (ℕ × ℕ)) × (stupid' : StupidRangeMap ℕ)
      × (counts : HashMap ℕ ℕ) × (RangeMap.remove real start n ≡ done (real', gone))
      × (Reference.remove ℕ_discrete stupid start n ≡ done (stupid', counts))
      × InStep real' stupid'
      × (eq_maps ℕ_discrete ℕ_discrete (sum_entries gone []) (collect_entries counts []) ≡ true)
remove_round real stupid start n h pos bound =
    let (m, gone, s, counts, ran, taken, amounts, agrees) =
      remove-Agrees ℕ_discrete real stupid start n h.agrees pos bound in
    let (r, ran', spec) = remove-Removes real start n h.agrees.valid bound in
    let same : r ≡ (m, gone) = ground (arith, ran, ran') in
    let removes : Removes real start n (m, gone) = subst (λ x. Removes real start n x) same spec in
    let kept =
      remove-counts stupid s start n counts pos bound h.agrees.unique h.agrees.bounded taken in
    (
      m,
      gone,
      s,
      counts,
      ran,
      taken,
      record {
        agrees = agrees;
        apart = remove-IsApart real start n (m, gone) pos bound h.agrees.valid ran removes h.apart;
      },
      sum_entries-collect_entries gone counts
          (remove-reports real start n (m, gone) pos bound h.agrees.valid ran)
          (omega (arith, removes.conserved (λ _. true), h.agrees.bytes, h.agrees.bounded)) kept.0
          kept.1 amounts,
    )

-- The range that is removed for a draw lies within the word size.
abbrev pub IsRemovable : ℕ × ℕ → Type 0
IsRemovable (start, length) = (0 < length) × (start + length * 2 < usize_mod)

pub remove_ranges_each-passes :
    (l : List (ℕ × ℕ)) (real : RangeMap ℕ) (stupid : StupidRangeMap ℕ)
    → InStep real stupid
    → All IsRemovable l
    → remove_ranges_each l real stupid ≡ done tt
unfolding remove_ranges_each
remove_ranges_each-passes [] real stupid h drawn = refl
remove_ranges_each-passes ((start, n) ∷ l) real stupid h drawn =
    let double = mul_usize_exact n 2 (omega (arith, drawn.0.1)) in
    let (m, gone, s, counts, ran, taken, next, same) =
      remove_round real stupid start (n * 2) h (omega (arith, drawn.0.0)) drawn.0.1 in
    let passes = InStep-Passes m s next in
    rw (double, ran, taken, same, passes.sizes, passes.maps)
      (remove_ranges_each-passes l m s next drawn.1)
