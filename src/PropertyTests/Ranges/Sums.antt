-- ===== src/PropertyTests/Ranges/Sums.antt =====
-- The reports of a removal, summed and collected as in `adding_removing_ranges` of
-- memapi/src/rangemap.rs.
use filprofiler.Base.{
  ℕ, zero, suc, ◌+◌, ◌<◌, ◌≡◌, ◌≢◌, ◌∙◌, refl, sym, ap, List, [], ◌∷◌, if◌then◌else◌, true, arith,
  lookup, length, Option-cases, none, some, All, inl, inr, ℕ_discrete,
}
use filprofiler.Word.{usize_mod, add_usize}
use filprofiler.HashMap.{
  add_entry-IsUnique, HashMap, IsUnique, insert, lookup-insert_self, lookup-insert_ne,
  insert-IsUnique, add_entry, amount, amount-add_entry_self, amount-add_entry_ne,
}
use filprofiler.RangeMap.Bytes.{removed_bytes}
use filprofiler.RangeMap.Agreement.{is}
use filprofiler.RangeMap.Reference.{remove_at, remove_each}
use filprofiler.RangeMap.Reference.Loops.{remove_at-IsUnique, amount-remove_at, length-remove_at}
use filprofiler.PropertyTests.Ranges.{eq_maps, sum_entries, collect_entries}
use filprofiler.PropertyTests.Ranges.Maps.{eq_maps_of}

-- No number in the map is 0.
abbrev pub IsPositive : HashMap ℕ ℕ → Type 0
IsPositive m = (k : ℕ) → lookup ℕ_discrete k m ≢ some 0

amount-add_entry :
    (k j n : ℕ) (m : HashMap ℕ ℕ)
    → amount ℕ_discrete j m + n < usize_mod
    → amount ℕ_discrete k (add_entry ℕ_discrete j n m)
      ≡ amount ℕ_discrete k m + (if is ℕ_discrete k j then n else 0)
amount-add_entry k j n m room = elim (ℕ_discrete k j) [
  | yes p ↦ ground (arith, p, amount-add_entry_self ℕ_discrete j n m room)
  | no p ↦ ground (arith, p, amount-add_entry_ne ℕ_discrete j k n m p)
]

lookup-add_entry_ne :
    (j k n : ℕ) (m : HashMap ℕ ℕ)
    → k ≢ j
    → lookup ℕ_discrete k (add_entry ℕ_discrete j n m) ≡ lookup ℕ_discrete k m
unfolding add_entry
lookup-add_entry_ne j k n m ne = elim (Option-cases (lookup ℕ_discrete j m)) [
  | inl e ↦ rw (e, add_entry) (lookup-insert_ne ℕ_discrete j k (add_usize 0 n) m ne)
  | inr (old, e) ↦ rw (e, add_entry) (lookup-insert_ne ℕ_discrete j k (add_usize old n) m ne)
]

add_entry-IsPositive :
    (j n : ℕ) (m : HashMap ℕ ℕ)
    → 0 < n
    → amount ℕ_discrete j m + n < usize_mod
    → IsPositive m
    → IsPositive (add_entry ℕ_discrete j n m)
add_entry-IsPositive j n m pos room h k e = elim (ℕ_discrete k j) [
  | yes p ↦ absurd (
      ground (
        arith,
        ap (λ x. lookup ℕ_discrete x (add_entry ℕ_discrete j n m)) (sym p) ∙ e,
        amount-add_entry_self ℕ_discrete j n m room,
        pos,
      ))
  | no p ↦ h k (sym (lookup-add_entry_ne j k n m p) ∙ e)
]

-- Two such maps with the same amounts are the same.
lookup_of_amounts :
    (m n : HashMap ℕ ℕ) (k : ℕ)
    → IsPositive m
    → IsPositive n
    → amount ℕ_discrete k m ≡ amount ℕ_discrete k n
    → lookup ℕ_discrete k m ≡ lookup ℕ_discrete k n
lookup_of_amounts m n k h i e = ground (arith, h k, i k, e)

-- What a sum of reports is: positive, with distinct keys and the amounts of the reports.
record Sums (gone : List (ℕ × ℕ)) (m sums : HashMap ℕ ℕ) : Type 0 where
  unique : IsUnique ℕ_discrete sums
  positive : IsPositive sums
  amounts :
      (k : ℕ)
      → amount ℕ_discrete k sums ≡ amount ℕ_discrete k m + removed_bytes (is ℕ_discrete k) gone

sum_entries-Sums :
    (gone : List (ℕ × ℕ)) (m : HashMap ℕ ℕ)
    → IsUnique ℕ_discrete m
    → IsPositive m
    → All (λ e. 0 < e.1) gone
    → ((k : ℕ) → amount ℕ_discrete k m + removed_bytes (λ _. true) gone < usize_mod)
    → Sums gone m (sum_entries gone m)
unfolding sum_entries
sum_entries-Sums [] m u h pos room = record { unique = u; positive = h; amounts = λ k. omega arith }
sum_entries-Sums ((j, n) ∷ gone) m u h pos room =
    let fits : amount ℕ_discrete j m + n < usize_mod = omega (arith, room j) in
    let added = λ (k : ℕ). amount-add_entry k j n m fits in
    let rest =
      sum_entries-Sums gone (add_entry ℕ_discrete j n m) (add_entry-IsUnique ℕ_discrete j n m u)
        (add_entry-IsPositive j n m pos.0 fits h) pos.1 (λ k. ground (arith, added k, room k)) in
    record {
      unique = rest.unique;
      positive = rest.positive;
      amounts = λ k. omega (arith, rest.amounts k, added k);
    }

-- What a step of the counting of `StupidRangeMap::remove` keeps.
pub record Counts (s : HashMap ℕ ℕ × HashMap ℕ ℕ) : Type 0 where
  pub items : IsUnique ℕ_discrete s.0
  pub unique : IsUnique ℕ_discrete s.1
  pub positive : IsPositive s.1
  pub room : (k : ℕ) → amount ℕ_discrete k s.1 + length s.0 < usize_mod

remove_at-Counts :
    (i : ℕ) (s : HashMap ℕ ℕ × HashMap ℕ ℕ) → Counts s → Counts (remove_at ℕ_discrete i s)
unfolding remove_at
remove_at-Counts i s c =
    let left = length-remove_at ℕ_discrete i s c.items in
    let fits : (k : ℕ)
        → amount ℕ_discrete k (remove_at ℕ_discrete i s).1 + length (remove_at ℕ_discrete i s).0
          < usize_mod =
      λ k. ground (arith, left, c.room k, amount-remove_at ℕ_discrete i k s c.items (c.room k)) in
    let items = remove_at-IsUnique ℕ_discrete i s c.items in
    elim (Option-cases (lookup ℕ_discrete i s.0)) [
      | inl e ↦ record {
        items = items;
        unique = rw (e, remove_at) c.unique;
        positive = rw (e, remove_at) c.positive;
        room = fits;
      }
      | inr (v, e) ↦
          let one : amount ℕ_discrete v s.1 + 1 < usize_mod = ground (arith, c.room v, left, e) in
          record {
            items = items;
            unique = rw (e, remove_at) (add_entry-IsUnique ℕ_discrete v 1 s.1 c.unique);
            positive =
                rw (e, remove_at) (add_entry-IsPositive v 1 s.1 (omega arith) one c.positive);
            room = fits;
          }
    ]

pub remove_each-Counts :
    (i n : ℕ) (s : HashMap ℕ ℕ × HashMap ℕ ℕ) → Counts s → Counts (remove_each ℕ_discrete i n s)
unfolding remove_each
remove_each-Counts i zero s c = c
remove_each-Counts i (suc n) s c =
    remove_each-Counts (suc i) n (remove_at ℕ_discrete i s) (remove_at-Counts i s c)

lookup-collect_entries :
    (q : ℕ) (l m : HashMap ℕ ℕ)
    → IsUnique ℕ_discrete l
    → lookup ℕ_discrete q (collect_entries l m)
      ≡ elim (lookup ℕ_discrete q l) [ none ↦ lookup ℕ_discrete q m | some x ↦ some x ]
unfolding collect_entries lookup
lookup-collect_entries q [] m u = refl
lookup-collect_entries q ((k, v) ∷ l) m u = elim (ℕ_discrete q k) [
  | yes p ↦ ground (
    arith,
    p,
    u.0,
    lookup-collect_entries q l (insert ℕ_discrete k v m) u.1,
    lookup-insert_self ℕ_discrete k v m,
  )
  | no p ↦ ground (
    arith,
    p,
    lookup-collect_entries q l (insert ℕ_discrete k v m) u.1,
    lookup-insert_ne ℕ_discrete k q v m p,
  )
]

collect_entries-IsUnique :
    (l m : HashMap ℕ ℕ) → IsUnique ℕ_discrete m → IsUnique ℕ_discrete (collect_entries l m)
unfolding collect_entries
collect_entries-IsUnique [] m u = u
collect_entries-IsUnique ((k, v) ∷ l) m u =
    collect_entries-IsUnique l (insert ℕ_discrete k v m) (insert-IsUnique ℕ_discrete k v m u)

-- The sum of the reports and the collected counts are equal maps where the amounts are the same.
pub sum_entries-collect_entries :
    (gone : List (ℕ × ℕ)) (counts : HashMap ℕ ℕ)
    → All (λ e. 0 < e.1) gone
    → removed_bytes (λ _. true) gone < usize_mod
    → IsUnique ℕ_discrete counts
    → IsPositive counts
    → ((v : ℕ) → removed_bytes (is ℕ_discrete v) gone ≡ amount ℕ_discrete v counts)
    → eq_maps ℕ_discrete ℕ_discrete (sum_entries gone []) (collect_entries counts []) ≡ true
unfolding lookup
sum_entries-collect_entries gone counts pos room u h same =
    let sums = sum_entries-Sums gone [] tt (λ k e. absurd (cc e)) pos (λ k. omega (arith, room)) in
    eq_maps_of ℕ_discrete ℕ_discrete (sum_entries gone []) (collect_entries counts []) sums.unique
      (collect_entries-IsUnique counts [] tt)
      (λ k.
        lookup_of_amounts (sum_entries gone []) counts k sums.positive h
          (omega (arith, sums.amounts k, same k))
        ∙ ground (arith, lookup-collect_entries k counts [] u))
