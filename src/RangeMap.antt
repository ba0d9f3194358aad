-- ===== src/RangeMap.antt =====
-- memapi/src/rangemap.rs: `Range` and `RangeMap`. An operation returns the new map beside its result;
-- a failed `assert!` is `panic`.
pub mod Bounds
pub mod Points
pub mod Bytes
pub mod Removal
pub mod Disjoint
pub mod Reference
pub mod Agreement
pub mod Starts
pub mod Coalesced
pub mod Keys
use filprofiler.Base.{
  ℕ, max, min, List, [], ◌∷◌, ◌++◌, Option, none, some, ltb, leb, ◌==◌, if◌then◌else◌, ◌&&◌,
  Outcome, done, panic, ◌>>=◌, ℕ_discrete,
}
use filprofiler.Word.{add_usize, sub_usize}
use filprofiler.HashMap.{HashMap, insert}

-- Open-ended range in memory, [A...B).
pub record Range : Type 0 where
  pub start : ℕ
  pub end : ℕ

-- `Range::new`
unfoldable pub new_range : ℕ → ℕ → Outcome Range
new_range start length =
    if ltb 0 length then done (record { start = start; end = add_usize start length }) else panic

unfoldable pub intersection : Range → Range → Option Range
intersection self other =
    let max_start = max self.start other.start in
    let min_end = min self.end other.end in
    if leb min_end max_start then none else some (record { start = max_start; end = min_end })

-- `Range::size`
unfoldable pub range_size : Range → ℕ
range_size r = sub_usize r.end r.start

pub record RangeMap (V : Type 0) : Type 0 where
  pub ranges : List (Range × V)

module _ {V : Type 0} where
  -- `RangeMap::new`
  abbrev pub empty : RangeMap V
  empty = record { ranges = [] }

  unfoldable pub add : RangeMap V → ℕ → ℕ → V → Outcome (RangeMap V)
  add m start length value = if leb length 0 then done m else do
    range ← new_range start length
    done (record m { ranges = m.ranges ++ (range, value) ∷ [] })

  -- The body of the loop of `remove` for one range: what it pushes to `new_ranges`, and what it
  -- pushes to `removed`.
  unfoldable pub remove_one : Range → ℕ → Range → V → List (Range × V) × List (V × ℕ)
  remove_one remove length range value = elim (intersection range remove) [
    | none ↦ ((range, value) ∷ [], [])
    | some i ↦
        if i.start == range.start && i.end == range.end
        then ([], (value, range_size range) ∷ [])
        else if i.start == range.start && ltb i.end range.end
        then (let new_range : Range = record { start = i.end; end = range.end } in
            (
              (new_range, value) ∷ [],
              (value, sub_usize (range_size range) (range_size new_range)) ∷ [],
            ))
        else if ltb range.start i.start && i.end == range.end
        then (let new_range : Range = record { start = range.start; end = i.start } in
            (
              (new_range, value) ∷ [],
              (value, sub_usize (range_size range) (range_size new_range)) ∷ [],
            ))
        else (
          (record { start = range.start; end = i.start }, value)
              ∷ (record { start = i.end; end = range.end }, value)
              ∷ [],
          (value, length) ∷ [],
        )
  ]

  -- The loop of `remove`: the pushes of each round, in order.
  unfoldable pub remove_loop : Range → ℕ → List (Range × V) → List (Range × V) × List (V × ℕ)
  remove_loop remove length [] = ([], [])
  remove_loop remove length ((range, value) ∷ rest) =
      let (kept, gone) = remove_one remove length range value in
      let (new_ranges, removed) = remove_loop remove length rest in
      (kept ++ new_ranges, gone ++ removed)

  unfoldable pub remove : RangeMap V → ℕ → ℕ → Outcome (RangeMap V × List (V × ℕ))
  remove m start length = if leb length 0 then done (m, []) else do
    range ← new_range start length
    let (new_ranges, removed) = remove_loop range length m.ranges
    done (record m { ranges = new_ranges }, removed)

  sum_sizes : List (Range × V) → ℕ
  sum_sizes [] = 0
  sum_sizes ((r, _) ∷ rest) = add_usize (range_size r) (sum_sizes rest)

  unfoldable pub size : RangeMap V → ℕ
  unfolding sum_sizes
  size m = sum_sizes m.ranges

  unfoldable pub collect : List (Range × V) → HashMap ℕ (ℕ × V) → HashMap ℕ (ℕ × V)
  collect [] result = result
  collect ((range, v) ∷ rest) result =
      collect rest (insert ℕ_discrete range.start (range_size range, v) result)

  unfoldable pub as_hashmap : RangeMap V → HashMap ℕ (ℕ × V)
  unfolding collect
  as_hashmap m = collect m.ranges []
