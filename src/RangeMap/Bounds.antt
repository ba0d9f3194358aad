-- ===== src/RangeMap/Bounds.antt =====
-- `RangeMap` of memapi/src/rangemap.rs: well-formed ranges, and one round of `remove`.
use filprofiler.Base.{
  ℕ, ◌+◌, ◌-◌, ◌≤◌, ◌<◌, max, min, ◌≡◌, List, [], ◌∷◌, ◌++◌, arith, ltb, if◌then◌else◌, done,
}
use filprofiler.Word.{usize_mod, sub_usize_exact, add_usize_exact}
use filprofiler.RangeMap.{Range, new_range, intersection, range_size, remove_one}

-- Not empty, and its end does not wrap.
pub record IsProper (r : Range) : Type 0 where
  pub nonempty : r.start < r.end
  pub bounded : r.end < usize_mod

pub range_size_exact :
    (r : Range) → r.start ≤ r.end → r.end < usize_mod → range_size r ≡ r.end - r.start
unfolding range_size
range_size_exact r h k = sub_usize_exact r.end r.start h k

pub new_range_exact :
    (start length : ℕ)
    → 0 < length
    → start + length < usize_mod
    → new_range start length ≡ done (record { start = start; end = start + length })
unfolding new_range
new_range_exact start length h k = ground (arith, add_usize_exact start length k)

module _ {V : Type 0} where
  -- The range from `start` to `end`, or nothing when that is empty.
  abbrev pub chunk : ℕ → ℕ → V → List (Range × V)
  chunk start end v = if ltb start end then (record { start = start; end = end }, v) ∷ [] else []

  -- The bytes that a range loses, or nothing when it loses none.
  abbrev pub loss : ℕ → V → List (V × ℕ)
  loss n v = if ltb 0 n then (v, n) ∷ [] else []

  -- The five cases of the loop body come to this: what lies before the cut is kept, what lies behind
  -- it is kept, and the overlap is reported.
  pub remove_one_lem :
      (cut r : Range) (v : V)
      → IsProper cut
      → IsProper r
      → remove_one cut (cut.end - cut.start) r v ≡ (
        chunk r.start (min r.end cut.start) v ++ chunk (max r.start cut.end) r.end v,
        loss (min r.end cut.end - max r.start cut.start) v,
      )
  unfolding remove_one intersection
  remove_one_lem cut r v c p = ground (
    arith,
    range_size_exact r,
    sub_usize_exact (r.end - r.start) (r.end - cut.end),
    sub_usize_exact (r.end - r.start) (cut.start - r.start),
    range_size_exact (record { start = cut.end; end = r.end }),
    range_size_exact (record { start = r.start; end = cut.start }),
  )
