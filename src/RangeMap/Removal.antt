-- ===== src/RangeMap/Removal.antt =====
-- `RangeMap::add`, `remove` and `size` of memapi/src/rangemap.rs as a whole.
use mathlib.Core.List.{append-nil}
use filprofiler.Base.{
  ℕ, zero, suc, ap, ◌∙◌, ◌+◌, ◌-◌, ◌<◌, ◌≡◌, refl, sym, List, [], ◌∷◌, ◌++◌, arith, Bool, true,
  if◌then◌else◌, done, All, All-append, sum_by-append,
}
use filprofiler.Word.{usize_mod, add_usize_exact}
use filprofiler.RangeMap.Bounds.{IsProper, new_range_exact, range_size_exact}
use filprofiler.RangeMap.Points.{
  within, values_at, IsWellFormed, values_at-append, remove_loop-IsProper, values_at-remove_loop,
  remove_loop-All,
}
use filprofiler.RangeMap.Bytes.{
  sum_range, held_bytes, removed_bytes, count_if, held_bytes-remove_loop, removed_bytes-remove_loop,
}
use filprofiler.RangeMap.{Range, RangeMap, add, remove_loop, remove, sum_sizes, size}

-- The range that `add` and `remove` build from their arguments.
abbrev span : ℕ → ℕ → Range
span start n = record { start = start; end = start + n }

-- What a call of `remove` promises of the map and the list that it returns.
pub record Removes {V : Type 0} (m : RangeMap V) (start n : ℕ) (r : RangeMap V × List (V × ℕ))
    : Type 0 where
  pub valid : IsWellFormed r.0
  -- the addresses in the cut are free, the others hold what they held
  pub points :
      (a : ℕ) → values_at a r.0.ranges ≡ (if within start n a then [] else values_at a m.ranges)
  -- for each selection of values, as many bytes are reported as addresses of the cut held them
  pub reported :
      (p : V → Bool)
      → removed_bytes p r.1 ≡ sum_range (λ a. count_if p (values_at a m.ranges)) start n
  -- what is kept and what is reported make up what was there
  pub conserved :
      (p : V → Bool) → held_bytes p r.0.ranges + removed_bytes p r.1 ≡ held_bytes p m.ranges
  -- no value is made up
  pub named :
      (p : V → Bool)
      → All (λ e. p e.1 ≡ true) m.ranges
      → All (λ e. p e.1 ≡ true) r.0.ranges × All (λ e. p e.0 ≡ true) r.1

module _ {V : Type 0} where
  Removes-nothing : (m : RangeMap V) (start : ℕ) → IsWellFormed m → Removes m start 0 (m, [])
  Removes-nothing m start h = record {
    valid = h;
    points = λ a. ground arith;
    reported = λ p. refl;
    conserved = λ p. omega arith;
    named = λ p q. (q, tt);
  }

  Removes-remove_loop :
      (m : RangeMap V) (start n k : ℕ)
      → IsWellFormed m
      → start + n < usize_mod
      → 0 < n
      → k ≡ n
      → Removes m start n (
        record { ranges = (remove_loop (span start n) k m.ranges).0 },
        (remove_loop (span start n) k m.ranges).1,
      )
  Removes-remove_loop m start n k h bound pos e =
      let c : IsProper (span start n) = record { nonempty = omega arith; bounded = bound } in
      let size : start + n - start ≡ n = omega arith in
      let e' : k ≡ start + n - start = e ∙ sym size in
      record {
        valid = rw e' (remove_loop-IsProper (span start n) c m.ranges h);
        points = λ a. rw e' (values_at-remove_loop (span start n) c a m.ranges h);
        reported = λ p.
            rw e' (
              removed_bytes-remove_loop p (span start n) c m.ranges h
              ∙ ap (sum_range _ start) size);
        conserved = λ p. rw e' (held_bytes-remove_loop p (span start n) c m.ranges h);
        named = λ p q. rw e' (remove_loop-All (span start n) c p m.ranges h q);
      }

  sum_sizes_exact :
      (l : List (Range × V))
      → All (λ e. IsProper e.0) l
      → held_bytes (λ _. true) l < usize_mod
      → sum_sizes l ≡ held_bytes (λ _. true) l
  unfolding sum_sizes
  sum_sizes_exact [] h bound = refl
  sum_sizes_exact ((r, v) ∷ l) h bound = ground (
    arith,
    range_size_exact r,
    sum_sizes_exact l h.1,
    add_usize_exact (r.end - r.start) (held_bytes (λ _. true) l),
  )

  -- On well-formed ranges, `remove` of a range within the word size, also an empty one, does not
  -- panic: the ranges stay well-formed, the addresses of the range are free and all others hold
  -- what they held, and for each selection of values the bytes reported are those that the range's
  -- addresses held, and with the bytes kept make up the bytes held before.
  pub remove-Removes :
      (m : RangeMap V) (start n : ℕ)
      → IsWellFormed m
      → start + n < usize_mod
      → (r : RangeMap V × List (V × ℕ)) × (remove m start n ≡ done r) × Removes m start n r
  unfolding remove
  remove-Removes m start zero h bound = ((m, []), refl, Removes-nothing m start h)
  remove-Removes m start (suc n) h bound = (
    (
      record { ranges = (remove_loop (span start (suc n)) (suc n) m.ranges).0 },
      (remove_loop (span start (suc n)) (suc n) m.ranges).1,
    ),
    ground (arith, new_range_exact start (suc n) (omega arith) bound),
    Removes-remove_loop m start (suc n) (suc n) h bound (omega arith) refl,
  )

  -- On well-formed ranges, `add` of a range within the word size, also an empty one, does not
  -- panic, keeps the ranges well-formed, puts the value behind those that the addresses of the
  -- range hold, adds the length to the bytes held by each selection that has the value, and keeps
  -- every test of the values that the new one passes too.
  pub add-values_at :
      (m : RangeMap V) (start n : ℕ) (v : V)
      → IsWellFormed m
      → start + n < usize_mod
      → (m' : RangeMap V) × (add m start n v ≡ done m')
        × IsWellFormed m'
        × ((a : ℕ)
            → values_at a m'.ranges
              ≡ values_at a m.ranges ++ (if within start n a then v ∷ [] else []))
        × ((p : V → Bool) → held_bytes p m'.ranges ≡ held_bytes p m.ranges + (if p v then n else 0))
        × ((p : V → Bool)
            → All (λ e. p e.1 ≡ true) m.ranges
            → p v ≡ true
            → All (λ e. p e.1 ≡ true) m'.ranges)
  unfolding add
  add-values_at m start zero v h bound = (
    m,
    refl,
    h,
    λ a. ground (arith, append-nil (values_at a m.ranges)),
    λ p. ground arith,
    λ p q _. q,
  )
  add-values_at m start (suc n) v h bound = (
    record m { ranges = m.ranges ++ (span start (suc n), v) ∷ [] },
    ground (arith, new_range_exact start (suc n) (omega arith) bound),
    All-append _ m.ranges _ h (record { nonempty = omega arith; bounded = bound }, tt),
    λ a. rw (values_at-append a m.ranges ((span start (suc n), v) ∷ []), append-nil) refl,
    λ p. ground (
      arith,
      sum_by-append (λ (e : Range × V). if p e.1 then e.0.end - e.0.start else 0) m.ranges
          ((span start (suc n), v) ∷ []),
    ),
    λ p q named. All-append _ m.ranges _ q (named, tt),
  )

  -- On well-formed ranges whose bytes fit the word, `size` is the number of bytes held.
  pub size-held_bytes :
      (m : RangeMap V)
      → IsWellFormed m
      → held_bytes (λ _. true) m.ranges < usize_mod
      → size m ≡ held_bytes (λ _. true) m.ranges
  unfolding size
  size-held_bytes m h bound = sum_sizes_exact m.ranges h bound
