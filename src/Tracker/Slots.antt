-- ===== src/Tracker/Slots.antt =====
-- `add_memory_usage` and `remove_memory_usage` of memapi/src/memorytracking.rs: the two sums that
-- every change of the tracker goes through.
use filprofiler.Base.{
  ℕ, ◌+◌, ◌-◌, ◌≤◌, ◌<◌, ◌≡◌, refl, true, ltb, ltb→lt, ◌∙◌, List, [], ◌∷◌, arith, get_or, set, sum,
  length, sum-set, get_or-le-sum, get_elem?-get_or, get_or-set_self, get_or-set_ne, length-set,
  done, ℕ_discrete, ◌==◌, if◌then◌else◌, All,
}
use filprofiler.Word.{usize_mod, add_usize_exact, sub_usize_exact}
use filprofiler.RangeMap.Bytes.{removed_bytes}
use filprofiler.Tracker.{AllocationTracker, add_memory_usage, remove_memory_usage, remove_each}

-- The bytes in use that the tracker has for a callstack id.
abbrev pub usage_of : AllocationTracker → ℕ → ℕ
usage_of t id = get_or t.current_memory_usage id 0

-- The total is the sum over the callstacks, and fits its word.
pub record IsSummed (t : AllocationTracker) : Type 0 where
  pub total : t.current_allocated_bytes ≡ sum t.current_memory_usage
  pub fits : t.current_allocated_bytes < usize_mod

-- `t` with other sums.
abbrev pub with_sums : AllocationTracker → List ℕ → ℕ → AllocationTracker
with_sums t usage total = record t { current_memory_usage = usage; current_allocated_bytes = total }

pub get_or-set :
    (l : List ℕ) (i j v : ℕ)
    → i < length l
    → get_or (set l i v) j 0 ≡ (if i == j then v else get_or l j 0)
get_or-set l i j v h = elim (ℕ_discrete i j) [
  | yes p ↦ ground (arith, get_or-set_self l i v 0 h)
  | no p ↦ ground (arith, get_or-set_ne l i j v 0 p)
]

module _ (t : AllocationTracker) (s : IsSummed t) (id bytes : ℕ) where
  pub add_memory_usage_exact :
      id < length t.current_memory_usage
      → t.current_allocated_bytes + bytes < usize_mod
      → add_memory_usage t id bytes
        ≡ done (
            with_sums t
              (set t.current_memory_usage id (usage_of t id + bytes))
              (t.current_allocated_bytes + bytes))
  unfolding add_memory_usage
  add_memory_usage_exact h room =
      let small = get_or-le-sum t.current_memory_usage id in
      rw (get_elem?-get_or t.current_memory_usage id 0 h) (
        ground (
          arith,
          add_usize_exact t.current_allocated_bytes bytes room,
          add_usize_exact (usage_of t id) bytes (omega (arith, small, s.total)),
        ))

  pub remove_memory_usage_exact :
      id < length t.current_memory_usage
      → bytes ≤ usage_of t id
      → remove_memory_usage t id bytes
        ≡ done (
            with_sums t
              (set t.current_memory_usage id (usage_of t id - bytes))
              (t.current_allocated_bytes - bytes))
  unfolding remove_memory_usage
  remove_memory_usage_exact h enough =
      let small = get_or-le-sum t.current_memory_usage id in
      rw (get_elem?-get_or t.current_memory_usage id 0 h) (
        ground (
          arith,
          sub_usize_exact t.current_allocated_bytes bytes (omega (arith, small, s.total)) s.fits,
          sub_usize_exact (usage_of t id) bytes enough (omega (arith, small, s.total, s.fits)),
        ))

-- What a batch of removals leaves of the sums.
pub record Settles (t : AllocationTracker) (gone : List (ℕ × ℕ)) (usage : List ℕ) (total : ℕ)
    : Type 0 where
  pub ran : remove_each t gone ≡ done (with_sums t usage total)
  pub same_length : length usage ≡ length t.current_memory_usage
  pub settled : (id : ℕ) → get_or usage id 0 + removed_bytes (λ v. v == id) gone ≡ usage_of t id
  pub summed : IsSummed (with_sums t usage total)
  pub no_more : total ≤ t.current_allocated_bytes
  pub taken : total + removed_bytes (λ _. true) gone ≡ t.current_allocated_bytes

pub remove_each-Settles :
    (t : AllocationTracker) (gone : List (ℕ × ℕ))
    → IsSummed t
    → All (λ e. ltb e.0 (length t.current_memory_usage) ≡ true) gone
    → ((id : ℕ) → removed_bytes (λ v. v == id) gone ≤ usage_of t id)
    → (usage : List ℕ) × (total : ℕ) × Settles t gone usage total
unfolding remove_each
remove_each-Settles t [] s h enough = (
  t.current_memory_usage,
  t.current_allocated_bytes,
  record {
    ran = refl;
    same_length = refl;
    settled = λ id. omega arith;
    summed = s;
    no_more = omega arith;
    taken = omega arith;
  },
)
remove_each-Settles t ((i, n) ∷ gone) s h enough =
    let fits : n ≤ usage_of t i = ground (arith, enough i) in
    let taken = ltb→lt i (length t.current_memory_usage) h.0 in
    let set_i = λ (j : ℕ). get_or-set t.current_memory_usage i j (usage_of t i - n) taken in
    let t' =
      with_sums t (set t.current_memory_usage i (usage_of t i - n))
        (t.current_allocated_bytes - n) in
    let s' : IsSummed t' = record {
      total = omega (
        arith,
        sum-set t.current_memory_usage i (usage_of t i - n) taken,
        s.total,
        fits,
        get_or-le-sum t.current_memory_usage i,
      );
      fits = omega (arith, s.fits);
    } in
    let (usage, total, rest) =
      remove_each-Settles t' gone s'
        (rw (length-set t.current_memory_usage i (usage_of t i - n)) h.1)
        (λ id. ground (arith, enough id, set_i id)) in
    (
      usage,
      total,
      record {
        ran = rw (remove_memory_usage_exact t s i n taken fits) rest.ran;
        same_length = rest.same_length ∙ length-set t.current_memory_usage i (usage_of t i - n);
        settled = λ id. ground (arith, rest.settled id, set_i id, fits);
        summed = rest.summed;
        no_more = omega (arith, rest.no_more);
        taken = omega (arith, rest.taken, fits, s.total, get_or-le-sum t.current_memory_usage i);
      },
    )

module _ (t : AllocationTracker) (s : IsSummed t) (id bytes : ℕ) where
  pub more_sums :
      id < length t.current_memory_usage
      → t.current_allocated_bytes + bytes < usize_mod
      → IsSummed (
          with_sums t
            (set t.current_memory_usage id (usage_of t id + bytes))
            (t.current_allocated_bytes + bytes))
  more_sums h room = record {
    total = omega (arith, s.total, sum-set t.current_memory_usage id (usage_of t id + bytes) h);
    fits = room;
  }

  pub fewer_sums :
      id < length t.current_memory_usage
      → bytes ≤ usage_of t id
      → IsSummed (
          with_sums t
            (set t.current_memory_usage id (usage_of t id - bytes))
            (t.current_allocated_bytes - bytes))
  fewer_sums h enough = record {
    total = omega (
      arith,
      s.total,
      enough,
      sum-set t.current_memory_usage id (usage_of t id - bytes) h,
      get_or-le-sum t.current_memory_usage id,
    );
    fits = omega (arith, s.fits);
  }
