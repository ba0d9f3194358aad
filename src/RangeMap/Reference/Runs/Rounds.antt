-- ===== src/RangeMap/Reference/Runs/Rounds.antt =====
-- The rounds of the loop of `StupidRangeMap::as_hashmap` (memapi/src/rangemap.rs).
use native.Mathlib.Decide.{dec_lt}
use filprofiler.Base.{
  ℕ, suc, ◌+◌, ◌-◌, ◌≤◌, ◌<◌, ◌≡◌, ◌≢◌, ◌∙◌, inl, inr, min, refl, sym, ap, subst, ◌==◌, ◌&&◌, true,
  false, arith, lookup, Option, Option-cases, none, some, ℕ_discrete, if_pos, if_neg,
}
use filprofiler.Word.{add_usize, add_usize_exact}
use filprofiler.HashMap.{insert, lookup-insert_ne}
use filprofiler.RangeMap.Reference.{Coalescing, eq, coalesce_one}
use filprofiler.RangeMap.Reference.Runs.{AreRuns, HasSeen, cut, lookup-insert_at}

module _ {V : Type 0} (f : ℕ → Option V) (runs : ℕ → Option (ℕ × V)) (r : AreRuns f runs) where
  module _ (dec : Discrete V) (k : ℕ) (v : V) (here : f k ≡ some v) (s : Coalescing V)
      (seen : HasSeen f runs r k s) where
    -- A run that does not hold `k` is not longer after `k`.
    cut_other :
        (q k0 n0 : ℕ)
        → runs k0 ≡ some (n0, v)
        → k0 ≤ k
        → k < k0 + n0
        → q ≢ k0
        → cut k q (runs q) ≡ cut (suc k) q (runs q)
    cut_other q k0 n0 e low high ne = elim (Option-cases (runs q)) [
      | inl unknown ↦ rw unknown refl
      | inr ((n, w), known) ↦
          ground (arith, known, r.apart q k0 n n0 k w v known e, low, high, r.nonempty q n w known)
    ]

    joined :
        (key size : ℕ) (w : V)
        → s.last_entry ≡ some key
        → lookup ℕ_discrete key s.result ≡ some (size, w)
        → (eq dec w v && k == add_usize s.last_k 1) ≡ true
        → coalesce_one dec k v s
          ≡ record s { result = insert ℕ_discrete key (add_usize size 1, w) s.result; last_k = k }
    unfolding coalesce_one
    joined key size w last there guard = simp (last, there, guard, coalesce_one)

    -- The address goes on with the run of the last one.
    joins :
        (key n : ℕ) (w : V)
        → s.last_entry ≡ some key
        → runs key ≡ some (n, w)
        → key < k
        → k < key + n
        → suc s.last_k ≡ k
        → HasSeen f runs r (suc k) (coalesce_one dec k v s)
    joins key n w last known low high next =
        let same : w ≡ v = cc (r.holds key n k w known (omega arith) high, here) in
        let there : lookup ℕ_discrete key s.result ≡ some (k - key, w) =
          seen.entries key ∙ ground (arith, known, low, high) in
        let fits = r.bounded key n w known in
        let succ : add_usize s.last_k 1 ≡ k =
          omega (arith, add_usize_exact s.last_k 1 (omega (arith, next, fits, high)), next) in
        let size : add_usize (k - key) 1 ≡ suc k - key =
          omega (arith, add_usize_exact (k - key) 1 (omega (arith, fits, high)), low) in
        let guard : (eq dec w v && k == add_usize s.last_k 1) ≡ true =
          rw (succ, if_pos (dec w v) same true false) (ground arith) in
        subst (HasSeen f runs r (suc k)) (sym (joined key (k - key) w last there guard)) (record {
          entries = λ q. elim (ℕ_discrete q key) [
            | yes p ↦
                lookup-insert_at q key (add_usize (k - key) 1, w) s.result p
                ∙ ground (arith, size, ap runs p ∙ known, p, low, high)
            | no p ↦
                lookup-insert_ne ℕ_discrete key q (add_usize (k - key) 1, w) s.result p
                ∙ seen.entries q
                ∙ cut_other q key n (known ∙ ap (λ x. some (n, x)) same) (omega arith) high p
          ];
          last = inr (
            key,
            n,
            w,
            last,
            known,
            omega arith,
            high,
            omega arith,
            λ a l l'. absurd (omega arith),
          );
        })

    -- The state with a new entry.
    abbrev started : Coalescing V
    started = record {
      result = insert ℕ_discrete k (1, v) s.result;
      last_entry = some k;
      last_k = k;
    }

    HasSeen-started : (n : ℕ) → runs k ≡ some (n, v) → HasSeen f runs r (suc k) started
    HasSeen-started n known =
        let pos = r.nonempty k n v known in
        record {
          entries = λ q. elim (ℕ_discrete q k) [
            | yes p ↦
                lookup-insert_at q k (1, v) s.result p ∙ ground (arith, ap runs p ∙ known, p, pos)
            | no p ↦
                lookup-insert_ne ℕ_discrete k q (1, v) s.result p
                ∙ seen.entries q
                ∙ cut_other q k n known (omega arith) (omega arith) p
          ];
          last = inr (
            k,
            n,
            v,
            refl,
            known,
            omega arith,
            omega arith,
            omega arith,
            λ a l l'. absurd (omega arith),
          );
        }

    starts_first : s.last_entry ≡ none → coalesce_one dec k v s ≡ started
    unfolding coalesce_one
    starts_first last = simp (last, coalesce_one)

    starts_after :
        (key size : ℕ) (w : V)
        → s.last_entry ≡ some key
        → lookup ℕ_discrete key s.result ≡ some (size, w)
        → (eq dec w v && k == add_usize s.last_k 1) ≡ false
        → coalesce_one dec k v s ≡ started
    unfolding coalesce_one
    starts_after key size w last there guard = simp (last, there, guard, coalesce_one)

    -- A run starts at the address.
    starts : (n : ℕ) → runs k ≡ some (n, v) → HasSeen f runs r (suc k) (coalesce_one dec k v s)
    starts n known = elim seen.last [
      | inl (last, _) ↦
          subst (HasSeen f runs r (suc k)) (sym (starts_first last)) (HasSeen-started n known)
      | inr (key, m, w, last, before, low, high, below, _) ↦
          let there : lookup ℕ_discrete key s.result ≡ some (min m (k - key), w) =
            seen.entries key ∙ ground (arith, before, low, below) in
          let succ : add_usize s.last_k 1 ≡ suc s.last_k =
            omega
              (arith, add_usize_exact s.last_k 1 (omega (arith, r.bounded key m w before, high))) in
          let guard : (eq dec w v && k == add_usize s.last_k 1) ≡ false =
            rw succ (elim (ℕ_discrete k (suc s.last_k)) [
              | yes p ↦
                  let ends : key + m ≡ k = elim (dec_lt k (key + m)) [
                    | yes more ↦ absurd (
                        omega (
                          arith,
                          r.apart key k m n k w v before known (omega (arith, low, below)) more
                              (omega arith) (omega (arith, r.nonempty k n v known)),
                          low,
                          below,
                        ))
                    | no end ↦ omega (arith, end, high, p)
                  ] in
                  let ne : w ≢ v = r.changes key m n w v before (ap runs ends ∙ known) in
                  rw (if_neg (dec w v) ne true false) refl
              | no p ↦ ground (arith, p)
            ]) in
          subst (HasSeen f runs r (suc k))
            (sym (starts_after key (min m (k - key)) w last there guard)) (HasSeen-started n known)
    ]

    -- One round, at the next address that holds something.
    pub HasSeen-coalesce_one : HasSeen f runs r (suc k) (coalesce_one dec k v s)
    HasSeen-coalesce_one =
        let (k0, n0, known, low, high) = r.held k v here in
        elim (ℕ_discrete k0 k) [
          | yes p ↦ starts n0 (ap runs (sym p) ∙ known)
          | no p ↦
              let before : f (k - 1) ≡ some v =
                r.holds k0 n0 (k - 1) v known (omega (arith, p, low)) (omega (arith, high)) in
              elim seen.last [
                | inl (_, free) ↦ absurd (cc (before, free (k - 1) (omega (arith, p, low))))
                | inr (key, n, w, last, other, from, to, below, free) ↦
                    let next : suc s.last_k ≡ k = elim (dec_lt s.last_k (k - 1)) [
                      | yes skipped ↦
                          absurd (cc (before, free (k - 1) skipped (omega (arith, p, low))))
                      | no q ↦ omega (arith, q, below)
                    ] in
                    let same : key ≡ k0 =
                      r.apart key k0 n n0 (k - 1) w v other known (omega (arith, from, next))
                        (omega (arith, to, next)) (omega (arith, p, low)) (omega (arith, high)) in
                    joins key n0 v last (ap runs same ∙ known) (omega (arith, same, p, low))
                      (omega (arith, same, high)) next
              ]
        ]
