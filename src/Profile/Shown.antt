-- ===== src/Profile/Shown.antt =====
-- The lines of the peak (`to_lines(true)` of memapi/src/memorytracking.rs) against the profile.
use filprofiler.Base.{
  ℕ, suc, ◌<◌, ◌≡◌, ◌⊎◌, inl, inr, ltb, Bool, Bool-cases, true, List, [], ◌∷◌, All, Option-cases,
  some, lookup, sym, ap, subst, ◌∙◌, arith, done, ℕ_discrete,
}
use filprofiler.Word.{as_u32}
use filprofiler.HashMap.{HashMap, IsUnique, insert-IsUnique}
use filprofiler.Callstack.{Callstack}
use filprofiler.Interner.{CallstackInterner}
use filprofiler.Interner.Numbering.{IsNumbered, id_of, lookup_injective}
use filprofiler.Interner.Extension.{by_name}
use filprofiler.Text.{Memory, as_string}
use filprofiler.Tracker.{AllocationTracker, check_if_new_peak}
use filprofiler.Tracker.Peak.{same_interner}
use filprofiler.Tracker.Accounting.{IsAccounted}
use filprofiler.Tracker.History.HighWater.{peak_usage_of}
use filprofiler.Report.{collect_peak, combine_callstacks, to_lines}
use filprofiler.Report.Peak.{combine_callstacks_peak}
use filprofiler.Report.Lines.{read_line, Shows, to_lines-Shows}
use filprofiler.Profile.{Profile, profile}

-- `P` holds of some item.
abbrev pub Any {ℓ} : {A : Type ℓ} → (A → Type 0) → List A → Type 0
Any P [] = ⊥
Any P (x ∷ xs) = P x ⊎ Any P xs

-- A line that reads as the text of a callstack and the bytes that it had at the peak.
abbrev pub IsLineOf : Memory → Bool → Profile → Callstack → List ℕ → Type 0
IsLineOf memory post p cs l =
    (0 < p.peak_usage cs) × (read_line l ≡ some (as_string memory cs post, p.peak_usage cs))

pub collect_peak-IsUnique :
    (i : ℕ) (l : List ℕ) (m : HashMap ℕ ℕ)
    → IsUnique ℕ_discrete m
    → IsUnique ℕ_discrete (collect_peak i l m)
unfolding collect_peak
collect_peak-IsUnique i [] m u = u
collect_peak-IsUnique i (n ∷ l) m u =
    collect_peak-IsUnique (suc i) l _ (elim (Bool-cases (ltb 0 n)) [
      | inl e ↦ rw e (insert-IsUnique ℕ_discrete (as_u32 i) n m u)
      | inr e ↦ rw e u
    ])

-- What holds of all that `lookup` finds holds of the entries of a map with distinct keys.
All-found :
    (P : ℕ × ℕ → Type 0) (m : HashMap ℕ ℕ)
    → IsUnique ℕ_discrete m
    → ((k n : ℕ) → lookup ℕ_discrete k m ≡ some n → P (k, n))
    → All P m
unfolding lookup
All-found P [] u h = tt
All-found P ((k, n) ∷ m) u h =
    (h k n (ground arith), All-found P m u.1 (λ k' n' e. h k' n' (ground (arith, e, u.0))))

Any-map {ℓ} :
    {A : Type ℓ} (P Q : A → Type 0) (l : List A) → ((x : A) → P x → Q x) → Any P l → Any Q l
Any-map P Q [] f h = h
Any-map P Q (x ∷ l) f (inl h) = inl (f x h)
Any-map P Q (x ∷ l) f (inr h) = inr (Any-map P Q l f h)

module _ (t : AllocationTracker) (a : IsAccounted t) where
  -- The entries of the report of the peak, by callstack.
  peak_entry :
      (k n : ℕ)
      → lookup ℕ_discrete k (combine_callstacks t true).1 ≡ some n
      → (cs : Callstack) → id_of t.interner cs ≡ some k
      → (0 < by_name t.interner (peak_usage_of t) cs)
        × (by_name t.interner (peak_usage_of t) cs ≡ n)
  peak_entry k n e cs named = ground (arith, named, e, combine_callstacks_peak t k a)

  entry_of_peak :
      (cs : Callstack)
      → 0 < by_name t.interner (peak_usage_of t) cs
      → (k : ℕ) × (id_of t.interner cs ≡ some k)
        × (lookup ℕ_discrete k (combine_callstacks t true).1
            ≡ some (by_name t.interner (peak_usage_of t) cs))
  entry_of_peak cs h = elim (Option-cases (id_of t.interner cs)) [
    | inl unknown ↦ absurd (ground (arith, unknown, h))
    | inr (k, named) ↦ (k, named, ground (arith, named, h, combine_callstacks_peak t k a))
  ]

module _ (memory : Memory) (i : CallstackInterner) (post : Bool) where
  lines_of_entries :
      (p : Profile) (ls : List (List ℕ)) (es : HashMap ℕ ℕ)
      → Shows memory i post ls es
      → All
          (λ e.
            (cs : Callstack)
            → id_of i cs ≡ some e.0
            → (0 < p.peak_usage cs) × (p.peak_usage cs ≡ e.1))
          es
      → All (λ l. (cs : Callstack) × IsLineOf memory post p cs l) ls
  lines_of_entries p [] [] s h = tt
  lines_of_entries p [] (e ∷ es) s h = elim s [ ]
  lines_of_entries p (l ∷ ls) [] s h = elim s [ ]
  lines_of_entries p (l ∷ ls) (e ∷ es) ((cs, named, read), s) (here, h) =
      let (positive, bytes) = here cs named in
      ((cs, (positive, rw bytes read)), lines_of_entries p ls es s h)

  line_of_entry :
      (cs : Callstack) (id n : ℕ) (ls : List (List ℕ)) (es : HashMap ℕ ℕ)
      → IsNumbered i
      → Shows memory i post ls es
      → id_of i cs ≡ some id
      → lookup ℕ_discrete id es ≡ some n
      → Any (λ l. read_line l ≡ some (as_string memory cs post, n)) ls
  unfolding lookup
  line_of_entry cs id n [] [] v s named there = absurd (cc)
  line_of_entry cs id n [] (e ∷ es) v s named there = elim s [ ]
  line_of_entry cs id n (l ∷ ls) [] v s named there = elim s [ ]
  line_of_entry cs id n (l ∷ ls) ((k, m) ∷ es) v ((cs', named', read), s) named there =
      elim (ℕ_discrete id k) [
        | yes p ↦
            let same : cs' ≡ cs =
              lookup_injective id cs' cs i.callstack_to_id v.distinct (named' ∙ ap some (sym p))
                named in
            let bytes : m ≡ n = ground (arith, p, there) in inl (rw (← same, ← bytes) read)
        | no p ↦ inr (line_of_entry cs id n ls es v s named (ground (arith, p, there)))
      ]

-- The lines of the peak by callstack: each reads as an entry of the profile's peak, and no entry is
-- left out.
pub to_lines-IsLineOf :
    (memory : Memory) (t : AllocationTracker) (post : Bool)
    → IsAccounted t
    → (lines : List (List ℕ)) × (to_lines memory t true post ≡ done (check_if_new_peak t, lines))
      × All (λ l. (cs : Callstack) × IsLineOf memory post (profile t) cs l) lines
      × ((cs : Callstack)
          → 0 < (profile t).peak_usage cs
          → Any (IsLineOf memory post (profile t) cs) lines)
unfolding profile combine_callstacks
to_lines-IsLineOf memory t post a =
    let (lines, ran, shown) = to_lines-Shows memory t true post a in
    let es = (combine_callstacks t true).1 in
    let shown' : Shows memory t.interner post lines es =
      subst (λ i. Shows memory i post lines es) (same_interner t) shown in
    (
      lines,
      ran,
      lines_of_entries memory t.interner post (profile t) lines es shown' (
          All-found _ es (collect_peak-IsUnique 0 (check_if_new_peak t).peak_memory_usage [] tt)
            (peak_entry t a)),
      λ cs h.
          let (k, named, there) = entry_of_peak t a cs h in
          Any-map _ _ lines (λ l read. (h, read))
            (line_of_entry memory t.interner post cs k _ lines es a.numbered shown' named there),
    )
