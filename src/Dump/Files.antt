-- ===== src/Dump/Files.antt =====
-- `write_lines` of memapi/src/memorytracking.rs where no file operation fails.
use mathlib.Core.List.{append_assoc, append-nil}
use filprofiler.Base.{
  ℕ, ◌≡◌, ◌≢◌, ◌∙◌, ap, true, List, [], ◌∷◌, ◌++◌, map, some, lookup, Outcome, done, All,
  Option-cases, inl, inr, refl, sym, subst,
}
use filprofiler.HashMap.{insert, lookup-insert_self}
use filprofiler.Text.Frames.{split, split-append, Lacks}
use filprofiler.Dump.{
  Path-discrete, directory, file, Disk, next_fault, create, content, append, write_all, write_each,
  write_lines,
}

-- The lines, each with a newline behind it.
abbrev pub all_lines : List (List ℕ) → List ℕ
all_lines [] = []
all_lines (l ∷ ls) = l ++ b'\n' ∷ all_lines ls

split-all_lines :
    (ls : List (List ℕ)) → All (Lacks b'\n') ls → split b'\n' (all_lines ls) ≡ ls ++ [] ∷ []
unfolding split
split-all_lines [] h = refl
split-all_lines (l ∷ ls) h =
    split-append b'\n' l (all_lines ls) h.0 ∙ ap (◌∷◌ l) (split-all_lines ls h.1)

pub content-insert :
    (d : Disk) (path bytes : List ℕ)
    → content (record d { entries = insert Path-discrete path (file bytes) d.entries }) path
      ≡ some bytes
unfolding content
content-insert d path bytes =
    rw (lookup-insert_self Path-discrete path (file bytes) d.entries, content) refl

write_all_healthy :
    (d : Disk) (path bytes : List ℕ)
    → d.faults ≡ []
    → write_all d path bytes ≡ (append d path bytes, true)
unfolding write_all next_fault
write_all_healthy d path bytes e =
    subst
      (λ fs.
        write_all (record d { faults = fs }) path bytes
        ≡ (append (record d { faults = fs }) path bytes, true))
      (sym e) refl

pub create_healthy :
    (d : Disk) (path : List ℕ)
    → d.faults ≡ []
    → lookup Path-discrete path d.entries ≢ some directory
    → create d path ≡ (record d { entries = insert Path-discrete path (file []) d.entries }, true)
unfolding create next_fault
create_healthy d path healthy ne =
    subst
      (λ fs.
        create (record d { faults = fs }) path
        ≡ (record d { faults = fs; entries = insert Path-discrete path (file []) d.entries }, true))
      (sym healthy)
      (elim (Option-cases (lookup Path-discrete path d.entries)) [
        | inl e ↦ rw (e, create) refl
        | inr (directory, e) ↦ absurd (ne e)
        | inr (file _, e) ↦ rw (e, create) refl
      ])

append_there :
    (d : Disk) (path bytes old : List ℕ)
    → content d path ≡ some old
    → append d path bytes
      ≡ record d { entries = insert Path-discrete path (file (old ++ bytes)) d.entries }
unfolding append
append_there d path bytes old e = rw (e, append) refl

-- A write to a file where nothing fails.
pub write_all-content :
    (d : Disk) (path bytes old : List ℕ)
    → d.faults ≡ []
    → content d path ≡ some old
    → ((write_all d path bytes).1 ≡ true)
      × ((write_all d path bytes).0.faults ≡ [])
      × (content (write_all d path bytes).0 path ≡ some (old ++ bytes))
write_all-content d path bytes old healthy there =
    rw (write_all_healthy d path bytes healthy, append_there d path bytes old there)
      (refl, healthy, content-insert d path (old ++ bytes))

-- The items are formatted as the lines, one by one.
abbrev pub FormatsTo : {A : Type 0} → (A → Outcome (List ℕ)) → List A → List (List ℕ) → Type 0
FormatsTo format [] [] = Unit {0}
FormatsTo format [] (l ∷ ls) = ⊥
FormatsTo format (x ∷ xs) [] = ⊥
FormatsTo format (x ∷ xs) (l ∷ ls) = (format x ≡ done l) × FormatsTo format xs ls

pub FormatsTo-map :
    {A : Type 0} (format : A → Outcome (List ℕ)) (line : A → List ℕ) (items : List A)
    → All (λ x. format x ≡ done (line x)) items
    → FormatsTo format items (map line items)
FormatsTo-map format line [] h = tt
FormatsTo-map format line (x ∷ xs) h = (h.0, FormatsTo-map format line xs h.1)

module _ {A : Type 0} (format : A → Outcome (List ℕ)) (path : List ℕ) where
  write_each-content :
      (d : Disk) (items : List A) (lines : List (List ℕ)) (old : List ℕ)
      → FormatsTo format items lines
      → d.faults ≡ []
      → content d path ≡ some old
      → (d' : Disk) × (write_each format d path items ≡ done (d', true))
        × (d'.faults ≡ [])
        × (content d' path ≡ some (old ++ all_lines lines))
  unfolding write_each
  write_each-content d [] [] old h healthy there =
      (d, refl, healthy, there ∙ ap some (sym (append-nil old)))
  write_each-content d [] (l ∷ ls) old h healthy there = elim h [ ]
  write_each-content d (x ∷ rest) [] old h healthy there = elim h [ ]
  write_each-content d (x ∷ rest) (l ∷ ls) old h healthy there =
      let (ok1, healthy1, there1) = write_all-content d path l old healthy there in
      let d1 = (write_all d path l).0 in
      let (ok2, healthy2, there2) =
        write_all-content d1 path (b'\n' ∷ []) (old ++ l) healthy1 there1 in
      let d2 = (write_all d1 path (b'\n' ∷ [])).0 in
      let (d', ran, quiet, final) = write_each-content d2 rest ls _ h.1 healthy2 there2 in
      (d', rw (h.0, ok1, ok2, ran) refl, quiet, final ∙ ap some joined)
    where
      joined : old ++ l ++ b'\n' ∷ [] ++ all_lines ls ≡ old ++ (l ++ b'\n' ∷ all_lines ls)
      joined =
          append_assoc (old ++ l) (b'\n' ∷ []) (all_lines ls)
          ∙ append_assoc old l (b'\n' ∷ all_lines ls)

  pub write_lines-content :
      (d : Disk) (items : List A) (lines : List (List ℕ))
      → FormatsTo format items lines
      → d.faults ≡ []
      → lookup Path-discrete path d.entries ≢ some directory
      → (d' : Disk) × (write_lines format d path items ≡ done (d', true))
        × (d'.faults ≡ [])
        × (content d' path ≡ some (all_lines lines))
  unfolding write_lines
  write_lines-content d items lines h healthy no_directory =
      let d1 = record d { entries = insert Path-discrete path (file []) d.entries } in
      let (d', ran, quiet, final) =
        write_each-content d1 items lines [] h healthy (content-insert d path []) in
      (d', rw (create_healthy d path healthy no_directory, ran) refl, quiet, final)

  -- When no file operation fails, the path is no directory, and each item is formatted as a line
  -- without a newline, `write_lines` succeeds, and the file's bytes cut at the newlines are the
  -- lines in order, with an empty rest.
  pub write_lines-roundtrip :
      (line : A → List ℕ) (d : Disk) (items : List A)
      → All (λ x. format x ≡ done (line x)) items
      → All (Lacks b'\n') (map line items)
      → d.faults ≡ []
      → lookup Path-discrete path d.entries ≢ some directory
      → (d' : Disk) × (bytes : List ℕ) × (write_lines format d path items ≡ done (d', true))
        × (content d' path ≡ some bytes)
        × (split b'\n' bytes ≡ map line items ++ [] ∷ [])
  write_lines-roundtrip line d items h plain healthy no_directory =
      let (d', ran, _, final) =
        write_lines-content d items (map line items) (FormatsTo-map format line items h) healthy
          no_directory in
      (d', all_lines (map line items), ran, final, split-all_lines (map line items) plain)
