-- ===== src/Dump/Contents/Holds.antt =====
-- Writing to a file in memapi/src/memorytracking.rs, whatever file operations fail.
use mathlib.Core.List.{append_assoc, append-nil}
use filprofiler.Base.{
  ℕ, ◌≡◌, ◌∙◌, Bool, true, false, Bool-cases, Option-cases, List, [], ◌∷◌, ◌++◌, some, Outcome,
  done, inl, inr, refl, ap, sym, arith,
}
use filprofiler.HashMap.{lookup-insert_self}
use filprofiler.Dump.{
  Path-discrete, file, Disk, next_fault, create, content, append, write_all, write_each,
  write_lines, take,
}
use filprofiler.Dump.Files.{all_lines, FormatsTo, content-insert}

-- An operation on a file: it says nothing, and when it succeeds the file holds the bytes.
pub record Holds (path : List ℕ) (d : Disk) (bytes : List ℕ) (r : Disk × Bool) : Type 0 where
  pub silent : r.0.messages ≡ d.messages
  pub complete : r.1 ≡ true → content r.0 path ≡ some bytes

pub create-Holds : (d : Disk) (path : List ℕ) → Holds path d [] (create d path)
unfolding create next_fault content
create-Holds d path = record {
  silent = ground arith;
  complete = λ e. ground (arith, e, lookup-insert_self Path-discrete path (file []) d.entries);
}

append-messages : (d : Disk) (path bytes : List ℕ) → (append d path bytes).messages ≡ d.messages
unfolding append
append-messages d path bytes = ground arith

content-append :
    (d : Disk) (path old bytes : List ℕ)
    → content d path ≡ some old
    → content (append d path bytes) path ≡ some (old ++ bytes)
unfolding append
content-append d path old bytes there = rw (there, append) (content-insert d path (old ++ bytes))

next_fault_lem :
    (d : Disk) (path : List ℕ)
    → (content (next_fault d).0 path ≡ content d path) × ((next_fault d).0.messages ≡ d.messages)
unfolding next_fault content
next_fault_lem d path = (ground arith, ground arith)

pub write_all-Holds :
    (d : Disk) (path old bytes : List ℕ)
    → content d path ≡ some old
    → Holds path d (old ++ bytes) (write_all d path bytes)
unfolding write_all
write_all-Holds d path old bytes there =
    let d1 = (next_fault d).0 in
    let (read, quiet) = next_fault_lem d path in
    elim (Option-cases (next_fault d).1) [
      | inl e ↦
          rw (e, write_all)
            (record {
              silent = append-messages d1 path bytes ∙ quiet;
              complete = λ _. content-append d1 path old bytes (read ∙ there);
            })
      | inr (k, e) ↦
          rw (e, write_all)
            (record {
              silent = append-messages d1 path (take k bytes) ∙ quiet;
              complete = λ f. absurd (cc f);
            })
    ]

module _ {A : Type 0} (format : A → Outcome (List ℕ)) (path : List ℕ) where
  write_each-Holds :
      (d : Disk) (items : List A) (lines : List (List ℕ)) (old : List ℕ)
      → FormatsTo format items lines
      → content d path ≡ some old
      → (r : Disk × Bool) × (write_each format d path items ≡ done r)
        × Holds path d (old ++ all_lines lines) r
  unfolding write_each
  write_each-Holds d [] [] old h there = (
    (d, true),
    refl,
    record { silent = refl; complete = λ _. there ∙ ap some (sym (append-nil old)) },
  )
  write_each-Holds d [] (l ∷ ls) old h there = elim h [ ]
  write_each-Holds d (x ∷ rest) [] old h there = elim h [ ]
  write_each-Holds d (x ∷ rest) (l ∷ ls) old h there =
      let d1 = (write_all d path l).0 in
      let d2 = (write_all d1 path (b'\n' ∷ [])).0 in
      let first = write_all-Holds d path old l there in
      elim (Bool-cases (write_all d path l).1) [
        | inl e ↦
            let second = write_all-Holds d1 path (old ++ l) (b'\n' ∷ []) (first.complete e) in
            elim (Bool-cases (write_all d1 path (b'\n' ∷ [])).1) [
              | inl f ↦
                  let (r, ran, held) =
                    write_each-Holds d2 rest ls (old ++ l ++ b'\n' ∷ []) h.1 (second.complete f) in
                  (
                    r,
                    rw (h.0, e, f, ran) refl,
                    record {
                      silent = held.silent ∙ second.silent ∙ first.silent;
                      complete = λ g. held.complete g ∙ ap some joined;
                    },
                  )
              | inr f ↦ (
                (d2, false),
                rw (h.0, e, f) refl,
                record { silent = second.silent ∙ first.silent; complete = λ g. absurd (cc g) },
              )
            ]
        | inr e ↦ (
          (d1, false),
          rw (h.0, e) refl,
          record { silent = first.silent; complete = λ g. absurd (cc g) },
        )
      ]
    where
      joined : old ++ l ++ b'\n' ∷ [] ++ all_lines ls ≡ old ++ (l ++ b'\n' ∷ all_lines ls)
      joined =
          append_assoc (old ++ l) (b'\n' ∷ []) (all_lines ls)
          ∙ append_assoc old l (b'\n' ∷ all_lines ls)

  pub write_lines-Holds :
      (d : Disk) (items : List A) (lines : List (List ℕ))
      → FormatsTo format items lines
      → (r : Disk × Bool) × (write_lines format d path items ≡ done r)
        × Holds path d (all_lines lines) r
  unfolding write_lines
  write_lines-Holds d items lines h =
      let d1 = (create d path).0 in
      let made = create-Holds d path in
      elim (Bool-cases (create d path).1) [
        | inl e ↦
            let (r, ran, held) = write_each-Holds d1 items lines [] h (made.complete e) in
            (
              r,
              rw (e, ran) refl,
              record { silent = held.silent ∙ made.silent; complete = held.complete },
            )
        | inr e ↦
            ((d1, false), rw e refl, record { silent = made.silent; complete = λ g. absurd (cc g) })
      ]
