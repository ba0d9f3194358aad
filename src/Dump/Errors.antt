-- ===== src/Dump/Errors.antt =====
-- Failing file operations in `dump_to_flamegraph` of memapi/src/memorytracking.rs.
use filprofiler.Base.{
  ℕ, ◌≡◌, ◌≢◌, ◌∙◌, ap, Bool, true, false, if◌then◌else◌, List, [], ◌∷◌, ◌++◌, Option, some, lookup,
  Outcome, done, All, Option-cases, Bool-cases, inl, inr, refl, arith, ℕ_discrete, ltb→lt,
}
use filprofiler.HashMap.{HashMap, lookup-insert_ne}
use filprofiler.Interner.{CallstackInterner, get_reverse_map}
use filprofiler.Interner.Numbering.{IsNumbered}
use filprofiler.Interner.Reverse.{get_reverse_map_iff}
use filprofiler.Tracker.{AllocationTracker, check_if_new_peak}
use filprofiler.Tracker.Accounting.{IsAccounted, check_if_new_peak-IsAccounted}
use filprofiler.Text.{Memory, text, decimal, as_string}
use filprofiler.Report.{combine_callstacks, to_line}
use filprofiler.Report.Names.{KeysBelow, combine_callstacks-KeysBelow}
use filprofiler.Dump.{
  Path-discrete, directory, file, Disk, preparing, raw_error, next_fault, say, take, create,
  content, append, write_all, write_each, write_lines, Options, join_path, write_flamegraph,
  dump_graph, prepare, dump_to_flamegraph,
}

-- The second disk has at every other path what the first has there.
abbrev pub ChangesOnly : List ℕ → Disk → Disk → Type 0
ChangesOnly path d d' =
    (q : List ℕ) → q ≢ path → lookup Path-discrete q d'.entries ≡ lookup Path-discrete q d.entries

pub create-ChangesOnly : (d : Disk) (path : List ℕ) → ChangesOnly path d (create d path).0
unfolding create next_fault
create-ChangesOnly d path q ne =
    ground (arith, ne, lookup-insert_ne Path-discrete path q (file []) d.entries ne)

append-ChangesOnly : (d : Disk) (path bytes : List ℕ) → ChangesOnly path d (append d path bytes)
unfolding append
append-ChangesOnly d path bytes q ne = elim (Option-cases (content d path)) [
  | inl e ↦ rw (e, append) refl
  | inr (old, e) ↦
      rw (e, append) (lookup-insert_ne Path-discrete path q (file (old ++ bytes)) d.entries ne)
]

next_fault_entries : (d : Disk) → (next_fault d).0.entries ≡ d.entries
unfolding next_fault
next_fault_entries d = ground arith

pub write_all-ChangesOnly :
    (d : Disk) (path bytes : List ℕ) → ChangesOnly path d (write_all d path bytes).0
unfolding write_all
write_all-ChangesOnly d path bytes q ne =
    let d1 = (next_fault d).0 in
    let kept = ap (lookup Path-discrete q) (next_fault_entries d) in
    elim (Option-cases (next_fault d).1) [
      | inl e ↦ rw (e, write_all) (append-ChangesOnly d1 path bytes q ne ∙ kept)
      | inr (k, e) ↦ rw (e, write_all) (append-ChangesOnly d1 path (take k bytes) q ne ∙ kept)
    ]

-- Every item is formatted without panic.
abbrev pub IsFormatted : {A : Type 0} → (A → Outcome (List ℕ)) → List A → Type 0
IsFormatted format = All (λ x. (line : List ℕ) × (format x ≡ done line))

-- The outcome of writing to a file: no panic, and no other path is touched.
abbrev Writes : List ℕ → Disk → Outcome (Disk × Bool) → Type 0
Writes path d o = (r : Disk × Bool) × (o ≡ done r) × ChangesOnly path d r.0

module _ {A : Type 0} (format : A → Outcome (List ℕ)) (path : List ℕ) where
  write_each-Writes :
      (d : Disk) (items : List A)
      → IsFormatted format items
      → Writes path d (write_each format d path items)
  unfolding write_each
  write_each-Writes d [] h = ((d, true), refl, λ q ne. refl)
  write_each-Writes d (x ∷ rest) ((line, formatted), h) =
      let d1 = (write_all d path line).0 in
      let d2 = (write_all d1 path (b'\n' ∷ [])).0 in
      let first = write_all-ChangesOnly d path line in
      let second = write_all-ChangesOnly d1 path (b'\n' ∷ []) in
      elim (Bool-cases (write_all d path line).1) [
        | inl e ↦ elim (Bool-cases (write_all d1 path (b'\n' ∷ [])).1) [
          | inl f ↦
              let (r, ran, only) = write_each-Writes d2 rest h in
              (r, rw (formatted, e, f, ran) refl, λ q ne. only q ne ∙ second q ne ∙ first q ne)
          | inr f ↦ ((d2, false), rw (formatted, e, f) refl, λ q ne. second q ne ∙ first q ne)
        ]
        | inr e ↦ ((d1, false), rw (formatted, e) refl, first)
      ]

  pub write_lines-Writes :
      (d : Disk) (items : List A)
      → IsFormatted format items
      → Writes path d (write_lines format d path items)
  unfolding write_lines
  write_lines-Writes d items h =
      let d1 = (create d path).0 in
      let made = create-ChangesOnly d path in
      elim (Bool-cases (create d path).1) [
        | inl e ↦
            let (r, ran, only) = write_each-Writes d1 items h in
            (r, rw (e, ran) refl, λ q ne. only q ne ∙ made q ne)
        | inr e ↦ ((d1, false), rw e refl, made)
      ]

pub to_line-IsFormatted :
    (memory : Memory) (i : CallstackInterner) (post : Bool) (es : HashMap ℕ ℕ)
    → IsNumbered i
    → KeysBelow i.max_id es
    → IsFormatted (to_line memory (get_reverse_map i) post) es
unfolding to_line
to_line-IsFormatted memory i post [] v h = tt
to_line-IsFormatted memory i post ((id, bytes) ∷ es) v h =
    let (cs, known) = v.dense id (ltb→lt id i.max_id h.0) in
    let named : lookup ℕ_discrete id (get_reverse_map i) ≡ some cs =
      (get_reverse_map_iff i cs id v).1 known in
    (
      (as_string memory cs post ++ (text " " ++ decimal bytes), rw (named, to_line) refl),
      to_line-IsFormatted memory i post es v h.1,
    )

pub prepare_there :
    (d : Disk) (path : List ℕ)
    → lookup Path-discrete path d.entries ≡ some directory
    → prepare d path ≡ done d
unfolding prepare
prepare_there d path e = rw (e, prepare) refl

module _ (from_files : Options → Option (List ℕ) → List ℕ × Bool) (mib_text : ℕ → List ℕ) where
  module _ (d : Disk) (raw svg : List ℕ) (peak_bytes : ℕ) (reversed : Bool) (title : List ℕ)
      (post : Bool) where
    write_flamegraph-ChangesOnly :
        ChangesOnly svg d
          (write_flamegraph from_files mib_text d raw svg peak_bytes reversed title post).0
    unfolding write_flamegraph
    write_flamegraph-ChangesOnly q ne =
        let made = create-ChangesOnly d svg q ne in
        elim (Bool-cases (create d svg).1) [
          | inl e ↦ rw e (write_all-ChangesOnly (create d svg).0 svg _ q ne ∙ made)
          | inr e ↦ rw e made
        ]

    pub dump_graph-ChangesOnly :
        ChangesOnly svg d (dump_graph from_files mib_text d raw svg peak_bytes reversed title post)
    unfolding dump_graph
    dump_graph-ChangesOnly q ne =
        let kept = write_flamegraph-ChangesOnly q ne in
        let r = write_flamegraph from_files mib_text d raw svg peak_bytes reversed title post in
        elim (Bool-cases r.1) [ inl e ↦ rw (e, dump_graph) kept | inr e ↦ rw (e, dump_graph) kept ]

  -- When the books are in order and the output path is a directory, a dump returns whatever file
  -- operations fail and whatever inferno gives, with the peak checked, and changes no path but
  -- those of the lines and of the two graphs.
  pub dump_to_flamegraph-ChangesOnly :
      (memory : Memory) (d : Disk) (t : AllocationTracker) (path : List ℕ) (peak : Bool)
      (base_filename title : List ℕ) (post : Bool)
      → IsAccounted t
      → lookup Path-discrete path d.entries ≡ some directory
      → (d' : Disk) × (dump_to_flamegraph from_files mib_text memory d t path peak base_filename
            title post
          ≡ done (d', check_if_new_peak t))
        × ((q : List ℕ)
            → q ≢ join_path path (base_filename ++ text ".prof")
            → q ≢ join_path path (base_filename ++ text ".svg")
            → q ≢ join_path path (base_filename ++ text "-reversed.svg")
            → lookup Path-discrete q d'.entries ≡ lookup Path-discrete q d.entries)
  unfolding dump_to_flamegraph combine_callstacks
  dump_to_flamegraph-ChangesOnly memory d t path peak base_filename title post a there =
      let u = check_if_new_peak t in
      let c = check_if_new_peak-IsAccounted t a in
      let raw = join_path path (base_filename ++ text ".prof") in
      let svg = join_path path (base_filename ++ text ".svg") in
      let svg2 = join_path path (base_filename ++ text "-reversed.svg") in
      let es = (combine_callstacks t peak).1 in
      let ((d1, ok), ran, only) =
        write_lines-Writes (to_line memory (get_reverse_map u.interner) post) raw
          (say (preparing path) d) es
          (to_line-IsFormatted memory u.interner post es c.numbered
            (combine_callstacks-KeysBelow t peak a)) in
      let d2 = (if ok then d1 else say raw_error d1) in
      let same : d2.entries ≡ d1.entries = ground arith in
      let d3 = dump_graph from_files mib_text d2 raw svg u.peak_allocated_bytes false title post in
      let d4 = dump_graph from_files mib_text d3 raw svg2 u.peak_allocated_bytes true title post in
      (
        d4,
        rw (prepare_there (say (preparing path) d) path there, ran) refl,
        λ q n1 n2 n3.
            dump_graph-ChangesOnly d3 raw svg2 u.peak_allocated_bytes true title post q n3
            ∙ dump_graph-ChangesOnly d2 raw svg u.peak_allocated_bytes false title post q n2
            ∙ ap (lookup Path-discrete q) same
            ∙ only q n1,
      )
