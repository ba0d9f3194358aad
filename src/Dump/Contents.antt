-- ===== src/Dump/Contents.antt =====
-- What `dump_to_flamegraph` of memapi/src/memorytracking.rs writes where no file operation fails.
pub mod Holds
pub mod Messages
use filprofiler.Base.{
  ℕ, ◌+◌, ◌≡◌, ◌≢◌, ◌∙◌, Bool, true, false, Bool-cases, List, [], ◌∷◌, ◌++◌, Option, none, some,
  lookup, length, Outcome, done, length-append, inl, inr, refl, subst, ap, sym, arith,
}
use filprofiler.HashMap.{HashMap, insert}
use filprofiler.Interner.{get_reverse_map}
use filprofiler.Tracker.{AllocationTracker, check_if_new_peak}
use filprofiler.Tracker.Accounting.{IsAccounted, check_if_new_peak-IsAccounted}
use filprofiler.Text.{Memory, text}
use filprofiler.Report.{combine_callstacks, to_line, map_lines, to_lines}
use filprofiler.Report.Names.{combine_callstacks-KeysBelow}
use filprofiler.Dump.{
  Path-discrete, Entry, directory, file, Disk, preparing, say, create, content, write_all,
  write_lines, Options, join_path, graph_options, write_flamegraph, dump_graph, dump_to_flamegraph,
}
use filprofiler.Dump.Errors.{
  ChangesOnly, IsFormatted, create-ChangesOnly, write_all-ChangesOnly, write_lines-Writes,
  to_line-IsFormatted, prepare_there, dump_graph-ChangesOnly,
}
use filprofiler.Dump.Graphs.{plain_graph, reversed_graph}
use filprofiler.Dump.Files.{
  all_lines, FormatsTo, write_all-content, create_healthy, content-insert, write_lines-content,
}

-- Files in a directory with names of different lengths are different.
length-join_path :
    (path a b : List ℕ)
    → length (join_path path a) + length b ≡ length (join_path path b) + length a
unfolding join_path
length-join_path [] a b = omega arith
length-join_path (c ∷ []) a b = ground arith
length-join_path (c ∷ e ∷ path) a b = omega (arith, length-join_path (e ∷ path) a b)

pub join_path_ne : (path a b : List ℕ) → length a ≢ length b → join_path path a ≢ join_path path b
join_path_ne path a b h e = h (omega (arith, length-join_path path a b, ap length e))

-- The outputs of one dump are different files.
outputs_ne :
    (path base a b : List ℕ)
    → length a ≢ length b
    → join_path path (base ++ a) ≢ join_path path (base ++ b)
outputs_ne path base a b ne =
    join_path_ne path (base ++ a) (base ++ b)
      (λ e. ne (omega (arith, e, length-append base a, length-append base b)))

module _ (path base : List ℕ) where
  abbrev raw_of : List ℕ
  raw_of = join_path path (base ++ text ".prof")

  abbrev svg_of : List ℕ
  svg_of = join_path path (base ++ text ".svg")

  abbrev reversed_of : List ℕ
  reversed_of = join_path path (base ++ text "-reversed.svg")

  raw_ne_svg : raw_of ≢ svg_of
  raw_ne_svg = outputs_ne path base (text ".prof") (text ".svg") (omega arith)

  raw_ne_reversed : raw_of ≢ reversed_of
  raw_ne_reversed = outputs_ne path base (text ".prof") (text "-reversed.svg") (omega arith)

  svg_ne_reversed : svg_of ≢ reversed_of
  svg_ne_reversed = outputs_ne path base (text ".svg") (text "-reversed.svg") (omega arith)

-- What other operations leave at a path can be read there as before.
content-ChangesOnly :
    (path q : List ℕ) (d d' : Disk) → ChangesOnly path d d' → q ≢ path → content d' q ≡ content d q
unfolding content
content-ChangesOnly path q d d' only ne =
    ap
      (λ (o : Option Entry). elim o [
        | none ↦ none
        | some directory ↦ none
        | some (file bytes) ↦ some bytes
      ])
      (only q ne)

FormatsTo-exists :
    {A : Type 0} (format : A → Outcome (List ℕ)) (items : List A)
    → IsFormatted format items
    → (lines : List (List ℕ)) × FormatsTo format items lines
FormatsTo-exists format [] h = ([], tt)
FormatsTo-exists format (x ∷ items) ((line, e), h) =
    let (lines, f) = FormatsTo-exists format items h in (line ∷ lines, (e, f))

-- `write_lines` where nothing fails, with what it leaves alone.
write_lines-all :
    {A : Type 0} (format : A → Outcome (List ℕ)) (path : List ℕ) (d : Disk) (items : List A)
    → IsFormatted format items
    → d.faults ≡ []
    → lookup Path-discrete path d.entries ≢ some directory
    → (d' : Disk) × (lines : List (List ℕ)) × FormatsTo format items lines
      × (write_lines format d path items ≡ done (d', true))
      × (d'.faults ≡ [])
      × (content d' path ≡ some (all_lines lines))
      × ChangesOnly path d d'
write_lines-all format path d items formatted healthy free =
    let (lines, each) = FormatsTo-exists format items formatted in
    let (d', ran, quiet, final) = write_lines-content format path d items lines each healthy free in
    let (r, ran', only) = write_lines-Writes format path d items formatted in
    let same : r ≡ (d', true) = cc in
    (d', lines, each, ran, quiet, final, subst (λ x. ChangesOnly path d x.0) same only)

map_lines-FormatsTo :
    (memory : Memory) (t : AllocationTracker) (post : Bool) (es : HashMap ℕ ℕ)
    (lines : List (List ℕ))
    → FormatsTo (to_line memory (get_reverse_map t.interner) post) es lines
    → map_lines memory (get_reverse_map t.interner) post es ≡ done lines
unfolding map_lines
map_lines-FormatsTo memory t post [] [] h = refl
map_lines-FormatsTo memory t post [] (l ∷ ls) h = elim h [ ]
map_lines-FormatsTo memory t post (e ∷ es) [] h = elim h [ ]
map_lines-FormatsTo memory t post (e ∷ es) (l ∷ ls) h =
    rw (h.0, map_lines-FormatsTo memory t post es ls h.1) refl

module _ (from_files : Options → Option (List ℕ) → List ℕ × Bool) (mib_text : ℕ → List ℕ) where
  -- A graph holds what inferno makes of the lines, and leaves the lines as they are.
  dump_graph-content :
      (d : Disk) (raw svg lines : List ℕ) (peak_bytes : ℕ) (reversed : Bool) (title : List ℕ)
      (post : Bool)
      → d.faults ≡ []
      → raw ≢ svg
      → content d raw ≡ some lines
      → lookup Path-discrete svg d.entries ≢ some directory
      → let d' = dump_graph from_files mib_text d raw svg peak_bytes reversed title post in
        (d'.faults ≡ [])
        × (content d' raw ≡ some lines)
        × (content d' svg
            ≡ some
                (from_files (graph_options mib_text peak_bytes reversed title post) (some lines)).0)
  unfolding dump_graph write_flamegraph content
  dump_graph-content d raw svg lines peak_bytes reversed title post healthy ne there free =
      let d1 = record d { entries = insert Path-discrete svg (file []) d.entries } in
      let made : create d svg ≡ (d1, true) = create_healthy d svg healthy free in
      let readable : content d1 raw ≡ some lines =
        subst (λ x. content x.0 raw ≡ some lines) made
          (content-ChangesOnly svg raw d (create d svg).0 (create-ChangesOnly d svg) ne ∙ there) in
      let drawn = from_files (graph_options mib_text peak_bytes reversed title post) (some lines) in
      let (ok, quiet, final) =
        write_all-content d1 svg drawn.0 [] healthy (content-insert d svg []) in
      let kept =
        content-ChangesOnly svg raw d1 (write_all d1 svg drawn.0).0
          (write_all-ChangesOnly d1 svg drawn.0) ne
        ∙ readable in
      elim (Bool-cases drawn.1) [
        | inl e ↦ rw (made, readable, ok, e) (quiet, kept, final)
        | inr e ↦ rw (made, readable, ok, e) (quiet, kept, final)
      ]

  -- When the books are in order, the output path is a directory, none of the three files is one,
  -- and no file operation fails, a dump returns with the peak checked; the file of lines then holds
  -- the lines of `to_lines`, each with a newline behind it, and the two graphs hold what inferno
  -- makes of these bytes, the one with the stacks as they are, the other with the stacks reversed
  -- and this said in its title, both with the bytes of the recorded peak in MiB at the end of the
  -- title, and with a subtitle exactly when the graph is to be post-processed.
  pub dump_to_flamegraph-content :
      (memory : Memory) (d : Disk) (t : AllocationTracker) (path : List ℕ) (peak : Bool)
      (base_filename title : List ℕ) (post : Bool)
      → IsAccounted t
      → lookup Path-discrete path d.entries ≡ some directory
      → d.faults ≡ []
      → lookup Path-discrete (join_path path (base_filename ++ text ".prof")) d.entries
        ≢ some directory
      → lookup Path-discrete (join_path path (base_filename ++ text ".svg")) d.entries
        ≢ some directory
      → lookup Path-discrete (join_path path (base_filename ++ text "-reversed.svg")) d.entries
        ≢ some directory
      → let raw = join_path path (base_filename ++ text ".prof") in
        let bytes = (check_if_new_peak t).peak_allocated_bytes in
        (d' : Disk) × (lines : List (List ℕ)) × (dump_to_flamegraph from_files mib_text memory d t
            path peak base_filename title post
          ≡ done (d', check_if_new_peak t))
        × (to_lines memory t peak post ≡ done (check_if_new_peak t, lines))
        × (content d' raw ≡ some (all_lines lines))
        × (content d' (join_path path (base_filename ++ text ".svg"))
            ≡ some (from_files (plain_graph mib_text bytes title post) (some (all_lines lines))).0)
        × (content d' (join_path path (base_filename ++ text "-reversed.svg"))
            ≡ some
                (from_files (reversed_graph mib_text bytes title post) (some (all_lines lines))).0)
  unfolding dump_to_flamegraph combine_callstacks to_lines graph_options
  dump_to_flamegraph-content memory d t path peak base_filename title post a there healthy f1 f2
        f3 =
      let u = check_if_new_peak t in
      let c = check_if_new_peak-IsAccounted t a in
      let raw = raw_of path base_filename in
      let svg = svg_of path base_filename in
      let svg2 = reversed_of path base_filename in
      let es = (combine_callstacks t peak).1 in
      let d0 = say (preparing path) d in
      let (d1, lines, each, ran, quiet1, there1, only1) =
        write_lines-all (to_line memory (get_reverse_map u.interner) post) raw d0 es
          (to_line-IsFormatted memory u.interner post es c.numbered
            (combine_callstacks-KeysBelow t peak a))
          healthy f1 in
      let p = u.peak_allocated_bytes in
      let d2 = dump_graph from_files mib_text d1 raw svg p false title post in
      let only2 = dump_graph-ChangesOnly from_files mib_text d1 raw svg p false title post in
      let (quiet2, there2, drawn2) =
        dump_graph-content d1 raw svg (all_lines lines) p false title post quiet1
          (raw_ne_svg path base_filename) there1
          (λ e. f2 (sym (only1 svg (λ q. raw_ne_svg path base_filename (sym q))) ∙ e)) in
      let d3 = dump_graph from_files mib_text d2 raw svg2 p true title post in
      let (_, there3, drawn3) =
        dump_graph-content d2 raw svg2 (all_lines lines) p true title post quiet2
          (raw_ne_reversed path base_filename) there2
          (λ e. f3 (
            sym (only1 svg2 (λ q. raw_ne_reversed path base_filename (sym q)))
            ∙ sym (only2 svg2 (λ q. svg_ne_reversed path base_filename (sym q)))
            ∙ e)) in
      (
        d3,
        lines,
        rw (prepare_there d0 path there, ran) refl,
        rw (map_lines-FormatsTo memory u post es lines each) refl,
        there3,
        content-ChangesOnly svg2 svg d2 d3
              (dump_graph-ChangesOnly from_files mib_text d2 raw svg2 p true title post)
              (svg_ne_reversed path base_filename)
            ∙ drawn2,
        drawn3,
      )
