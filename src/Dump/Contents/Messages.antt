-- ===== src/Dump/Contents/Messages.antt =====
-- What `dump_to_flamegraph` of memapi/src/memorytracking.rs says, whatever file operations fail.
use filprofiler.Base.{
  ℕ, ◌≡◌, ◌≢◌, ◌∙◌, Bool, true, false, Bool-cases, if◌then◌else◌, List, [], ◌∷◌, ◌++◌, Option, some,
  lookup, done, inl, inr, refl, ap,
}
use filprofiler.Interner.{get_reverse_map}
use filprofiler.Tracker.{AllocationTracker, check_if_new_peak}
use filprofiler.Tracker.Accounting.{IsAccounted, check_if_new_peak-IsAccounted}
use filprofiler.Text.{Memory}
use filprofiler.Report.{combine_callstacks, to_line, to_lines}
use filprofiler.Report.Names.{combine_callstacks-KeysBelow}
use filprofiler.Dump.{
  Path-discrete, directory, Disk, Message, preparing, raw_error, wrote, svg_error, say, create,
  content, write_all, Options, graph_options, write_flamegraph, dump_graph, dump_to_flamegraph,
}
use filprofiler.Dump.Errors.{
  write_all-ChangesOnly, to_line-IsFormatted, prepare_there, dump_graph-ChangesOnly,
}
use filprofiler.Dump.Contents.{
  raw_of, svg_of, reversed_of, raw_ne_svg, raw_ne_reversed, svg_ne_reversed, content-ChangesOnly,
  FormatsTo-exists, map_lines-FormatsTo,
}
use filprofiler.Dump.Graphs.{plain_graph, reversed_graph}
use filprofiler.Dump.Files.{all_lines}
use filprofiler.Dump.Contents.Holds.{Holds, create-Holds, write_all-Holds, write_lines-Holds}

-- What a dump says of its three files, and that what it says to be there is there: `raw_ok` where no
-- error is said of the file of lines, `svg_ok` and `reversed_ok` where a graph is said to be written.
pub record Reports (from_files : Options → Option (List ℕ) → List ℕ × Bool) (mib_text : ℕ → List ℕ)
    (path base_filename title : List ℕ) (post : Bool) (bytes : ℕ) (lines : List (List ℕ))
    (d d' : Disk) : Type 0 where
  raw_ok : Bool
  svg_ok : Bool
  reversed_ok : Bool
  pub said :
      d'.messages
      ≡ (if reversed_ok then wrote (reversed_of path base_filename) else svg_error)
        ∷ (if svg_ok then wrote (svg_of path base_filename) else svg_error)
        ∷ ((if raw_ok then [] else raw_error ∷ []) ++ preparing path ∷ d.messages)
  pub raw_complete : raw_ok ≡ true → content d' (raw_of path base_filename) ≡ some (all_lines lines)
  pub svg_complete :
      svg_ok ≡ true
      → let drawn =
          from_files
            (plain_graph mib_text bytes title post)
            (content d' (raw_of path base_filename)) in
        (content d' (svg_of path base_filename) ≡ some drawn.0) × (drawn.1 ≡ true)
  pub reversed_complete :
      reversed_ok ≡ true
      → let drawn =
          from_files
            (reversed_graph mib_text bytes title post)
            (content d' (raw_of path base_filename)) in
        (content d' (reversed_of path base_filename) ≡ some drawn.0) × (drawn.1 ≡ true)

-- The error that is said of the file of lines, and no other change.
messages_unless :
    (ok : Bool) (d : Disk) (ms : List Message)
    → d.messages ≡ ms
    → (if ok then d else say raw_error d).messages ≡ (if ok then [] else raw_error ∷ []) ++ ms
messages_unless true d ms e = e
messages_unless false d ms e = ap (◌∷◌ raw_error) e

content_unless :
    (ok : Bool) (d : Disk) (path : List ℕ)
    → content (if ok then d else say raw_error d) path ≡ content d path
unfolding content
content_unless true d path = refl
content_unless false d path = refl

module _ (from_files : Options → Option (List ℕ) → List ℕ × Bool) (mib_text : ℕ → List ℕ) where
  module _ (d : Disk) (raw svg : List ℕ) (peak_bytes : ℕ) (reversed : Bool) (title : List ℕ)
      (post : Bool) where
    -- What inferno makes of what the file of lines holds.
    abbrev drawn_of : Disk → List ℕ × Bool
    drawn_of d' =
        from_files (graph_options mib_text peak_bytes reversed title post) (content d' raw)

    write_flamegraph-Holds :
        raw ≢ svg
        → let r = write_flamegraph from_files mib_text d raw svg peak_bytes reversed title post in
          Holds svg d (drawn_of r.0).0 r × (r.1 ≡ true → (drawn_of r.0).1 ≡ true)
    unfolding write_flamegraph
    write_flamegraph-Holds ne =
        let d1 = (create d svg).0 in
        let made = create-Holds d svg in
        let drawn = drawn_of d1 in
        let d2 = (write_all d1 svg drawn.0).0 in
        let same : drawn_of d2 ≡ drawn =
          ap (from_files (graph_options mib_text peak_bytes reversed title post))
            (content-ChangesOnly svg raw d1 d2 (write_all-ChangesOnly d1 svg drawn.0) ne) in
        elim (Bool-cases (create d svg).1) [
          | inl e ↦
              let held = write_all-Holds d1 svg [] drawn.0 (made.complete e) in
              elim (Bool-cases (write_all d1 svg drawn.0).1) [
                | inl f ↦
                    rw (e, f, same)
                      (
                        record {
                          silent = held.silent ∙ made.silent;
                          complete = λ _. held.complete f;
                        },
                        λ g. g,
                      )
                | inr f ↦
                    rw (e, f)
                      (
                        record {
                          silent = held.silent ∙ made.silent;
                          complete = λ g. absurd (cc g);
                        },
                        λ g. absurd (cc g),
                      )
              ]
          | inr e ↦
              rw e
                (record { silent = made.silent; complete = λ g. absurd (cc g) }, λ g. absurd (cc g))
        ]

    -- One graph: it is said to be written only where the file holds all that inferno made, without
    -- an error, of what the file of lines holds.
    dump_graph-says :
        raw ≢ svg
        → let d' = dump_graph from_files mib_text d raw svg peak_bytes reversed title post in
          (ok : Bool) × (d'.messages ≡ (if ok then wrote svg else svg_error) ∷ d.messages)
          × (ok ≡ true → (content d' svg ≡ some (drawn_of d').0) × ((drawn_of d').1 ≡ true))
    unfolding dump_graph content
    dump_graph-says ne =
        let r = write_flamegraph from_files mib_text d raw svg peak_bytes reversed title post in
        let (held, drawn) = write_flamegraph-Holds ne in
        elim (Bool-cases r.1) [
          | inl e ↦ (true, rw (e, held.silent) refl, λ _. rw e (held.complete e, drawn e))
          | inr e ↦ (false, rw (e, held.silent) refl, λ g. absurd (cc g))
        ]

  -- The two graphs and their messages, behind the writing of the lines.
  graphs-Reports :
      (path base title : List ℕ) (post : Bool) (p : ℕ) (lines : List (List ℕ)) (d : Disk)
      (r : Disk × Bool)
      → Holds (raw_of path base) (say (preparing path) d) (all_lines lines) r
      → let d2 = (if r.1 then r.0 else say raw_error r.0) in
        let d3 =
          dump_graph from_files mib_text d2
            (raw_of path base)
            (svg_of path base)
            p
            false
            title
            post in
        let d4 =
          dump_graph from_files mib_text d3
            (raw_of path base)
            (reversed_of path base)
            p
            true
            title
            post in
        Reports from_files mib_text path base title post p lines d d4
  unfolding graph_options
  graphs-Reports path base title post p lines d (d1, ok) held =
      let raw = raw_of path base in
      let svg = svg_of path base in
      let svg2 = reversed_of path base in
      let d2 = (if ok then d1 else say raw_error d1) in
      let d3 = dump_graph from_files mib_text d2 raw svg p false title post in
      let d4 = dump_graph from_files mib_text d3 raw svg2 p true title post in
      let (ok3, said3, drawn3) =
        dump_graph-says d2 raw svg p false title post (raw_ne_svg path base) in
      let (ok4, said4, drawn4) =
        dump_graph-says d3 raw svg2 p true title post (raw_ne_reversed path base) in
      let only4 = dump_graph-ChangesOnly from_files mib_text d3 raw svg2 p true title post in
      let only3 = dump_graph-ChangesOnly from_files mib_text d2 raw svg p false title post in
      let raw4 : content d4 raw ≡ content d3 raw =
        content-ChangesOnly svg2 raw d3 d4 only4 (raw_ne_reversed path base) in
      let raw3 : content d3 raw ≡ content d2 raw =
        content-ChangesOnly svg raw d2 d3 only3 (raw_ne_svg path base) in
      let svg4 : content d4 svg ≡ content d3 svg =
        content-ChangesOnly svg2 svg d3 d4 only4 (svg_ne_reversed path base) in
      record {
        raw_ok = ok;
        svg_ok = ok3;
        reversed_ok = ok4;
        said =
            said4
            ∙ ap (◌∷◌ (if ok4 then wrote svg2 else svg_error)) (
                said3
                ∙ ap (◌∷◌ (if ok3 then wrote svg else svg_error))
                    (messages_unless ok d1 (preparing path ∷ d.messages) held.silent));
        raw_complete = λ e. raw4 ∙ raw3 ∙ content_unless ok d1 raw ∙ held.complete e;
        svg_complete = λ e. rw (raw4, svg4) (drawn3 e);
        reversed_complete = drawn4;
      }

  -- When the books are in order and the output path is a directory, a dump returns whatever file
  -- operations fail and whatever inferno gives, with the peak checked. It says first that it
  -- prepares, then an error of the file of lines or nothing, then of each graph that it is written
  -- or an error. Where no error is said of the file of lines, it holds the lines of `to_lines`,
  -- each with a newline behind it; each graph that is said to be written holds all that inferno
  -- made, without an error, of what the file of lines holds.
  pub dump_to_flamegraph-Reports :
      (memory : Memory) (d : Disk) (t : AllocationTracker) (path : List ℕ) (peak : Bool)
      (base_filename title : List ℕ) (post : Bool)
      → IsAccounted t
      → lookup Path-discrete path d.entries ≡ some directory
      → (d' : Disk) × (lines : List (List ℕ)) × (dump_to_flamegraph from_files mib_text memory d t
            path peak base_filename title post
          ≡ done (d', check_if_new_peak t))
        × (to_lines memory t peak post ≡ done (check_if_new_peak t, lines))
        × Reports from_files mib_text path base_filename title post
            (check_if_new_peak t).peak_allocated_bytes
            lines
            d
            d'
  unfolding dump_to_flamegraph combine_callstacks to_lines
  dump_to_flamegraph-Reports memory d t path peak base title post a there =
      let u = check_if_new_peak t in
      let c = check_if_new_peak-IsAccounted t a in
      let raw = raw_of path base in
      let es = (combine_callstacks t peak).1 in
      let d0 = say (preparing path) d in
      let format = to_line memory (get_reverse_map u.interner) post in
      let (lines, each) = FormatsTo-exists format es (
        to_line-IsFormatted memory u.interner post es c.numbered
          (combine_callstacks-KeysBelow t peak a)) in
      let (r, ran, held) = write_lines-Holds format raw d0 es lines each in
      (
        _,
        lines,
        rw (prepare_there d0 path there, ran) refl,
        rw (map_lines-FormatsTo memory u post es lines each) refl,
        graphs-Reports path base title post u.peak_allocated_bytes lines d r held,
      )
