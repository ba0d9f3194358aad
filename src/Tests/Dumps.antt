-- ===== src/Tests/Dumps.antt =====
-- Runs of the lemmas on the files of a report (memapi/src/memorytracking.rs) on concrete disks.
use filprofiler.Base.{
  ℕ, ℕ_discrete, ◌≡◌, ◌≢◌, Bool, true, false, List, [], ◌∷◌, ◌++◌, map, Option, none, some, lookup,
  done, refl, arith,
}
use filprofiler.Text.{text, decimal}
use filprofiler.Text.Frames.{split}
use filprofiler.Tracker.{check_if_new_peak}
use filprofiler.Dump.{
  Path-discrete, directory, Disk, content, write_lines, Options, join_path, dump_to_flamegraph,
}
use filprofiler.Report.{to_lines}
use filprofiler.Dump.Graphs.{plain_graph, reversed_graph}
use filprofiler.Dump.Contents.{dump_to_flamegraph-content}
use filprofiler.Dump.Contents.Messages.{Reports, dump_to_flamegraph-Reports}
use filprofiler.Dump.Errors.{dump_to_flamegraph-ChangesOnly}
use filprofiler.Dump.Files.{all_lines, write_lines-roundtrip}
use filprofiler.Tests.{busy, busy-IsAccounted, all_a}

-- A disk with a directory, on which the second operation fails after three bytes.
abbrev failing_disk : Disk
failing_disk = record {
  entries = (b'r' ∷ [], directory) ∷ [];
  faults = none ∷ some 3 ∷ [];
  messages = [];
}

abbrev empty_disk : Disk
empty_disk = record { entries = []; faults = []; messages = [] }

-- A graph that is a copy of the lines.
abbrev pub copied : Options → Option (List ℕ) → List ℕ × Bool
copied options none = ([], false)
copied options (some bytes) = (bytes, true)

dump_to_flamegraph-ChangesOnly_example :
    (d' : Disk) × (dump_to_flamegraph copied decimal all_a failing_disk busy
        (b'r' ∷ [])
        true
        (b'p' ∷ [])
        []
        false
      ≡ done (d', check_if_new_peak busy))
    × ((q : List ℕ)
        → q ≢ join_path (b'r' ∷ []) (b'p' ∷ text ".prof")
        → q ≢ join_path (b'r' ∷ []) (b'p' ∷ text ".svg")
        → q ≢ join_path (b'r' ∷ []) (b'p' ∷ text "-reversed.svg")
        → lookup Path-discrete q d'.entries ≡ lookup Path-discrete q failing_disk.entries)
unfolding lookup Path-discrete ℕ_discrete
dump_to_flamegraph-ChangesOnly_example =
    dump_to_flamegraph-ChangesOnly copied decimal all_a failing_disk busy (b'r' ∷ []) true
      (b'p' ∷ []) [] false busy-IsAccounted refl

dump_to_flamegraph-Reports_example :
    (d' : Disk) × (lines : List (List ℕ)) × (dump_to_flamegraph copied decimal all_a failing_disk
        busy
        (b'r' ∷ [])
        true
        (b'p' ∷ [])
        []
        false
      ≡ done (d', check_if_new_peak busy))
    × (to_lines all_a busy true false ≡ done (check_if_new_peak busy, lines))
    × Reports copied decimal
        (b'r' ∷ [])
        (b'p' ∷ [])
        []
        false
        (check_if_new_peak busy).peak_allocated_bytes
        lines
        failing_disk
        d'
unfolding lookup Path-discrete ℕ_discrete
dump_to_flamegraph-Reports_example =
    dump_to_flamegraph-Reports copied decimal all_a failing_disk busy (b'r' ∷ []) true (b'p' ∷ [])
      [] false busy-IsAccounted refl

-- Two lines of one letter each.
abbrev two_lines : List (List ℕ)
two_lines = (b'a' ∷ []) ∷ (b'b' ∷ []) ∷ []

write_lines-roundtrip_example :
    (d' : Disk) × (bytes : List ℕ) × (write_lines
        (λ (l : List ℕ). done l)
        empty_disk
        (b'r' ∷ [])
        two_lines
      ≡ done (d', true))
    × (content d' (b'r' ∷ []) ≡ some bytes)
    × (split b'\n' bytes ≡ map (λ (l : List ℕ). l) two_lines ++ [] ∷ [])
unfolding lookup
write_lines-roundtrip_example =
    write_lines-roundtrip (λ (l : List ℕ). done l) (b'r' ∷ []) (λ (l : List ℕ). l) empty_disk
      two_lines (refl, (refl, tt)) ((omega arith, tt), ((omega arith, tt), tt)) refl
      (λ e. absurd (cc))

-- A disk with a directory, on which nothing fails.
abbrev good_disk : Disk
good_disk = record { entries = (b'r' ∷ [], directory) ∷ []; faults = []; messages = [] }

dump_to_flamegraph-content_example :
    (d' : Disk) × (lines : List (List ℕ)) × (dump_to_flamegraph copied decimal all_a good_disk busy
        (b'r' ∷ [])
        false
        (b'p' ∷ [])
        []
        true
      ≡ done (d', check_if_new_peak busy))
    × (to_lines all_a busy false true ≡ done (check_if_new_peak busy, lines))
    × (content d' (join_path (b'r' ∷ []) (b'p' ∷ text ".prof")) ≡ some (all_lines lines))
    × (content d' (join_path (b'r' ∷ []) (b'p' ∷ text ".svg"))
        ≡ some
            (copied
              (plain_graph decimal (check_if_new_peak busy).peak_allocated_bytes [] true)
              (some (all_lines lines))).0)
    × (content d' (join_path (b'r' ∷ []) (b'p' ∷ text "-reversed.svg"))
        ≡ some
            (copied
              (reversed_graph decimal (check_if_new_peak busy).peak_allocated_bytes [] true)
              (some (all_lines lines))).0)
unfolding lookup join_path Path-discrete ℕ_discrete
dump_to_flamegraph-content_example =
    dump_to_flamegraph-content copied decimal all_a good_disk busy (b'r' ∷ []) false (b'p' ∷ []) []
      true busy-IsAccounted refl refl (λ e. absurd (cc)) (λ e. absurd (cc)) (λ e. absurd (cc))
