-- ===== src/Dump.antt =====
-- memapi/src/memorytracking.rs: the files of a report (`write_lines`, `write_flamegraph`,
-- `dump_to_flamegraph`, `dump_peak_to_flamegraph`). The file system is a state that is passed on, in
-- which any operation may fail.
pub mod Errors
pub mod Files
pub mod Graphs
pub mod Contents
use filprofiler.Base.{
  ℕ, zero, suc, ◌==◌, Bool, true, false, if◌then◌else◌, List, [], ◌∷◌, ◌++◌, Option, none, some,
  lookup, Outcome, done, panic, ◌>>=◌, ℕ_discrete,
}
use filprofiler.HashMap.{HashMap, insert}
use filprofiler.Interner.{get_reverse_map}
use filprofiler.Tracker.{AllocationTracker}
use filprofiler.Text.{Memory, text}
use filprofiler.Report.{combine_callstacks, to_line}

unfoldable pub Path-discrete : Discrete (List ℕ)
Path-discrete = hlevel ℕ_discrete

pub data Entry : Type 0 where
  directory : Entry
  file : List ℕ → Entry

-- What is said on the standard error output.
pub data Message : Type 0 where
  preparing : List ℕ → Message
  raw_error : Message
  wrote : List ℕ → Message
  svg_error : Message
  forking : Message
  freeing : Message
  dumping : Message

-- The files, the fate of the operations to come, and the messages, latest first. An operation
-- succeeds at `none`, and when no fates are left; at `some k` it fails, a write after `k` bytes.
pub record Disk : Type 0 where
  pub entries : HashMap (List ℕ) Entry
  pub faults : List (Option ℕ)
  pub messages : List Message

-- The fate of the next operation.
unfoldable pub next_fault : Disk → Disk × Option ℕ
next_fault d = elim d.faults [ [] ↦ (d, none) | f ∷ rest ↦ (record d { faults = rest }, f) ]

-- `eprintln!`
abbrev pub say : Message → Disk → Disk
say m d = record d { messages = m ∷ d.messages }

unfoldable pub take : ℕ → List ℕ → List ℕ
take zero l = []
take (suc n) [] = []
take (suc n) (x ∷ l) = x ∷ take n l

-- `File::create`, and whether it succeeds: never at a directory
unfoldable pub create : Disk → List ℕ → Disk × Bool
create d path =
    let (d, fault) = next_fault d in
    let created = record d { entries = insert Path-discrete path (file []) d.entries } in
    elim fault [
      | none ↦ elim (lookup Path-discrete path d.entries) [
        | none ↦ (created, true)
        | some directory ↦ (d, false)
        | some (file _) ↦ (created, true)
      ]
      | some _ ↦ (d, false)
    ]

-- the bytes of a file, for the reader
unfoldable pub content : Disk → List ℕ → Option (List ℕ)
content d path = elim (lookup Path-discrete path d.entries) [
  | none ↦ none
  | some directory ↦ none
  | some (file bytes) ↦ some bytes
]

unfoldable pub append : Disk → List ℕ → List ℕ → Disk
append d path bytes = elim (content d path) [
  | none ↦ d
  | some old ↦ record d { entries = insert Path-discrete path (file (old ++ bytes)) d.entries }
]

-- `write_all`, and whether it succeeds
unfoldable pub write_all : Disk → List ℕ → List ℕ → Disk × Bool
write_all d path bytes =
    let (d, fault) = next_fault d in
    elim fault [
      | none ↦ (append d path bytes, true)
      | some k ↦ (append d path (take k bytes), false)
    ]

-- the loop of `write_lines`, over the items that the iterator formats one by one
unfoldable pub write_each {ℓ} :
    {A : Type ℓ} → (A → Outcome (List ℕ)) → Disk → List ℕ → List A → Outcome (Disk × Bool)
write_each format d path [] = done (d, true)
write_each format d path (x ∷ rest) = do
  line ← format x
  let (d1, ok1) = write_all d path line
  let (d2, ok2) = write_all d1 path (b'\n' ∷ [])
  let more = write_each format d2 path rest
  if ok1 then (if ok2 then more else done (d2, false)) else done (d1, false)

unfoldable pub write_lines {ℓ} :
    {A : Type ℓ} → (A → Outcome (List ℕ)) → Disk → List ℕ → List A → Outcome (Disk × Bool)
unfolding write_each
write_lines format d path lines =
    let (d1, ok) = create d path in if ok then write_each format d1 path lines else done (d1, false)

-- The options of inferno that differ from call to call.
pub record Options : Type 0 where
  pub title : List ℕ
  pub reverse_stack_order : Bool
  pub subtitle : Option (List ℕ)

-- `Path::join` with a relative name
unfoldable pub join_path : List ℕ → List ℕ → List ℕ
join_path [] name = name
join_path (c ∷ []) name = if c == b'/' then c ∷ name else c ∷ b'/' ∷ name
join_path (c ∷ d ∷ path) name = c ∷ join_path (d ∷ path) name

-- The directory of a dump, made where it is missing.
unfoldable pub prepare : Disk → List ℕ → Outcome Disk
prepare d path = elim (lookup Path-discrete path d.entries) [
  | none ↦
      let (d1, fault) = next_fault d in
      elim fault [
        | none ↦ done (record d1 { entries = insert Path-discrete path directory d1.entries })
        | some _ ↦ panic
      ]
  | some directory ↦ done d
  | some (file _) ↦ panic
]

-- The options of a graph; `mib_text` is the text of a number of bytes in MiB with one decimal.
unfoldable pub graph_options : (ℕ → List ℕ) → ℕ → Bool → List ℕ → Bool → Options
graph_options mib_text peak_bytes reversed title to_be_post_processed = record {
  title =
      title
      ++ ((if reversed then text ", Reversed" else [])
          ++ (text " (" ++ (mib_text peak_bytes ++ text " MiB)")));
  reverse_stack_order = reversed;
  subtitle = if to_be_post_processed then some (text "SUBTITLE-HERE") else none;
}

-- inferno's `from_files` gets the options and the bytes of the file of lines, and gives what it writes
-- and whether it succeeds.
module _ (from_files : Options → Option (List ℕ) → List ℕ × Bool) (mib_text : ℕ → List ℕ) where
  unfoldable pub write_flamegraph : Disk → List ℕ → List ℕ → ℕ → Bool → List ℕ → Bool → Disk × Bool
  write_flamegraph d lines_file_path path peak_bytes reversed title to_be_post_processed =
      let (d1, ok) = create d path in
      let options = graph_options mib_text peak_bytes reversed title to_be_post_processed in
      let (svg, drawn) = from_files options (content d1 lines_file_path) in
      let (d2, written) = write_all d1 path svg in
      if ok then (d2, if written then drawn else false) else (d1, false)

  -- One of the two graphs of `dump_to_flamegraph`, with its message.
  unfoldable pub dump_graph : Disk → List ℕ → List ℕ → ℕ → Bool → List ℕ → Bool → Disk
  unfolding write_flamegraph
  dump_graph d raw_path svg_path peak_bytes reversed title to_be_post_processed =
      let (d1, ok) =
        write_flamegraph d raw_path svg_path peak_bytes reversed title to_be_post_processed in
      if ok then say (wrote svg_path) d1 else say svg_error d1

  module _ (memory : Memory) where
    unfoldable pub dump_to_flamegraph :
        Disk
        → AllocationTracker
        → List ℕ
        → Bool
        → List ℕ
        → List ℕ
        → Bool
        → Outcome (Disk × AllocationTracker)
    unfolding prepare dump_graph write_lines
    dump_to_flamegraph d self path peak base_filename title to_be_post_processed = do
      d0 ← prepare (say (preparing path) d) path
      let raw_path = join_path path (base_filename ++ text ".prof")
      let (tracker, by_call) = combine_callstacks self peak
      let id_to_callstack = get_reverse_map tracker.interner
      (d1, ok) ←
          write_lines (to_line memory id_to_callstack to_be_post_processed) d0 raw_path by_call
      let d2 = (if ok then d1 else say raw_error d1)
      let d3 =
          dump_graph d2 raw_path (join_path path (base_filename ++ text ".svg"))
            tracker.peak_allocated_bytes false title to_be_post_processed
      let d4 =
          dump_graph d3 raw_path (join_path path (base_filename ++ text "-reversed.svg"))
            tracker.peak_allocated_bytes true title to_be_post_processed
      done (d4, tracker)

    unfoldable pub dump_peak_to_flamegraph :
        Disk → AllocationTracker → List ℕ → Outcome (Disk × AllocationTracker)
    unfolding dump_to_flamegraph
    dump_peak_to_flamegraph d self path =
        dump_to_flamegraph d self path true (text "peak-memory") (text "Peak Tracked Memory Usage")
          true
