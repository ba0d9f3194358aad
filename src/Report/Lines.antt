-- ===== src/Report/Lines.antt =====
-- `to_lines` of memapi/src/memorytracking.rs, and the reading of its lines.
use filprofiler.Base.{
  ℕ, ◌≡◌, ◌==◌, ltb→lt, if◌then◌else◌, Bool, List, [], ◌∷◌, ◌++◌, Option, lookup, none, some, All,
  refl, arith, done, ℕ_discrete,
}
use filprofiler.HashMap.{HashMap}
use filprofiler.Callstack.{Callstack}
use filprofiler.Interner.{CallstackInterner, get_reverse_map}
use filprofiler.Interner.Numbering.{IsNumbered, id_of}
use filprofiler.Interner.Reverse.{get_reverse_map_iff}
use filprofiler.Text.{Memory, text, decimal, as_string}
use filprofiler.Text.Decimal.{read_digits, read-decimal, IsDigit, decimal-IsDigit}
use filprofiler.Text.Frames.{Lacks}
use filprofiler.Tracker.{AllocationTracker, check_if_new_peak}
use filprofiler.Tracker.Accounting.{IsAccounted, check_if_new_peak-IsAccounted}
use filprofiler.Report.{combine_callstacks, map_lines, to_lines}
use filprofiler.Report.Names.{KeysBelow, combine_callstacks-KeysBelow}

-- Cutting a text at its last space.
unfoldable pub last_space : List ℕ → Option (List ℕ × List ℕ)
last_space [] = none
last_space (x ∷ xs) = elim (last_space xs) [
  | some (a, b) ↦ some (x ∷ a, b)
  | none ↦ if x == b' ' then some ([], xs) else none
]

-- A line as the flamegraph's reader takes it: the text before the last space, and the number behind.
unfoldable pub read_line : List ℕ → Option (List ℕ × ℕ)
unfolding last_space
read_line l = elim (last_space l) [ none ↦ none | some (a, b) ↦ some (a, read_digits 0 b) ]

last_space-none : (b : List ℕ) → Lacks b' ' b → last_space b ≡ none
unfolding last_space
last_space-none [] h = refl
last_space-none (x ∷ b) h = ground (arith, last_space-none b h.1)

last_space-append : (a b : List ℕ) → Lacks b' ' b → last_space (a ++ b' ' ∷ b) ≡ some (a, b)
unfolding last_space
last_space-append [] b h = ground (arith, last_space-none b h)
last_space-append (x ∷ a) b h = ground (arith, last_space-append a b h)

digits-Lacks : (l : List ℕ) → All IsDigit l → Lacks b' ' l
digits-Lacks [] h = tt
digits-Lacks (c ∷ l) h = (omega (arith, h.0), digits-Lacks l h.1)

read_line-append : (a : List ℕ) (n : ℕ) → read_line (a ++ (text " " ++ decimal n)) ≡ some (a, n)
unfolding read_line
read_line-append a n = ground (
  arith,
  last_space-append a (decimal n) (digits-Lacks (decimal n) (decimal-IsDigit n)),
  read-decimal n,
)

module _ (memory : Memory) (i : CallstackInterner) (post : Bool) where
  -- The lines show the entries one by one: each reads as the text of the callstack that has the
  -- entry's id, and the entry's bytes.
  abbrev pub Shows : List (List ℕ) → HashMap ℕ ℕ → Type 0
  Shows [] [] = Unit {0}
  Shows [] (e ∷ es) = ⊥
  Shows (l ∷ ls) [] = ⊥
  Shows (l ∷ ls) (e ∷ es) =
      ((cs : Callstack) × (id_of i cs ≡ some e.0)
        × (read_line l ≡ some (as_string memory cs post, e.1)))
      × Shows ls es

  map_lines-Shows :
      (es : HashMap ℕ ℕ)
      → IsNumbered i
      → KeysBelow i.max_id es
      → (lines : List (List ℕ)) × (map_lines memory (get_reverse_map i) post es ≡ done lines)
        × Shows lines es
  unfolding map_lines
  map_lines-Shows [] v h = ([], refl, tt)
  map_lines-Shows ((id, bytes) ∷ es) v h =
      let (cs, known) = v.dense id (ltb→lt id i.max_id h.0) in
      let (lines, ran, shown) = map_lines-Shows es v h.1 in
      let named : lookup ℕ_discrete id (get_reverse_map i) ≡ some cs =
        (get_reverse_map_iff i cs id v).1 known in
      (
        (as_string memory cs post ++ (text " " ++ decimal bytes)) ∷ lines,
        rw (named, map_lines, ran) refl,
        ((cs, known, read_line-append (as_string memory cs post) bytes), shown),
      )

-- When the books are in order, `to_lines` does not panic: it gives one line for each entry of the
-- report, and cut at its last space the line is the text of the callstack that the interner has the
-- entry's id for, and the entry's bytes in decimal.
pub to_lines-Shows :
    (memory : Memory) (t : AllocationTracker) (peak post : Bool)
    → IsAccounted t
    → (lines : List (List ℕ)) × (to_lines memory t peak post ≡ done (check_if_new_peak t, lines))
      × Shows memory (check_if_new_peak t).interner post lines (combine_callstacks t peak).1
unfolding to_lines combine_callstacks
to_lines-Shows memory t peak post a =
    let c = check_if_new_peak-IsAccounted t a in
    let (lines, ran, shown) =
      map_lines-Shows memory (check_if_new_peak t).interner post (combine_callstacks t peak).1
        c.numbered (combine_callstacks-KeysBelow t peak a) in
    (lines, rw ran refl, shown)
