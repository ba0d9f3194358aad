-- ===== src/Dump/Graphs.antt =====
-- The two graphs of a dump in memapi/src/memorytracking.rs, described by the options with which inferno
-- draws them.
use filprofiler.Base.{ℕ, Bool, true, false, List, ◌++◌, none, some, if◌then◌else◌}
use filprofiler.Text.{text}
use filprofiler.Dump.{Options}

module _ (mib_text : ℕ → List ℕ) (bytes : ℕ) (title : List ℕ) (post : Bool) where
  -- The stacks as they are; the title, and behind it the bytes in MiB.
  abbrev pub plain_graph : Options
  plain_graph = record {
    title = title ++ (text " (" ++ (mib_text bytes ++ text " MiB)"));
    reverse_stack_order = false;
    subtitle = if post then some (text "SUBTITLE-HERE") else none;
  }

  -- The stacks reversed, as the title says before the bytes in MiB.
  abbrev pub reversed_graph : Options
  reversed_graph = record {
    title = title ++ (text ", Reversed (" ++ (mib_text bytes ++ text " MiB)"));
    reverse_stack_order = true;
    subtitle = if post then some (text "SUBTITLE-HERE") else none;
  }
