-- ===== src/Tests/Loops.antt =====
-- The theorems on loops over a line at concrete lines.
use dyod_ws.Base.{Option, none, some, List, [], ◌∷◌, ◌≡◌, refl, true, length, All}
use dyod_ws.Base.Text.{Str, txt}
use dyod_ws.Cleanse.{CleansedLines, cleansed_lines}
use dyod_ws.Cleanse.Aligned.{IsAligned, cleansed_lines_total}
use dyod_ws.Cleanse.RawStrings.{cleanse_raw_strings}
use dyod_ws.Cleanse.RawStrings.Ends.{cleanse_raw_strings_total}
use dyod_ws.Nesting.Blocks.{block_info}
use dyod_ws.Nesting.Braces.{Braces, first_brace, consume_braces}
use dyod_ws.Nesting.Braces.Ends.{consume_braces_total}
use dyod_ws.Nesting.Declarations.{Rest, namespace_decl, consume_namespaces}
use dyod_ws.Nesting.Declarations.Ends.{consume_namespaces_total}
use dyod_ws.Re.{re_match}
use dyod_ws.Re.Lacks.{Lacks}

abbrev one_line : CleansedLines
one_line = record {
  elided = txt "}  if (a) { b; }" ∷ [];
  lines = txt "}  if (a) { b; }" ∷ [];
  raw_lines = txt "}  if (a) { b; }" ∷ [];
  num_lines = 1;
  lines_without_raw_strings = txt "}  if (a) { b; }" ∷ [];
}

abbrev in_one_block : Braces
in_one_block = record {
  stack = block_info 0 true ∷ [];
  line = txt "}  if (a) { b; }";
  reports = [];
}

consume_braces_total_example :
    (r : Braces) × (consume_braces (txt "a.cpp") one_line 0 in_one_block ≡ some r)
    × (re_match first_brace r.line ≡ none)
consume_braces_total_example = consume_braces_total (txt "a.cpp") one_line 0 in_one_block

abbrev two_namespaces : Rest
two_namespaces = record { stack = []; line = txt "namespace a { namespace b {" }

consume_namespaces_total_example :
    (r : Rest) × (consume_namespaces 4 two_namespaces ≡ some r)
    × (re_match namespace_decl r.line ≡ none)
consume_namespaces_total_example = consume_namespaces_total 4 two_namespaces

abbrev raw_file : List Str
raw_file = txt "a = R\"x(b" ∷ txt "c)x\";" ∷ []

cleanse_raw_strings_total_example :
    (lines : List Str) × (cleanse_raw_strings raw_file ≡ some lines)
    × (length lines ≡ length raw_file)
    × (All (Lacks b'\n') raw_file → All (Lacks b'\n') lines)
cleanse_raw_strings_total_example = cleanse_raw_strings_total raw_file

cleansed_lines_total_example :
    (c : CleansedLines) × (cleansed_lines raw_file ≡ some c) × IsAligned raw_file c
unfolding txt dyod_ws.Base.Text.has
cleansed_lines_total_example = cleansed_lines_total raw_file (refl, (refl, tt))
