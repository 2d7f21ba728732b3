-- ===== src/Style/Semicolons.antt =====
-- `CheckTrailingSemicolon` of cpplint.py.
use dyod_ws.Base.{
  ℕ, zero, suc, ◌-◌, Bool, false, not, ◌&&◌, ◌||◌, Option, none, some, List, [], ◌∷◌, length, take,
  drop, get_or, ltb, if◌then◌else◌,
}
use dyod_ws.Base.Text.{Str, txt, is_one_of, rfind}
use dyod_ws.Brackets.Backward.{reverse_close_expression}
use dyod_ws.Brackets.Forward.{Position, close_expression}
use dyod_ws.Cleanse.{CleansedLines}
use dyod_ws.Emit.Calls.{Call, nolint, report_all}
use dyod_ws.Re.{
  Re, set, star, group, at_start, at_end, boundary, Range, one, lit, one_of, plus, words, space,
  spaces, single, dots, re_match, re_search, group_text, matches, searches, ◌▹◌, ◌∣∣◌,
}
use dyod_ws.Report.{error}
use dyod_ws.Style.Braces.{previous_text}

-- `^(.*\)\s*)\{`, `^(.*(?:else|\)\s*const)\s*)\{` and `^(\s*)\{`
unfoldable pub after_parenthesis : Re
after_parenthesis = at_start ▹ group 1 (dots ▹ one b')' ▹ spaces) ▹ one b'{'

unfoldable pub after_else_or_const : Re
unfolding lit
after_else_or_const =
    at_start
    ▹ group 1 (dots ▹ (lit "else" ∣∣ (one b')' ▹ spaces ▹ lit "const")) ▹ spaces)
    ▹ one b'{'

unfoldable pub leading_brace : Re
leading_brace = at_start ▹ group 1 spaces ▹ one b'{'

-- `\b([A-Z_][A-Z0-9_]*)\s*$`, `^(.*\])\s*$` and `\boperator\s*\[\s*\]`
abbrev capitals : List Range
capitals = record { lo = b'A'; hi = b'Z' } ∷ single b'_' ∷ []

unfoldable pub macro_prefix : Re
macro_prefix =
    boundary
    ▹ group 1 (set capitals ▹ star (set (record { lo = b'0'; hi = b'9' } ∷ capitals)))
    ▹ spaces
    ▹ at_end

unfoldable pub bracket_prefix : Re
bracket_prefix = at_start ▹ group 1 (dots ▹ one b']') ▹ spaces ▹ at_end

unfoldable pub operator_brackets : Re
unfolding lit
operator_brackets = boundary ▹ lit "operator" ▹ spaces ▹ one b'[' ▹ spaces ▹ one b']'

-- `\b(?:struct|union)\s+alignas\s*$`, `\bdecltype$` and `\s+=\s*$`
unfoldable pub alignas_prefix : Re
unfolding lit words plus
alignas_prefix =
    boundary ▹ words ("struct" ∷ "union" ∷ []) ▹ plus space ▹ lit "alignas" ▹ spaces ▹ at_end

unfoldable pub decltype_prefix : Re
unfolding lit
decltype_prefix = boundary ▹ lit "decltype" ▹ at_end

unfoldable pub equals_prefix : Re
unfolding plus
equals_prefix = plus space ▹ one b'=' ▹ spaces ▹ at_end

-- `\]\s*$`, `[;{}]\s*$` and `^\s*;`
unfoldable pub bracket_end : Re
bracket_end = one b']' ▹ spaces ▹ at_end

unfoldable pub statement_or_brace : Re
unfolding one_of
statement_or_brace = one_of ";{}" ▹ spaces ▹ at_end

unfoldable pub semicolon_first : Re
semicolon_first = at_start ▹ spaces ▹ one b';'

abbrev pub block_macros : List Str
block_macros =
    txt "TEST"
    ∷ txt "TEST_F"
    ∷ txt "MATCHER"
    ∷ txt "MATCHER_P"
    ∷ txt "TYPED_TEST"
    ∷ txt "EXCLUSIVE_LOCKS_REQUIRED"
    ∷ txt "SHARED_LOCKS_REQUIRED"
    ∷ txt "LOCKS_EXCLUDED"
    ∷ txt "INTERFACE_DEF"
    ∷ []

-- What stands in front of the parentheses allows a semicolon behind the block.
unfoldable pub allows_semicolon : Str → Bool
allows_semicolon line_prefix =
    (elim (re_search macro_prefix line_prefix) [
      | none ↦ false
      | some m ↦ not (is_one_of (group_text 1 m) block_macros)
    ])
    || (elim (re_match bracket_prefix line_prefix) [
      | none ↦ false
      | some m ↦ not (searches operator_brackets (group_text 1 m))
    ])
    || searches alignas_prefix line_prefix
    || searches decltype_prefix line_prefix
    || searches equals_prefix line_prefix

-- Whether the match is kept, with the opening parenthesis at `p`.
unfoldable pub keeps_match : CleansedLines → Position → Bool
keeps_match clean_lines p =
    not (elim p.pos [ none ↦ false | some i ↦ allows_semicolon (take i p.line) ])
    && not (ltb 1 p.linenum && searches bracket_end (get_or clean_lines.elided (p.linenum - 1) []))

-- The text in front of the brace of a block that wants no semicolon behind it; the outer `none` is an
-- exception of `ReverseCloseExpression`.
block_after_parenthesis : CleansedLines → ℕ → Str → Option (Option Str)
block_after_parenthesis clean_lines linenum before = elim (rfind b')' before) [
  | none ↦ some none
  | some closing_brace_pos ↦ elim (reverse_close_expression clean_lines linenum closing_brace_pos) [
    | none ↦ none
    | some p ↦ some (if keeps_match clean_lines p then some before else none)
  ]
]

other_block : CleansedLines → ℕ → Str → Option Str
other_block clean_lines linenum line = elim (re_match after_else_or_const line) [
  | some m ↦ some (group_text 1 m)
  | none ↦
      if searches statement_or_brace (previous_text clean_lines.elided linenum)
      then elim (re_match leading_brace line) [ some m ↦ some (group_text 1 m) | none ↦ none ]
      else none
]

unfoldable pub block_start : CleansedLines → ℕ → Str → Option (Option Str)
unfolding block_after_parenthesis other_block
block_start clean_lines linenum line = elim (re_match after_parenthesis line) [
  | some m ↦ block_after_parenthesis clean_lines linenum (group_text 1 m)
  | none ↦ some (other_block clean_lines linenum line)
]

-- The calls where the block that ends on line number `suc above` has a semicolon behind it. The first
-- line of a file is a marker with no brace: `none`.
semicolon_calls : Str → CleansedLines → ℕ → Option (List Call)
semicolon_calls filename clean_lines zero = none
semicolon_calls filename clean_lines (suc above) = some (
    nolint filename (get_or clean_lines.raw_lines above []) above
    ∷ nolint filename (get_or clean_lines.raw_lines (suc above) []) (suc above)
    ∷ report_all
        (error filename (suc above) "readability/braces" 4 (txt "You don't need a ; after a }")))

on_block_end : Str → CleansedLines → Position → Option (List Call)
unfolding semicolon_calls
on_block_end filename clean_lines p = elim p.pos [
  | none ↦ some []
  | some endpos ↦
      if matches semicolon_first (drop endpos p.line)
      then semicolon_calls filename clean_lines p.linenum
      else some []
]

on_block : Str → CleansedLines → ℕ → Option Str → Option (List Call)
unfolding on_block_end
on_block filename clean_lines linenum none = some []
on_block filename clean_lines linenum (some before) =
    elim (close_expression clean_lines linenum (length before)) [
      | none ↦ none
      | some p ↦ on_block_end filename clean_lines p
    ]

-- `CheckTrailingSemicolon`; `none` is an exception of `CloseExpression` or `ReverseCloseExpression`.
unfoldable pub check_trailing_semicolon : Str → CleansedLines → ℕ → Option (List Call)
unfolding on_block
check_trailing_semicolon filename clean_lines linenum =
    elim (block_start clean_lines linenum (get_or clean_lines.elided linenum [])) [
      | none ↦ none
      | some block ↦ on_block filename clean_lines linenum block
    ]
