-- ===== src/Style/Braces.antt =====
-- `CheckBraces` of cpplint.py: braces and the bodies of `if` and `else`. The allowed line length is a
-- natural number.
use dyod_ws.Base.{
  ℕ, ◌+◌, ◌-◌, Bool, true, false, not, ◌&&◌, ◌||◌, Option, none, some, List, [], ◌∷◌, ◌++◌, length,
  drop, get_or, ltb, ◌==◌, if◌then◌else◌,
}
use dyod_ws.Base.Text.{Str, txt, find, contains, has}
use dyod_ws.Brackets.Forward.{Position, close_expression}
use dyod_ws.Cleanse.{CleansedLines}
use dyod_ws.FileChecks.{get_indent_level}
use dyod_ws.Re.{
  Re, set, except, star, group, at_start, at_end, boundary, one, lit, one_of, none_of, opt, spaces,
  space_ranges, single, Found, re_search, matches, searches, ◌▹◌, ◌∣∣◌,
}
use dyod_ws.Report.{Report, error, report_if}
use dyod_ws.Style.Operators.{both}
use dyod_ws.Style.Sections.{get_previous_non_blank_line}
use dyod_ws.Style.Width.{UnicodeData, get_line_width}

-- `\s*{\s*$`, `[,;:}{(]\s*$` and `\s*#`
unfoldable pub brace_line : Re
brace_line = spaces ▹ one b'{' ▹ spaces ▹ at_end

unfoldable pub open_end : Re
unfolding one_of
open_end = one_of ",;:}{(" ▹ spaces ▹ at_end

unfoldable pub directive_line : Re
directive_line = spaces ▹ one b'#'

-- `\s*else\b\s*(?:if\b|\{|$)` and `\s*}\s*$`
unfoldable pub else_line : Re
unfolding lit
else_line =
    spaces ▹ lit "else" ▹ boundary ▹ spaces ▹ ((lit "if" ▹ boundary) ∣∣ (one b'{' ∣∣ at_end))

unfoldable pub close_line : Re
close_line = spaces ▹ one b'}' ▹ spaces ▹ at_end

-- `else if\s*\(`, `}\s*else if\s*\(`, `}\s*else[^{]*$` and `[^}]*else\s*{`
unfoldable pub else_if : Re
unfolding lit
else_if = lit "else if" ▹ spaces ▹ one b'('

unfoldable pub brace_else_if : Re
unfolding lit
brace_else_if = one b'}' ▹ spaces ▹ lit "else if" ▹ spaces ▹ one b'('

unfoldable pub brace_on_left_only : Re
unfolding lit none_of
brace_on_left_only = one b'}' ▹ spaces ▹ lit "else" ▹ star (none_of "{") ▹ at_end

unfoldable pub brace_on_right_only : Re
unfolding lit none_of
brace_on_right_only = star (none_of "}") ▹ lit "else" ▹ spaces ▹ one b'{'

-- `\belse [^\s{]`, `\belse if\b` and `\s*do [^\s{]`
unfoldable pub else_clause : Re
unfolding lit
else_clause = boundary ▹ lit "else " ▹ except (single b'{' ∷ space_ranges)

unfoldable pub else_if_word : Re
unfolding lit
else_if_word = boundary ▹ lit "else if" ▹ boundary

unfoldable pub do_clause : Re
unfolding lit
do_clause = spaces ▹ lit "do " ▹ except (single b'{' ∷ space_ranges)

-- `\b(if\s*\(|else\b)` and `\bif\s*\(`
unfoldable pub if_or_else : Re
unfolding lit
if_or_else = boundary ▹ group 1 ((lit "if" ▹ spaces ▹ one b'(') ∣∣ (lit "else" ▹ boundary))

unfoldable pub if_word : Re
unfolding lit
if_word = boundary ▹ lit "if" ▹ spaces ▹ one b'('

-- `\s*{`, `\s*$`, `;[\s}]*(\\?)$`, `^[^{};]*\[[^\[\]]*\][^{}]*\{[^{}]*\}\s*\)*[;,]\s*$` and `\s*else\b`
unfoldable pub open_brace : Re
open_brace = spaces ▹ one b'{'

unfoldable pub rest_blank : Re
rest_blank = spaces ▹ at_end

unfoldable pub last_statement : Re
unfolding opt
last_statement =
    one b';' ▹ star (set (single b'}' ∷ space_ranges)) ▹ group 1 (opt (one b'\\')) ▹ at_end

unfoldable pub lambda_line : Re
unfolding none_of one_of
lambda_line =
    at_start
    ▹ star (none_of "{};")
    ▹ one b'['
    ▹ star (none_of "[]")
    ▹ one b']'
    ▹ star (none_of "{}")
    ▹ one b'{'
    ▹ star (none_of "{}")
    ▹ one b'}'
    ▹ spaces
    ▹ star (one b')')
    ▹ one_of ";,"
    ▹ spaces
    ▹ at_end

unfoldable pub else_word : Re
unfolding lit
else_word = spaces ▹ lit "else" ▹ boundary

-- `s[endpos:]`, where -1 stands for the last character.
unfoldable pub slice_from : Str → Option ℕ → Str
slice_from s none = drop (length s - 1) s
slice_from s (some endpos) = drop endpos s

-- `GetPreviousNonBlankLine(clean_lines, linenum)[0]`
unfoldable pub previous_text : List Str → ℕ → Str
previous_text elided linenum = elim (get_previous_non_blank_line elided linenum) [
  | none ↦ []
  | some (line, n) ↦ line
]

-- A line with nothing but `{`.
lone_brace : UnicodeData → ℕ → Str → List Str → Str → ℕ → List Report
lone_brace u line_length filename elided line linenum =
    let prevline = previous_text elided linenum in
    report_if
      (matches brace_line line
        && not (searches open_end prevline)
        && not (matches directive_line prevline)
        && not (ltb line_length (get_line_width u prevline + 2) && contains (txt "[]") prevline))
      (error filename linenum "whitespace/braces" 4
        (txt "{ should almost always be at the end of the previous line"))

-- An `else` behind a line with nothing but `}`.
lone_else : Str → List Str → Str → ℕ → List Report
lone_else filename elided line linenum =
    report_if (matches else_line line && matches close_line (previous_text elided linenum)) (
      error filename linenum "whitespace/newline" 4
        (txt "An else should appear on the same line as the preceding }"))

one_sided : Str → ℕ → List Report
one_sided filename linenum =
    error filename linenum "readability/braces" 5
      (txt "If an else has a brace on one side, it should have it on both")

-- `line.find('(', line.find('else if'))`
unfoldable pub condition_start : Str → Option ℕ
condition_start line = elim (find (txt "else if") line) [
  | none ↦ none
  | some pos ↦ elim (find (txt "(") (drop pos line)) [ none ↦ none | some i ↦ some (pos + i) ]
]

-- An `else if` with a brace on one side; the line of the closing parenthesis has the other side.
else_if_at : Str → CleansedLines → Str → ℕ → ℕ → Option (List Report)
unfolding one_sided
else_if_at filename clean_lines line linenum pos = elim (close_expression clean_lines linenum pos) [
  | none ↦ none
  | some p ↦
      let brace_on_right = has b'{' (slice_from p.line p.pos) in
      let brace_on_left = searches brace_else_if line in
      some (
        report_if (if brace_on_left then not brace_on_right else brace_on_right)
          (one_sided filename linenum))
]

else_sides : Str → CleansedLines → Str → ℕ → Option (List Report)
unfolding else_if_at one_sided
else_sides filename clean_lines line linenum =
    if searches else_if line
    then elim (condition_start line) [
      | none ↦ some []
      | some pos ↦ if ltb 0 pos then else_if_at filename clean_lines line linenum pos else some []
    ]
    else some (
        report_if (searches brace_on_left_only line || matches brace_on_right_only line)
          (one_sided filename linenum))

same_line : Str → Str → ℕ → List Report
same_line filename line linenum =
    report_if (searches else_clause line && not (searches else_if_word line)) (
      error filename linenum "whitespace/newline" 4
        (txt "Else clause should never be on same line as else (use 2 lines)"))
    ++ report_if (matches do_clause line) (
        error filename linenum "whitespace/newline" 4
          (txt "do/while clauses should not be on a single line"))

-- The first line from number `linenum` on that has a semicolon, behind `endpos` on the first of them.
unfoldable pub semicolon_line : ℕ → List Str → Option ℕ → Option (ℕ × Str)
semicolon_line linenum [] endpos = none
semicolon_line linenum (line ∷ rest) endpos =
    let later = semicolon_line (linenum + 1) rest (some 0) in
    if has b';' (slice_from line endpos) then some (linenum, line) else later

many_statements : Str → ℕ → List Report
many_statements filename linenum =
    error filename linenum "readability/braces" 4
      (txt "If/else bodies with multiple statements require braces")

-- The line behind the body of an `if` or `else` that has one statement.
next_reports : Str → List Str → ℕ → Bool → ℕ → ℕ → List Report
unfolding many_statements
next_reports filename elided linenum is_if if_indent endlinenum =
    let next_line = get_or elided (endlinenum + 1) [] in
    let next_indent = get_indent_level next_line in
    if not (ltb (endlinenum + 1) (length elided))
    then []
    else if is_if && matches else_word next_line && not (next_indent == if_indent)
    then error filename linenum "readability/braces" 4 (
        txt "Else clause should be indented at the same level as if. "
        ++ txt "Ambiguous nested if/else chains require braces.")
    else report_if (ltb if_indent next_indent) (many_statements filename linenum)

-- The line with the first semicolon.
on_semicolon : Str → List Str → ℕ → Bool → ℕ → Option (ℕ × Str) → List Report
unfolding next_reports many_statements
on_semicolon filename elided linenum is_if if_indent none = []
on_semicolon filename elided linenum is_if if_indent (some (endlinenum, endline)) =
    if not (matches last_statement (slice_from endline (find (txt ";") endline)))
    then report_if (not (matches lambda_line endline)) (many_statements filename linenum)
    else next_reports filename elided linenum is_if if_indent endlinenum

-- The body behind position `p`, where it does not begin with a brace.
unfoldable pub body_reports : Str → List Str → ℕ → Bool → ℕ → Position → List Report
unfolding on_semicolon
body_reports filename elided linenum is_if if_indent p =
    let after = slice_from p.line p.pos in
    if matches open_brace after
      || (matches rest_blank after
          && ltb (p.linenum + 1) (length elided)
          && matches open_brace (get_or elided (p.linenum + 1) []))
    then []
    else on_semicolon filename elided linenum is_if if_indent
        (semicolon_line p.linenum (drop p.linenum elided) p.pos)

-- The body of an `if` or `else` on the line, which ends at `m`.
if_body : Str → CleansedLines → Str → ℕ → Found → Option (List Report)
if_body filename clean_lines line linenum m =
    let if_indent = get_indent_level line in
    elim (re_search if_word line) [
      | none ↦ some (
          body_reports filename clean_lines.elided linenum false if_indent
            (record { line = line; linenum = linenum; pos = some m.stop }))
      | some i ↦ elim (close_expression clean_lines linenum (i.stop - 1)) [
        | none ↦ none
        | some p ↦ some (body_reports filename clean_lines.elided linenum true if_indent p)
      ]
    ]

if_reports : Str → CleansedLines → Str → ℕ → Option (List Report)
unfolding if_body
if_reports filename clean_lines line linenum = elim (re_search if_or_else line) [
  | none ↦ some []
  | some m ↦
      if matches directive_line line then some [] else if_body filename clean_lines line linenum m
]

-- `CheckBraces`; `none` is an exception of `CloseExpression`.
unfoldable pub check_braces : UnicodeData → ℕ → Str → CleansedLines → ℕ → Option (List Report)
unfolding lone_brace lone_else else_sides same_line if_reports
check_braces u line_length filename clean_lines linenum =
    let line = get_or clean_lines.elided linenum [] in
    both
      (some (
        lone_brace u line_length filename clean_lines.elided line linenum
        ++ lone_else filename clean_lines.elided line linenum))
      (both (else_sides filename clean_lines line linenum) (
        both (some (same_line filename line linenum))
          (if_reports filename clean_lines line linenum)))
