-- ===== src/Style/Line.antt =====
-- `CheckStyle` of cpplint.py: the checks of the style of one line, in their order. The allowed line length
-- is a natural number.
use dyod_ws.Base.{
  ℕ, zero, suc, Bool, false, not, ◌&&◌, ◌||◌, Option, none, some, List, [], ◌∷◌, ◌++◌, get_or,
  get_last?, ltb, ◌==◌, if◌then◌else◌,
}
use dyod_ws.Base.Text.{Str, txt, str_eq, starts_with, contains, count, has, is_space, show}
use dyod_ws.Cleanse.{CleansedLines}
use dyod_ws.Emit.Calls.{Call, report_all}
use dyod_ws.FileNames.{Os}
use dyod_ws.HeaderGuard.{get_header_guard_cpp_variable}
use dyod_ws.Nesting.Blocks.{Block, ClassInfo}
use dyod_ws.Nesting.Preprocessor.{NestingState}
use dyod_ws.Re.{
  Re, star, group, at_start, at_end, one, lit, one_of, plus, spaces, non_space, word, digit, dots,
  matches, searches, opt, ◌▹◌,
}
use dyod_ws.Report.{Report, error, report_if}
use dyod_ws.Style.Braces.{check_braces, previous_text}
use dyod_ws.Style.Calls.{check_spacing_for_function_call}
use dyod_ws.Style.Comments.{check_access}
use dyod_ws.Style.Explicit.{innermost_block}
use dyod_ws.Style.AltTokens.{check_alt_tokens}
use dyod_ws.Style.EmptyBody.{check_empty_block_body}
use dyod_ws.Style.Macros.{check_check}
use dyod_ws.Style.Operators.{check_operator_spacing}
use dyod_ws.Style.Parentheses.{check_parenthesis_spacing, check_comma_spacing}
use dyod_ws.Style.Sections.{check_section_spacing}
use dyod_ws.Style.Semicolons.{check_trailing_semicolon}
use dyod_ws.Style.Spacing.{check_spacing}
use dyod_ws.Style.Types.{check_braces_spacing}
use dyod_ws.Style.Width.{UnicodeData, get_line_width}

-- `\s*\w+\s*:\s*\\?$`, `[",=><] *$` and `^\s*""`
unfoldable pub scope_or_label_pattern : Re
unfolding plus opt
scope_or_label_pattern = spaces ▹ plus word ▹ spaces ▹ one b':' ▹ spaces ▹ opt (one b'\\') ▹ at_end

unfoldable pub continued_line : Re
unfolding one_of
continued_line = one_of "\",=><" ▹ star (one b' ') ▹ at_end

unfoldable pub raw_string_line : Re
unfolding lit
raw_string_line = at_start ▹ spaces ▹ lit "\"\""

-- `^\s*//.*http(s?)://\S*$`, `^\s*//\s*[^\s]*$` and `^// \$Id:.*#[0-9]+ \$$`
unfoldable pub url_comment : Re
unfolding lit opt
url_comment =
    at_start
    ▹ spaces
    ▹ lit "//"
    ▹ dots
    ▹ lit "http"
    ▹ group 1 (opt (one b's'))
    ▹ lit "://"
    ▹ star non_space
    ▹ at_end

unfoldable pub word_comment : Re
unfolding lit
word_comment = at_start ▹ spaces ▹ lit "//" ▹ spaces ▹ star non_space ▹ at_end

unfoldable pub id_comment : Re
unfolding lit plus
id_comment = at_start ▹ lit "// $Id:" ▹ dots ▹ one b'#' ▹ plus digit ▹ lit " $" ▹ at_end

-- `initial_spaces`
unfoldable pub initial_spaces : Str → ℕ
initial_spaces [] = 0
initial_spaces (c ∷ line) = let later = initial_spaces line in if c == b' ' then suc later else 0

-- `line and line[-1].isspace()`
ends_in_space : Str → Bool
ends_in_space line = elim (get_last? line) [ none ↦ false | some c ↦ is_space c ]

-- The line in front, or nothing for the first.
line_above : List Str → ℕ → Str
line_above lines zero = []
line_above lines (suc n) = get_or lines n []

-- Tabs, the indentation and the end of the line.
unfoldable pub layout_reports : Str → CleansedLines → ℕ → List Report
unfolding ends_in_space line_above
layout_reports filename clean_lines linenum =
    let line = get_or clean_lines.lines_without_raw_strings linenum [] in
    let prev = line_above clean_lines.lines_without_raw_strings linenum in
    report_if (has b'\t' line)
      (error filename linenum "whitespace/tab" 1 (txt "Tab found; better to use spaces"))
    ++ (report_if
          (not (searches continued_line prev)
            && (initial_spaces line == 1 || initial_spaces line == 3)
            && not (matches scope_or_label_pattern (get_or clean_lines.elided linenum []))
            && not (
                not (str_eq (get_or clean_lines.raw_lines linenum []) line)
                && matches raw_string_line line))
          (error filename linenum "whitespace/indent" 3
            (txt "Weird number of spaces at line-start.  Are you using a 2-space indent?"))
        ++ report_if (ends_in_space line) (
            error filename linenum "whitespace/end_of_line" 4
              (txt "Line ends in whitespace.  Consider deleting these extra spaces.")))

-- The line begins as one of those of a header guard.
unfoldable pub is_guard_line : Str → Str → Bool
is_guard_line cppvar line =
    starts_with (txt "#ifndef " ++ cppvar) line
    || starts_with (txt "#define " ++ cppvar) line
    || starts_with (txt "#endif  // " ++ cppvar) line

unfoldable pub width_reports : UnicodeData → ℕ → Str → Str → ℕ → Bool → List Report
width_reports u line_length filename line linenum is_header_guard =
    report_if
      (not (starts_with (txt "#include") line)
        && not is_header_guard
        && not (matches url_comment line)
        && not (matches word_comment line)
        && not (matches id_comment line)
        && ltb line_length (get_line_width u line))
      (error filename linenum "whitespace/line_length" 2
        (txt "Lines should be <= " ++ (show line_length ++ txt " characters long")))

-- More than one command on the line.
unfoldable pub command_reports : Str → List Str → ℕ → List Report
command_reports filename elided linenum =
    let line = get_or elided linenum [] in
    let above = previous_text elided linenum in
    report_if
      (ltb 1 (count (txt ";") line)
        && not (contains (txt "for") line)
        && (not (contains (txt "for") above) || contains (txt ";") above)
        && not (
            (contains (txt "case ") line || contains (txt "default:") line)
            && contains (txt "break;") line))
      (error filename linenum "whitespace/newline" 0 (txt "More than one command on the same line"))

-- The checks of `CheckSectionSpacing` in the innermost class, if there is one.
section_reports : Str → CleansedLines → ℕ → Option (Block × ClassInfo) → List Report
section_reports filename clean_lines linenum none = []
section_reports filename clean_lines linenum (some (b, info)) =
    check_section_spacing filename clean_lines b info linenum

-- Calls of which each group may be an exception, in order.
unfoldable pub in_order : List (Option (List Call)) → Option (List Call)
in_order [] = some []
in_order (none ∷ rest) = none
in_order (some calls ∷ rest) = elim (in_order rest) [
  | none ↦ none
  | some later ↦ some (calls ++ later)
]

abbrev calls_of : Option (List Report) → Option (List Call)
calls_of none = none
calls_of (some rs) = some (report_all rs)

-- `is_header_guard`; `none` is an exception.
is_header_guard : Os → (Str → Option Re) → Option Str → Str → Str → Str → Option Bool
is_header_guard os compile root filename file_extension line =
    if not (str_eq file_extension (txt "h"))
    then some false
    else elim (get_header_guard_cpp_variable os compile root filename) [
      | none ↦ none
      | some cppvar ↦ some (is_guard_line cppvar line)
    ]

-- The calls of the other checks, at the end.
other_checks : UnicodeData → ℕ → Str → CleansedLines → ℕ → NestingState → List (Option (List Call))
unfolding section_reports
other_checks u line_length filename clean_lines linenum s =
    let line = get_or clean_lines.elided linenum [] in
    calls_of (check_braces u line_length filename clean_lines linenum)
    ∷ check_trailing_semicolon filename clean_lines linenum
    ∷ calls_of (check_empty_block_body filename clean_lines linenum)
    ∷ some (report_all (check_access filename line linenum s))
    ∷ some (report_all (check_spacing filename clean_lines linenum s))
    ∷ calls_of (check_operator_spacing filename clean_lines linenum)
    ∷ some (report_all (check_parenthesis_spacing filename line linenum))
    ∷ some (report_all (check_comma_spacing filename clean_lines linenum))
    ∷ calls_of (check_braces_spacing filename clean_lines linenum s.stack)
    ∷ some (report_all (check_spacing_for_function_call filename line linenum))
    ∷ calls_of (check_check filename clean_lines linenum)
    ∷ some (report_all (check_alt_tokens filename line linenum))
    ∷ some (report_all (section_reports filename clean_lines linenum (innermost_block s.stack)))
    ∷ []

-- `CheckStyle`; `none` is an exception of one of the checks.
unfoldable pub check_style :
    Os
    → (Str → Option Re)
    → Option Str
    → UnicodeData
    → ℕ
    → Str
    → CleansedLines
    → ℕ
    → Str
    → NestingState
    → Option (List Call)
unfolding is_header_guard other_checks
check_style os compile root u line_length filename clean_lines linenum file_extension s =
    let line = get_or clean_lines.lines_without_raw_strings linenum [] in
    elim (is_header_guard os compile root filename file_extension line) [
      | none ↦ none
      | some guarded ↦ in_order (
          some (
            report_all (
              layout_reports filename clean_lines linenum
              ++ (width_reports u line_length filename line linenum guarded
                  ++ command_reports filename clean_lines.elided linenum)))
          ∷ other_checks u line_length filename clean_lines linenum s)
    ]
