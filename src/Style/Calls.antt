-- ===== src/Style/Calls.antt =====
-- `CheckSpacingForFunctionCall` of cpplint.py: spaces around the parentheses of a call.
use dyod_ws.Base.{ℕ, Bool, not, ◌&&◌, none, some, List, [], ◌∷◌, ◌++◌, String, if◌then◌else◌}
use dyod_ws.Base.Text.{Str, txt}
use dyod_ws.Re.{
  Re, star, group, at_start, at_end, boundary, not_ahead, except, one, lit, one_of, none_of, plus,
  opt, words, space, spaces, word, space_ranges, single, dots, re_search, group_text, searches, ◌▹◌,
  ◌∣∣◌,
}
use dyod_ws.Report.{Report, error, report_if}

-- `\bNAME\s*\((.*)\)\s*END`
abbrev control : String → Re → Re
unfolding lit
control name end = boundary ▹ lit name ▹ spaces ▹ one b'(' ▹ group 1 dots ▹ one b')' ▹ spaces ▹ end

abbrev pub controls : List Re
unfolding one_of control
controls =
    control "if" (one b'{')
    ∷ control "for" (one b'{')
    ∷ control "while" (one_of "{;")
    ∷ control "switch" (one b'{')
    ∷ []

-- What is inside the first control structure that fits, or the whole line.
unfoldable pub inside_control : List Re → Str → Str
inside_control [] line = line
inside_control (pattern ∷ rest) line = elim (re_search pattern line) [
  | some m ↦ group_text 1 m
  | none ↦ inside_control rest line
]

-- `\b(if|for|while|switch|return|new|delete|catch|sizeof)\b`
unfoldable pub keyword : Re
unfolding words
keyword =
    boundary
    ▹ group 1 (
        words (
          "if" ∷ "for" ∷ "while" ∷ "switch" ∷ "return" ∷ "new" ∷ "delete" ∷ "catch" ∷ "sizeof"
          ∷ []))
    ▹ boundary

-- ` \([^)]+\)\([^)]*(\)|,$)` and ` \([^)]+\)\[[^\]]+\]`
unfoldable pub function_pointer : Re
unfolding lit plus none_of
function_pointer =
    lit " ("
    ▹ plus (none_of ")")
    ▹ lit ")("
    ▹ star (none_of ")")
    ▹ group 1 (one b')' ∣∣ (one b',' ▹ at_end))

unfoldable pub array_reference : Re
unfolding lit plus none_of
array_reference = lit " (" ▹ plus (none_of ")") ▹ lit ")[" ▹ plus (none_of "]") ▹ one b']'

-- `\w\s*\(\s(?!\s*\\$)` and `\(\s+(?!(\s*\\)|\()`
unfoldable pub space_after_call : Re
space_after_call = word ▹ spaces ▹ one b'(' ▹ space ▹ not_ahead (spaces ▹ one b'\\' ▹ at_end)

unfoldable pub space_after : Re
unfolding plus
space_after = one b'(' ▹ plus space ▹ not_ahead (group 1 (spaces ▹ one b'\\') ∣∣ one b'(')

-- `\w\s+\(`
unfoldable pub space_before : Re
unfolding plus
space_before = word ▹ plus space ▹ one b'('

-- `_{0,2}`
abbrev underscores : Re
unfolding opt
underscores = opt (one b'_') ▹ opt (one b'_')

-- `_{0,2}asm_{0,2}\s+_{0,2}volatile_{0,2}\s+\(`
unfoldable pub asm_volatile : Re
unfolding lit plus underscores
asm_volatile =
    underscores
    ▹ lit "asm"
    ▹ underscores
    ▹ plus space
    ▹ underscores
    ▹ lit "volatile"
    ▹ underscores
    ▹ plus space
    ▹ one b'('

-- `#\s*define|typedef|using\s+\w+\s*=`
unfoldable pub definition : Re
unfolding lit plus
definition =
    (one b'#' ▹ spaces ▹ lit "define")
    ∣∣ (lit "typedef" ∣∣ (lit "using" ▹ plus space ▹ plus word ▹ spaces ▹ one b'='))

-- `\w\s+\((\w+::)*\*\w+\)\(`
unfoldable pub pointer_declaration : Re
unfolding lit plus
pointer_declaration =
    word
    ▹ plus space
    ▹ one b'('
    ▹ star (group 1 (plus word ▹ lit "::"))
    ▹ one b'*'
    ▹ plus word
    ▹ lit ")("

-- `\bcase\s+\(` and `\boperator_*\b`
unfoldable pub case_label : Re
unfolding lit plus
case_label = boundary ▹ lit "case" ▹ plus space ▹ one b'('

unfoldable pub operator_word : Re
unfolding lit
operator_word = boundary ▹ lit "operator" ▹ star (one b'_') ▹ boundary

-- `[^)]\s+\)\s*[^{\s]` and `^\s+\)`
unfoldable pub space_before_close : Re
unfolding plus none_of
space_before_close =
    none_of ")" ▹ plus space ▹ one b')' ▹ spaces ▹ except (single b'{' ∷ space_ranges)

unfoldable pub close_first : Re
unfolding plus
close_first = at_start ▹ plus space ▹ one b')'

-- The reports on the opening parenthesis.
after_open : Str → ℕ → Str → List Report
after_open filename linenum fncall =
    if searches space_after_call fncall
    then error filename linenum "whitespace/parens" 4 (txt "Extra space after ( in function call")
    else report_if (searches space_after fncall)
        (error filename linenum "whitespace/parens" 2 (txt "Extra space after ("))

before_open : Str → ℕ → Str → Str → List Report
before_open filename linenum line fncall =
    report_if
      (searches space_before fncall
        && not (searches asm_volatile fncall)
        && not (searches definition fncall)
        && not (searches pointer_declaration fncall)
        && not (searches case_label fncall))
      (error filename linenum "whitespace/parens" (if searches operator_word line then 0 else 4)
        (txt "Extra space before ( in function call"))

before_close : Str → ℕ → Str → List Report
before_close filename linenum fncall = report_if (searches space_before_close fncall) (
    if searches close_first fncall
    then error filename linenum "whitespace/parens" 2
        (txt "Closing ) should be moved to the previous line")
    else error filename linenum "whitespace/parens" 2 (txt "Extra space before )"))

-- The condition under which a text is looked at.
unfoldable pub is_call : Str → Bool
is_call fncall =
    not (searches keyword fncall)
    && not (searches function_pointer fncall)
    && not (searches array_reference fncall)

-- `CheckSpacingForFunctionCall`, on the elided line.
unfoldable pub check_spacing_for_function_call : Str → Str → ℕ → List Report
unfolding after_open before_open before_close
check_spacing_for_function_call filename line linenum =
    let fncall = inside_control controls line in
    report_if (is_call fncall) (
      after_open filename linenum fncall
      ++ (before_open filename linenum line fncall ++ before_close filename linenum fncall))
