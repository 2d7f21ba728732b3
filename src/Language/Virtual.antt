-- ===== src/Language/Virtual.antt =====
-- `CheckMakePairUsesDeduction`, `CheckRedundantVirtual` and `CheckRedundantOverrideOrFinal` of cpplint.py.
use dyod_ws.Base.{
  ℕ, ◌+◌, ◌-◌, Bool, ◌&&◌, ◌||◌, Option, none, some, List, [], ◌∷◌, ◌++◌, length, take, drop,
  get_or, ltb, if◌then◌else◌,
}
use dyod_ws.Base.Text.{Str, txt, has, rfind}
use dyod_ws.Brackets.Forward.{close_expression}
use dyod_ws.Cleanse.{CleansedLines}
use dyod_ws.Re.{
  Re, star, group, at_start, at_end, boundary, one, lit, none_of, plus, words, space, spaces,
  non_word, dots, Found, re_match, re_search, group_text, matches, searches, ◌▹◌,
}
use dyod_ws.Report.{Report, error, report_if}

-- `_RE_PATTERN_EXPLICIT_MAKEPAIR`
unfoldable pub explicit_make_pair : Re
unfolding lit
explicit_make_pair = boundary ▹ lit "make_pair" ▹ spaces ▹ one b'<'

-- `CheckMakePairUsesDeduction`, on the elided line.
unfoldable pub check_make_pair_uses_deduction : Str → Str → ℕ → List Report
check_make_pair_uses_deduction filename line linenum =
    report_if (searches explicit_make_pair line) (
      error filename linenum "build/explicit_make_pair" 4 (
        txt "For C++11-compatibility, omit template arguments from make_pair"
        ++ txt " OR use pair directly OR if appropriate, construct a pair directly"))

-- `^(.*)(\bvirtual\b)(.*)$`
unfoldable pub virtual_line : Re
unfolding lit
virtual_line =
    at_start ▹ group 1 dots ▹ group 2 (boundary ▹ lit "virtual" ▹ boundary) ▹ group 3 dots ▹ at_end

-- `\b(public|protected|private)\s+$` and `^\s+(public|protected|private)\b`
unfoldable pub access_before : Re
unfolding words plus
access_before =
    boundary ▹ group 1 (words ("public" ∷ "protected" ∷ "private" ∷ [])) ▹ plus space ▹ at_end

unfoldable pub access_behind : Re
unfolding words plus
access_behind =
    at_start ▹ plus space ▹ group 1 (words ("public" ∷ "protected" ∷ "private" ∷ [])) ▹ boundary

-- `^.*[^:]:[^:].*$`, `^([^(]*)\(`, `\b(override|final)\b` and `[^\w]\s*$`
unfoldable pub base_clause : Re
unfolding none_of
base_clause = at_start ▹ dots ▹ none_of ":" ▹ one b':' ▹ none_of ":" ▹ dots ▹ at_end

unfoldable pub parameters_start : Re
unfolding none_of
parameters_start = at_start ▹ group 1 (star (none_of "(")) ▹ one b'('

unfoldable pub override_or_final : Re
unfolding words
override_or_final = boundary ▹ group 1 (words ("override" ∷ "final" ∷ [])) ▹ boundary

unfoldable pub symbol_at_end : Re
symbol_at_end = non_word ▹ spaces ▹ at_end

-- The `virtual` belongs to a base class.
unfoldable pub is_virtual_base : Str → Found → Bool
is_virtual_base line m =
    searches access_before (group_text 1 m)
    || matches access_behind (group_text 3 m)
    || matches base_clause line

-- The first parenthesis on the lines, of which the first, number `start_line`, is looked at from `start_col`
-- on.
unfoldable pub find_parameters : List Str → ℕ → ℕ → Option (ℕ × ℕ)
find_parameters [] start_line start_col = none
find_parameters (line ∷ lines) start_line start_col =
    let later = find_parameters lines (start_line + 1) 0 in
    elim (re_match parameters_start (drop start_col line)) [
      | some m ↦ some (start_line, start_col + length (group_text 1 m))
      | none ↦ later
    ]

-- The reports on the lines behind the parameters, the first from `end_col` on.
unfoldable pub override_reports : Str → ℕ → List Str → ℕ → List Report
override_reports filename linenum [] end_col = []
override_reports filename linenum (line ∷ lines) end_col =
    let later = override_reports filename linenum lines 0 in
    (elim (re_search override_or_final (drop end_col line)) [
      | none ↦ []
      | some m ↦ error filename linenum "readability/inheritance" 4 (
          txt "\"virtual\" is redundant since function is already declared as \""
          ++ (group_text 1 m ++ txt "\""))
    ])
    ++ (if searches symbol_at_end (drop end_col line) then [] else later)

on_parameters : Str → CleansedLines → ℕ → Option (ℕ × ℕ) → Option (List Report)
on_parameters filename clean_lines linenum none = some []
on_parameters filename clean_lines linenum (some (start_line, col)) =
    elim (close_expression clean_lines start_line col) [
      | none ↦ none
      | some p ↦ some (elim p.pos [
        | none ↦ []
        | some end_col ↦
            override_reports filename linenum (take 3 (drop p.linenum clean_lines.elided)) end_col
      ])
    ]

-- `CheckRedundantVirtual`; `none` is an exception of `CloseExpression`.
unfoldable pub check_redundant_virtual : Str → CleansedLines → ℕ → Option (List Report)
unfolding on_parameters
check_redundant_virtual filename clean_lines linenum =
    let line = get_or clean_lines.elided linenum [] in
    elim (re_match virtual_line line) [
      | none ↦ some []
      | some m ↦
          if is_virtual_base line m
          then some []
          else on_parameters filename clean_lines linenum (
              find_parameters (take 3 (drop linenum clean_lines.elided)) linenum
                (length (group_text 2 m)))
    ]

-- `\boverride\b` and `\bfinal\b`
unfoldable pub override_word : Re
unfolding lit
override_word = boundary ▹ lit "override" ▹ boundary

unfoldable pub final_word : Re
unfolding lit
final_word = boundary ▹ lit "final" ▹ boundary

-- `fragment`: the part of the line behind the declarator, if there is one on it or on the line above.
unfoldable pub specifiers : List Str → ℕ → Option Str
specifiers elided linenum =
    let line = get_or elided linenum [] in
    elim (rfind b')' line) [
      | some declarator_end ↦ some (drop declarator_end line)
      | none ↦
          if ltb 1 linenum && has b')' (get_or elided (linenum - 1) []) then some line else none
    ]

-- `CheckRedundantOverrideOrFinal`
unfoldable pub check_redundant_override_or_final : Str → CleansedLines → ℕ → List Report
check_redundant_override_or_final filename clean_lines linenum =
    elim (specifiers clean_lines.elided linenum) [
      | none ↦ []
      | some fragment ↦
          report_if (searches override_word fragment && searches final_word fragment) (
            error filename linenum "readability/inheritance" 4
              (txt "\"override\" is redundant since function is already declared as \"final\""))
    ]
