-- ===== src/Style/Parentheses.antt =====
-- `CheckParenthesisSpacing` and `CheckCommaSpacing` of cpplint.py.
use dyod_ws.Base.{
  ℕ, ◌+◌, Bool, not, ◌&&◌, ◌||◌, none, some, List, [], ◌∷◌, ◌++◌, length, get_or, leb, ◌==◌,
}
use dyod_ws.Base.Text.{Str, txt, str_eq}
use dyod_ws.Cleanse.{CleansedLines}
use dyod_ws.Re.{
  Re, except, star, group, at_end, boundary, one, lit, none_of, plus, words, spaces, space_ranges,
  single, dot, dots, Found, re_search, re_sub, group_text, searches, ◌▹◌,
}
use dyod_ws.Report.{Report, error, report_if}

-- ` (if\(|for\(|while\(|switch\()`
unfoldable pub tight_control : Re
unfolding words
tight_control = one b' ' ▹ group 1 (words ("if(" ∷ "for(" ∷ "while(" ∷ "switch(" ∷ []))

-- `\b(if|for|while|switch)\s*\(([ ]*)(.).*[^ ]+([ ]*)\)\s*{\s*$`
unfoldable pub control_line : Re
unfolding words plus none_of
control_line =
    boundary
    ▹ group 1 (words ("if" ∷ "for" ∷ "while" ∷ "switch" ∷ []))
    ▹ spaces
    ▹ one b'('
    ▹ group 2 (star (one b' '))
    ▹ group 3 dot
    ▹ dots
    ▹ plus (none_of " ")
    ▹ group 4 (star (one b' '))
    ▹ one b')'
    ▹ spaces
    ▹ one b'{'
    ▹ spaces
    ▹ at_end

-- `\bfor\s*\(.*; \)`
unfoldable pub for_without_step : Re
unfolding lit
for_without_step = boundary ▹ lit "for" ▹ spaces ▹ one b'(' ▹ dots ▹ lit "; )"

-- The two kinds of `for` in which the spaces may differ.
unfoldable pub may_differ : Str → Found → Bool
unfolding for_without_step
may_differ line m =
    (str_eq (group_text 3 m) (txt ";") && length (group_text 2 m) == 1 + length (group_text 4 m))
    || (length (group_text 2 m) == 0 && searches for_without_step line)

inside_reports : Str → Str → ℕ → Found → List Report
inside_reports filename line linenum m =
    report_if (not (length (group_text 2 m) == length (group_text 4 m)) && not (may_differ line m))
      (error filename linenum "whitespace/parens" 5
        (txt "Mismatching spaces inside () in " ++ group_text 1 m))
    ++ report_if (not (leb (length (group_text 2 m)) 1)) (
        error filename linenum "whitespace/parens" 5
          (txt "Should have zero or one spaces inside ( and ) in " ++ group_text 1 m))

-- `CheckParenthesisSpacing`, on the elided line.
unfoldable pub check_parenthesis_spacing : Str → Str → ℕ → List Report
unfolding inside_reports
check_parenthesis_spacing filename line linenum =
    (elim (re_search tight_control line) [
      | none ↦ []
      | some m ↦
          error filename linenum "whitespace/parens" 5
            (txt "Missing space before ( in " ++ group_text 1 m)
    ])
    ++ (elim (re_search control_line line) [
      | none ↦ []
      | some m ↦ inside_reports filename line linenum m
    ])

-- `,[^,\s]`, `\boperator\s*,\s*\(` and `;[^\s};\\)/]`
unfoldable pub tight_comma : Re
tight_comma = one b',' ▹ except (single b',' ∷ space_ranges)

unfoldable pub operator_comma : Re
unfolding lit
operator_comma = boundary ▹ lit "operator" ▹ spaces ▹ one b',' ▹ spaces ▹ one b'('

unfoldable pub tight_semicolon : Re
tight_semicolon =
    one b';'
    ▹ except (single b'}' ∷ single b';' ∷ single b'\\' ∷ single b')' ∷ single b'/' ∷ space_ranges)

-- `CheckCommaSpacing`
unfoldable pub check_comma_spacing : Str → CleansedLines → ℕ → List Report
check_comma_spacing filename clean_lines linenum =
    let raw = get_or clean_lines.lines_without_raw_strings linenum [] in
    let line = get_or clean_lines.elided linenum [] in
    report_if
      (searches tight_comma (re_sub operator_comma (λ m. txt "F(") line)
        && searches tight_comma raw)
      (error filename linenum "whitespace/comma" 3 (txt "Missing space after ,"))
    ++ report_if (searches tight_semicolon line)
        (error filename linenum "whitespace/semicolon" 3 (txt "Missing space after ;"))
