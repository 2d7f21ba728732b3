-- ===== src/Style/EmptyBody.antt =====
-- `CheckEmptyBlockBody` of cpplint.py.
use dyod_ws.Base.{
  ℕ, ◌+◌, ◌-◌, Bool, true, false, not, ◌&&◌, Option, none, some, List, [], ◌∷◌, ◌++◌, take, drop,
  get_or, ltb, ◌==◌, if◌then◌else◌,
}
use dyod_ws.Base.Text.{Str, txt, str_eq, find, join}
use dyod_ws.Brackets.Forward.{Position, close_expression}
use dyod_ws.Cleanse.{CleansedLines}
use dyod_ws.Cleanse.Comments.{cleanse_comments}
use dyod_ws.Re.{
  Re, group, at_start, at_end, ahead, not_ahead, one, lit, words, spaces, re_match, group_text,
  matches, searches, ◌▹◌, ◌∣∣◌,
}
use dyod_ws.Report.{Report, error, report_if}

-- `\s*(for|while|if)\s*\(`, `^\s*\{` and `^(?!\s*$)`
unfoldable pub loop_or_if : Re
unfolding words
loop_or_if = spaces ▹ group 1 (words ("for" ∷ "while" ∷ "if" ∷ [])) ▹ spaces ▹ one b'('

unfoldable pub opens_body : Re
opens_body = at_start ▹ spaces ▹ one b'{'

unfoldable pub not_blank : Re
not_blank = at_start ▹ not_ahead (spaces ▹ at_end)

-- `_EMPTY_CONDITIONAL_BODY_PATTERN`, `^\s*$|^(?=\s*else)` and `^(?=\s*else)`
unfoldable pub empty_body : Re
empty_body = at_start ▹ spaces ▹ at_end

unfoldable pub else_ahead : Re
unfolding lit
else_ahead = at_start ▹ ahead (spaces ▹ lit "else")

unfoldable pub blank_or_else : Re
blank_or_else = (at_start ▹ spaces ▹ at_end) ∣∣ else_ahead

-- The loop to the line with the opening brace: its number, and the part of it that is looked at. `rest`
-- has the lines behind the one with this number.
unfoldable pub find_opening : ℕ → Str → List Str → Option (ℕ × Str)
find_opening linenum fragment [] =
    if searches opens_body fragment then some (linenum, fragment) else none
find_opening linenum fragment (line ∷ rest) =
    let later = find_opening (linenum + 1) line rest in
    if searches opens_body fragment
    then some (linenum, fragment)
    else if searches not_blank fragment
    then none
    else later

-- The loop over blank lines behind the block: whether it ends at an `else`.
unfoldable pub followed_by_else : Str → List Str → Bool
followed_by_else fragment [] = searches blank_or_else fragment && searches else_ahead fragment
followed_by_else fragment (line ∷ rest) =
    let later = followed_by_else line rest in
    if not (searches blank_or_else fragment)
    then false
    else if searches else_ahead fragment
    then true
    else later

characters : Str → List Str
characters [] = []
characters (c ∷ s) = (c ∷ []) ∷ characters s

-- The text between the braces: `opening_pos` is that of the opening one, `closing_pos` behind the closing
-- one.
unfoldable pub body_text : CleansedLines → Str → ℕ → ℕ → ℕ → ℕ → Str
unfolding characters
body_text clean_lines opening_line opening_linenum opening_pos closing_linenum closing_pos =
    if ltb opening_linenum closing_linenum
    then join (txt "\n") (
        characters (drop (opening_pos + 1) opening_line)
        ++ (take (closing_linenum - (opening_linenum + 1))
              (drop (opening_linenum + 1) clean_lines.raw_lines)
            ++ (take (closing_pos - 1) (get_or clean_lines.elided closing_linenum []) ∷ [])))
    else take (closing_pos - 1 - (opening_pos + 1)) (drop (opening_pos + 1) opening_line)

-- The part behind the search for the closing brace, which `closing` is the position behind.
if_body_reports : Str → CleansedLines → ℕ → ℕ → ℕ → Position → List Report
if_body_reports filename clean_lines end_linenum opening_linenum opening_pos closing =
    let raw = get_or clean_lines.raw_lines opening_linenum [] in
    elim closing.pos [
      | none ↦ []
      | some closing_pos ↦
          report_if
            (str_eq raw (cleanse_comments raw)
              && searches empty_body (
                  body_text clean_lines (get_or clean_lines.elided opening_linenum [])
                    opening_linenum opening_pos closing.linenum closing_pos)
              && not (
                  followed_by_else (drop closing_pos closing.line)
                    (drop (closing.linenum + 1) clean_lines.elided)))
            (error filename end_linenum "whitespace/empty_if_body" 4
              (txt "If statement had no body and no else clause"))
    ]

-- The position of the brace in its line, where the line with the condition's end is cut at `end_pos`.
brace_pos : ℕ → ℕ → ℕ → Str → ℕ
brace_pos opening_linenum end_linenum end_pos fragment =
    (elim (find (txt "{") fragment) [ none ↦ 0 | some i ↦ i ])
    + (if opening_linenum == end_linenum then end_pos else 0)

empty_if : Str → CleansedLines → Str → ℕ → ℕ → Option (List Report)
unfolding if_body_reports brace_pos
empty_if filename clean_lines end_line end_linenum end_pos =
    elim (find_opening end_linenum (drop end_pos end_line)
      (drop (end_linenum + 1) clean_lines.elided)) [
        | none ↦ some []
        | some (opening_linenum, fragment) ↦
            let opening_pos = brace_pos opening_linenum end_linenum end_pos fragment in
            elim (close_expression clean_lines opening_linenum opening_pos) [
              | none ↦ none
              | some closing ↦ some (
                  if_body_reports filename clean_lines end_linenum opening_linenum opening_pos
                    closing)
            ]
      ]

-- A semicolon behind the condition.
semicolon_body : Str → ℕ → Bool → List Report
semicolon_body filename end_linenum true =
    error filename end_linenum "whitespace/empty_conditional_body" 5
      (txt "Empty conditional bodies should use {}")
semicolon_body filename end_linenum false =
    error filename end_linenum "whitespace/empty_loop_body" 5
      (txt "Empty loop bodies should use {} or continue")

on_condition : Str → CleansedLines → Bool → Position → Option (List Report)
unfolding empty_if semicolon_body
on_condition filename clean_lines is_if p = elim p.pos [
  | none ↦ some []
  | some end_pos ↦
      let first =
        report_if (matches (one b';') (drop end_pos p.line))
          (semicolon_body filename p.linenum is_if) in
      elim (if is_if then empty_if filename clean_lines p.line p.linenum end_pos else some []) [
        | none ↦ none
        | some rs ↦ some (first ++ rs)
      ]
]

-- `CheckEmptyBlockBody`; `none` is an exception of `CloseExpression`.
unfoldable pub check_empty_block_body : Str → CleansedLines → ℕ → Option (List Report)
unfolding on_condition
check_empty_block_body filename clean_lines linenum =
    let line = get_or clean_lines.elided linenum [] in
    elim (re_match loop_or_if line) [
      | none ↦ some []
      | some m ↦ elim (find (txt "(") line) [
        | none ↦ some []
        | some pos ↦ elim (close_expression clean_lines linenum pos) [
          | none ↦ none
          | some p ↦ on_condition filename clean_lines (str_eq (group_text 1 m) (txt "if")) p
        ]
      ]
    ]
