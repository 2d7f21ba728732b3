-- ===== src/Style/Sections.antt =====
-- `CheckSectionSpacing`, `GetPreviousNonBlankLine` and `IsDecltype` of cpplint.py.
pub mod Previous
use dyod_ws.Base.{
  ℕ, zero, suc, ◌+◌, ◌-◌, Bool, true, false, not, ◌&&◌, ◌||◌, Option, none, some, List, [], ◌∷◌,
  ◌++◌, take, drop, get_or, get_before, leb, ltb, if◌then◌else◌,
}
use dyod_ws.Base.Text.{Str, txt, is_blank}
use dyod_ws.Brackets.Backward.{reverse_close_expression}
use dyod_ws.Cleanse.{CleansedLines}
use dyod_ws.Nesting.Blocks.{Block, ClassInfo}
use dyod_ws.Re.{
  Re, seq, star, group, at_end, boundary, one, lit, words, spaces, re_match, group_text, searches,
  ◌▹◌,
}
use dyod_ws.Report.{Report, error, report_if}
use dyod_ws.Style.Spacing.{access_label}

-- `\b(class|struct)\b`, `\\$` and `\{\s*$`
unfoldable pub class_word : Re
unfolding words
class_word = boundary ▹ group 1 (words ("class" ∷ "struct" ∷ [])) ▹ boundary

unfoldable pub backslash_end : Re
backslash_end = one b'\\' ▹ at_end

unfoldable pub open_brace_end : Re
open_brace_end = one b'{' ▹ spaces ▹ at_end

-- The first of the lines, which begin at number `i`, that ends in a brace; or `start`.
class_head_from : ℕ → ℕ → List Str → ℕ
class_head_from start i [] = start
class_head_from start i (line ∷ rest) =
    let later = class_head_from start (i + 1) rest in
    if searches open_brace_end line then i else later

-- `end_class_head`
unfoldable pub end_class_head : ℕ → ℕ → List Str → ℕ
unfolding class_head_from
end_class_head starting_linenum linenum lines =
    class_head_from starting_linenum starting_linenum
      (take (linenum - starting_linenum) (drop starting_linenum lines))

-- The line in front of the label wants no blank line before the label.
unfoldable pub is_separate : Str → Bool
is_separate prev_line =
    is_blank prev_line || searches class_word prev_line || searches backslash_end prev_line

-- `CheckSectionSpacing`, for the class of a block.
unfoldable pub check_section_spacing : Str → CleansedLines → Block → ClassInfo → ℕ → List Report
check_section_spacing filename clean_lines b info linenum =
    let lines = clean_lines.lines in
    if leb info.last_line (24 + b.starting_linenum) || leb linenum b.starting_linenum
    then []
    else elim (re_match access_label (get_or lines linenum [])) [
      | none ↦ []
      | some m ↦
          report_if
            (not (is_separate (get_before lines linenum []))
              && ltb (end_class_head b.starting_linenum linenum lines) (linenum - 1))
            (error filename linenum "whitespace/blank_line" 3
              (txt "\"" ++ (group_text 1 m ++ txt ":\" should be preceded by a blank line")))
    ]

-- `GetPreviousNonBlankLine`: the last of the first `linenum` lines that is not blank, and its number.
-- The calls pass the number of a line of the file; one past the end would be an `IndexError`.
unfoldable pub get_previous_non_blank_line : List Str → ℕ → Option (Str × ℕ)
get_previous_non_blank_line elided zero = none
get_previous_non_blank_line elided (suc prevlinenum) =
    let above = get_previous_non_blank_line elided prevlinenum in
    let prevline = get_or elided prevlinenum [] in
    if not (is_blank prevline) then some (prevline, prevlinenum) else above

-- `\bdecltype\s*$`
unfoldable pub decltype_end : Re
unfolding lit
decltype_end = boundary ▹ lit "decltype" ▹ spaces ▹ at_end

-- `IsDecltype`; `none` is an exception of `ReverseCloseExpression`.
unfoldable pub is_decltype : CleansedLines → ℕ → ℕ → Option Bool
is_decltype clean_lines linenum column =
    elim (reverse_close_expression clean_lines linenum column) [
      | none ↦ none
      | some p ↦ some (elim p.pos [
        | none ↦ false
        | some start_col ↦ searches decltype_end (take start_col p.line)
      ])
    ]
