-- ===== src/Style/Spacing.antt =====
-- `CheckSpacing` of cpplint.py: blank lines in blocks, comments, and some spaces.
use dyod_ws.Base.{
  ℕ, zero, suc, ◌+◌, ◌-◌, Bool, false, not, ◌&&◌, ◌||◌, none, some, List, [], ◌∷◌, ◌++◌, length,
  take, drop, get_or, get_before, ltb, if◌then◌else◌,
}
use dyod_ws.Base.Text.{Str, txt, str_eq, has, contains, lstrip, rfind, is_blank}
use dyod_ws.Cleanse.{CleansedLines}
use dyod_ws.Nesting.Preprocessor.{NestingState, in_namespace_body, in_extern_c}
use dyod_ws.Re.{
  Re, star, group, at_end, one, lit, none_of, plus, opt, words, space, spaces, word, dots, re_match,
  group_text, matches, searches, ◌▹◌, ◌∣∣◌,
}
use dyod_ws.Report.{Report, error, report_if}
use dyod_ws.Style.Comments.{check_comment}

-- ` {6}\w`
unfoldable pub initializer : Re
unfolding lit
initializer = lit "      " ▹ word

-- ` {4}\w[^\(]*\)\s*(const\s*)?(\{\s*$|:)` and ` {4}:`
unfoldable pub function_head : Re
unfolding lit none_of opt
function_head =
    lit "    "
    ▹ word
    ▹ star (none_of "(")
    ▹ one b')'
    ▹ spaces
    ▹ opt (group 1 (lit "const" ▹ spaces))
    ▹ group 2 ((one b'{' ▹ spaces ▹ at_end) ∣∣ one b':')

unfoldable pub colon_head : Re
unfolding lit
colon_head = lit "    :"

-- `\s*}` and `\s*(public|protected|private):`
unfoldable pub block_end : Re
block_end = spaces ▹ one b'}'

unfoldable pub access_label : Re
unfolding words
access_label = spaces ▹ group 1 (words ("public" ∷ "protected" ∷ "private" ∷ [])) ▹ one b':'

-- The loop up over an initializer list, over the first `n` lines from the last of them; whether it
-- stops at a line that begins with `    :`.
unfoldable pub starts_initializers : List Str → ℕ → Bool
starts_initializers elided zero = false
starts_initializers elided (suc i) =
    let above = starts_initializers elided i in
    let line = get_or elided i [] in
    if matches initializer line then above else str_eq (take 5 line) (txt "    :")

-- `exception`
unfoldable pub is_exception : List Str → ℕ → Str → Bool
unfolding function_head colon_head
is_exception elided linenum prev_line =
    if matches initializer prev_line
    then starts_initializers elided (linenum - 1)
    else matches function_head prev_line || matches colon_head prev_line

-- The previous line ends in a block that it opens.
opens_block : Str → Bool
opens_block prev_line = elim (rfind b'{' prev_line) [
  | none ↦ false
  | some prevbrace ↦ not (has b'}' (drop prevbrace prev_line))
]

label_reports : Str → ℕ → Str → List Report
label_reports filename linenum prev_line = elim (re_match access_label prev_line) [
  | none ↦ []
  | some m ↦
      error filename linenum "whitespace/blank_line" 3
        (txt "Do not leave a blank line after \"" ++ (group_text 1 m ++ txt ":\""))
]

-- `next_line` is empty where there is none.
unfoldable pub closes_block : Str → Bool
unfolding block_end
closes_block next_line =
    ltb 0 (length next_line)
    && matches block_end next_line
    && not (contains (txt "} else ") next_line)

-- The reports on a blank line.
unfoldable pub blank_reports : Str → CleansedLines → ℕ → List Report
unfolding opens_block label_reports
blank_reports filename clean_lines linenum =
    let elided = clean_lines.elided in
    let prev_line = get_before elided linenum [] in
    report_if (opens_block prev_line && not (is_exception elided linenum prev_line)) (
      error filename linenum "whitespace/blank_line" 2
        (txt "Redundant blank line at the start of a code block should be deleted."))
    ++ (report_if
          (ltb (linenum + 1) clean_lines.num_lines
            && closes_block (get_or clean_lines.lines_without_raw_strings (linenum + 1) []))
          (error filename linenum "whitespace/blank_line" 3
            (txt "Redundant blank line at the end of a code block should be deleted."))
        ++ label_reports filename linenum prev_line)

-- `next_line_start`
next_line_start : CleansedLines → ℕ → ℕ
next_line_start clean_lines linenum =
    let next_line = get_or clean_lines.lines_without_raw_strings (linenum + 1) [] in
    if ltb (linenum + 1) clean_lines.num_lines
    then length next_line - length (lstrip next_line)
    else 0

-- `\w\s+\[`, `(?:delete|return)\s+\[`, `for *\(.*[^:]:[^: ]` and `for *\(.*[^: ]:[^:]`
unfoldable pub space_before_bracket : Re
unfolding plus
space_before_bracket = word ▹ plus space ▹ one b'['

unfoldable pub delete_bracket : Re
unfolding plus words
delete_bracket = words ("delete" ∷ "return" ∷ []) ▹ plus space ▹ one b'['

unfoldable pub colon_no_space_after : Re
unfolding lit none_of
colon_no_space_after =
    lit "for" ▹ star (one b' ') ▹ one b'(' ▹ dots ▹ none_of ":" ▹ one b':' ▹ none_of ": "

unfoldable pub colon_no_space_before : Re
unfolding lit none_of
colon_no_space_before =
    lit "for" ▹ star (one b' ') ▹ one b'(' ▹ dots ▹ none_of ": " ▹ one b':' ▹ none_of ":"

-- `CheckSpacing`
unfoldable pub check_spacing : Str → CleansedLines → ℕ → NestingState → List Report
unfolding next_line_start
check_spacing filename clean_lines linenum s =
    let raw = get_or clean_lines.lines_without_raw_strings linenum [] in
    let line = get_or clean_lines.elided linenum [] in
    report_if (is_blank raw && not (in_namespace_body s) && not (in_extern_c s))
      (blank_reports filename clean_lines linenum)
    ++ (check_comment raw filename linenum (next_line_start clean_lines linenum)
        ++ (report_if (searches space_before_bracket line && not (searches delete_bracket line))
              (error filename linenum "whitespace/braces" 5 (txt "Extra space before ["))
            ++ report_if (searches colon_no_space_after line || searches colon_no_space_before line)
                (error filename linenum "whitespace/forcolon" 2
                  (txt "Missing space around colon in range-based for loop"))))
