-- ===== src/Style/Comments.antt =====
-- `CheckComment` and `CheckAccess` of cpplint.py.
use dyod_ws.Base.{
  ℕ, ◌-◌, ◌%◌, Bool, true, not, ◌&&◌, ◌||◌, Option, none, some, List, [], ◌∷◌, ◌++◌, length, take,
  drop, get_or, leb, ltb, ◌==◌,
}
use dyod_ws.Base.Text.{Str, txt, str_eq, find, count, is_space}
use dyod_ws.Nesting.Blocks.{Block, class_info}
use dyod_ws.Nesting.Preprocessor.{NestingState}
use dyod_ws.Nolint.{truthy}
use dyod_ws.Re.{
  Re, star, lazy, group, at_start, at_end, one, lit, none_of, plus, opt, words, space, spaces, word,
  dot, dots, Found, re_match, re_sub, group_of, group_text, matches, ◌▹◌, ◌∣∣◌,
}
use dyod_ws.Report.{Report, error, report_if}

-- `_RE_PATTERN_TODO`
unfoldable pub todo_pattern : Re
unfolding lit opt
todo_pattern =
    at_start
    ▹ lit "//"
    ▹ group 1 spaces
    ▹ lit "TODO"
    ▹ opt (group 2 (one b'(' ▹ dot ▹ lazy dot ▹ one b')'))
    ▹ opt (one b':')
    ▹ opt (group 3 (space ∣∣ at_end))

-- `\\.`, `^.*{ *//`, `//[^ ]*\w` and `(///|//\!)(\s+|$)`
unfoldable pub escape : Re
escape = one b'\\' ▹ dot

unfoldable pub brace_comment : Re
unfolding lit
brace_comment = at_start ▹ dots ▹ one b'{' ▹ star (one b' ') ▹ lit "//"

unfoldable pub tight_comment : Re
unfolding lit none_of
tight_comment = lit "//" ▹ star (none_of " ") ▹ word

unfoldable pub doc_comment : Re
unfolding lit plus
doc_comment = group 1 (lit "///" ∣∣ lit "//!") ▹ group 2 (plus space ∣∣ at_end)

-- Code stands less than two spaces in front of the comment.
unfoldable pub too_near : Str → ℕ → Bool
too_near line commentpos =
    (leb 1 commentpos && not (is_space (get_or line (commentpos - 1) 0)))
    || (leb 2 commentpos && not (is_space (get_or line (commentpos - 2) 0)))

-- `middle_whitespace != ' ' and middle_whitespace != ''`, where the group may have taken no part.
is_odd_middle : Option Str → Bool
is_odd_middle none = true
is_odd_middle (some s) = not (str_eq s (txt " ")) && not (str_eq s [])

todo_reports : Str → ℕ → Option Found → List Report
unfolding is_odd_middle
todo_reports filename linenum none = []
todo_reports filename linenum (some m) =
    report_if (ltb 1 (length (group_text 1 m)))
      (error filename linenum "whitespace/todo" 2 (txt "Too many spaces before TODO"))
    ++ (report_if (not (truthy (group_of 2 m))) (
          error filename linenum "readability/todo" 2
            (txt "Missing username in TODO; it should look like \"// TODO(my_username): Stuff.\""))
        ++ report_if (is_odd_middle (group_of 3 m)) (
            error filename linenum "whitespace/todo" 2
              (txt "TODO(my_username) should be followed by a space")))

comment_reports : Str → ℕ → Str → List Report
unfolding todo_reports
comment_reports filename linenum comment =
    todo_reports filename linenum (re_match todo_pattern comment)
    ++ report_if (matches tight_comment comment && not (matches doc_comment comment)) (
        error filename linenum "whitespace/comments" 4
          (txt "Should have a space between // and comment"))

-- Whether the `//` stands in no string: the quotes in front of it are even in number.
unfoldable pub outside_strings : Str → ℕ → Bool
unfolding escape
outside_strings line commentpos =
    count (txt "\"") (re_sub escape (λ m. []) (take commentpos line)) % 2 == 0

-- `CheckComment`
unfoldable pub check_comment : Str → Str → ℕ → ℕ → List Report
unfolding comment_reports
check_comment line filename linenum next_line_start = elim (find (txt "//") line) [
  | none ↦ []
  | some commentpos ↦ report_if (outside_strings line commentpos) (
      report_if
        (not (matches brace_comment line && next_line_start == commentpos)
          && too_near line commentpos)
        (error filename linenum "whitespace/comments" 2
          (txt "At least two spaces is best between code and comments"))
      ++ comment_reports filename linenum (drop commentpos line))
]

-- `\s*(DISALLOW_COPY_AND_ASSIGN|DISALLOW_IMPLICIT_CONSTRUCTORS)`
unfoldable pub disallow_macro : Re
unfolding words
disallow_macro =
    spaces ▹ group 1 (words ("DISALLOW_COPY_AND_ASSIGN" ∷ "DISALLOW_IMPLICIT_CONSTRUCTORS" ∷ []))

-- The access of the class on the top of the stack, if it is one.
access_of : List Block → Option Str
access_of [] = none
access_of (b ∷ stack) = elim b.kind [ class_info c ↦ some c.access | _ ↦ none ]

access_call : Str → ℕ → Str → Option Str → List Report
access_call filename linenum macro none = []
access_call filename linenum macro (some access) = report_if (not (str_eq access (txt "private"))) (
    error filename linenum "readability/constructors" 3
      (macro ++ txt " must be in the private: section"))

-- `CheckAccess`, on the elided line.
unfoldable pub check_access : Str → Str → ℕ → NestingState → List Report
unfolding access_of access_call
check_access filename line linenum s = elim (re_match disallow_macro line) [
  | none ↦ []
  | some m ↦ access_call filename linenum (group_text 1 m) (access_of s.stack)
]
