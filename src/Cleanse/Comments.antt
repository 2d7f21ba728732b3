-- ===== src/Cleanse/Comments.antt =====
-- The removal of comments in cpplint.py: comments over several lines, and comments on one line.
pub mod Cleared
use dyod_ws.Base.{
  ℕ, zero, suc, ◌+◌, ◌-◌, ◌%◌, Bool, true, false, not, ◌&&◌, ◌||◌, Option, none, some, List, [],
  ◌∷◌, ◌++◌, length, drop, take, if◌then◌else◌, ◌==◌, ltb, leb,
}
use dyod_ws.Base.Loop.{Round, again, stop, iterate}
use dyod_ws.Base.Text.{Str, txt, find, count, replace, strip, rstrip, starts_with, ends_with}
use dyod_ws.Re.{
  Re, seq, alt, star, group, at_end, one, lit, plus, none_of, not_ahead, ahead, space, spaces,
  non_word, re_sub, ◌▹◌, ◌∣∣◌,
}
use dyod_ws.Report.{Report, error}

-- `IsCppString`. The difference of the three counts is odd exactly if their sum is.
unfoldable pub is_cpp_string : Str → Bool
is_cpp_string line =
    let line' = replace (txt "\\\\") (txt "XX") line in
    (count (txt "\"") line' + count (txt "\\\"") line' + count (txt "'\"'") line') % 2 == 1

-- `/\*(?:[^*]|\*(?!/))*\*/`
unfoldable pub c_comments : Re
unfolding none_of lit
c_comments = lit "/*" ▹ star (none_of "*" ∣∣ (one b'*' ▹ not_ahead (one b'/'))) ▹ lit "*/"

-- `_RE_PATTERN_CLEANSE_LINE_C_COMMENTS`
unfoldable pub cleanse_line_c_comments : Re
unfolding c_comments plus
cleanse_line_c_comments = group 1 (
    (spaces ▹ c_comments ▹ spaces ▹ at_end)
    ∣∣ ((c_comments ▹ plus space) ∣∣ ((plus space ▹ c_comments ▹ ahead non_word) ∣∣ c_comments)))

cut_line_comment : Str → Option ℕ → Str
unfolding is_cpp_string
cut_line_comment line none = line
cut_line_comment line (some commentpos) =
    if not (is_cpp_string (take commentpos line)) then rstrip (take commentpos line) else line

-- `CleanseComments`
unfoldable pub cleanse_comments : Str → Str
unfolding cut_line_comment
cleanse_comments line =
    re_sub cleanse_line_c_comments (λ m. []) (cut_line_comment line (find (txt "//") line))

-- `s.find('*/', 2) < 0`
never_closes : Str → Bool
never_closes s = elim (find (txt "*/") (drop 2 s)) [ none ↦ true | some i ↦ false ]

unfoldable pub opens_comment : Str → Bool
unfolding never_closes
opens_comment line = starts_with (txt "/*") (strip line) && never_closes (strip line)

unfoldable pub closes_comment : Str → Bool
closes_comment line = ends_with (txt "*/") (strip line)

-- The first line from `lineix` on that passes the test, or the number of lines.
first_line : (Str → Bool) → ℕ → List Str → ℕ
first_line test lineix [] = lineix
first_line test lineix (line ∷ rest) =
    let later = first_line test (lineix + 1) rest in if test line then lineix else later

unfoldable pub find_next_multi_line_comment_start : List Str → ℕ → ℕ
unfolding first_line opens_comment
find_next_multi_line_comment_start lines lineix =
    first_line opens_comment lineix (drop lineix lines)

unfoldable pub find_next_multi_line_comment_end : List Str → ℕ → ℕ
unfolding first_line closes_comment
find_next_multi_line_comment_end lines lineix = first_line closes_comment lineix (drop lineix lines)

-- `lines[i] = '/**/'` for `begin` ≤ i < `end`, over the lines from number `i` on
clear_range : ℕ → ℕ → ℕ → List Str → List Str
clear_range i begin end [] = []
clear_range i begin end (line ∷ rest) =
    (if leb begin i && ltb i end then txt "/**/" else line) ∷ clear_range (i + 1) begin end rest

unfoldable pub remove_multi_line_comments_from_range : List Str → ℕ → ℕ → List Str
unfolding clear_range
remove_multi_line_comments_from_range lines begin end = clear_range 0 begin end lines

-- The lines, and where the search goes on.
pub record Removal : Type 0 where
  pub lines : List Str
  pub lineix : ℕ

-- One round of the loop.
unfoldable pub removal_round : Str → Removal → Round Removal (List Str × List Report)
removal_round filename s =
    let begin = find_next_multi_line_comment_start s.lines s.lineix in
    let end = find_next_multi_line_comment_end s.lines begin in
    if not (ltb s.lineix (length s.lines))
    then stop (s.lines, [])
    else if leb (length s.lines) begin
    then stop (s.lines, [])
    else if leb (length s.lines) end
    then stop (
      s.lines,
      error filename (begin + 1) "readability/multiline_comment" 5
          (txt "Could not find end of multi-line comment"),
    )
    else again (record {
      lines = remove_multi_line_comments_from_range s.lines begin (end + 1);
      lineix = end + 1;
    })

-- Each round that goes on moves forward, so the number of lines is fuel enough.
unfoldable pub remove_multi_line_comments : Str → List Str → Option (List Str × List Report)
unfolding removal_round
remove_multi_line_comments filename lines =
    iterate (removal_round filename) (suc (length lines)) (record { lines = lines; lineix = 0 })
