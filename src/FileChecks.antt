-- ===== src/FileChecks.antt =====
-- The checks of cpplint.py that look at a whole file: copyright, bad characters and the newline at
-- its end; and the indentation of a line.
pub mod Reports
pub mod Indent
use dyod_ws.Base.{
  ℕ, zero, suc, ◌+◌, ◌-◌, Bool, true, false, not, ◌&&◌, ◌||◌, Option, none, some, List, [], ◌∷◌,
  ◌++◌, length, get_elem?, take, drop, any, leb, ltb, map, if◌then◌else◌,
}
use dyod_ws.Base.Text.{Str, txt, has, contains, to_lower}
use dyod_ws.Re.{Re, seq, star, group, at_start, one, non_space, re_match, group_text, ◌▹◌}
use dyod_ws.Report.{Report, error}

-- `re.search(r'Copyright', line, re.I)`
mentions_copyright : Str → Bool
mentions_copyright line = contains (txt "copyright") (map to_lower line)

-- `CheckForCopyright`: the lines from number 1 to number 10, of those that there are.
unfoldable pub check_for_copyright : Str → List Str → List Report
unfolding mentions_copyright
check_for_copyright filename lines =
    if any mentions_copyright (take 10 (drop 1 lines))
    then []
    else error filename 0 "legal/copyright" 5 (
        txt
          "No copyright message found.  You should have a line: \"Copyright [year] <Copyright Owner>\"")

-- `^( *)\S`
unfoldable pub indent_pattern : Re
indent_pattern = at_start ▹ group 1 (star (one b' ')) ▹ non_space

-- `GetIndentLevel`
unfoldable pub get_indent_level : Str → ℕ
unfolding indent_pattern
get_indent_level line = elim (re_match indent_pattern line) [
  | some indent ↦ length (group_text 1 indent)
  | none ↦ 0
]

-- The reports for one line.
unfoldable pub bad_characters_in : Str → ℕ → Str → List Report
bad_characters_in filename linenum line =
    (if has 0xfffd line
      then error filename linenum "readability/utf8" 5
          (txt "Line contains invalid UTF-8 (or Unicode replacement character).")
      else [])
    ++ (if has 0 line
        then error filename linenum "readability/nul" 5 (txt "Line contains NUL byte.")
        else [])

bad_characters_from : Str → ℕ → List Str → List Report
bad_characters_from filename linenum [] = []
bad_characters_from filename linenum (line ∷ lines) =
    bad_characters_in filename linenum line ++ bad_characters_from filename (linenum + 1) lines

-- `CheckForBadCharacters`
unfoldable pub check_for_bad_characters : Str → List Str → List Report
unfolding bad_characters_from
check_for_bad_characters filename lines = bad_characters_from filename 0 lines

is_not_empty : Option Str → Bool
is_not_empty none = false
is_not_empty (some []) = false
is_not_empty (some (c ∷ s)) = true

-- `CheckForNewlineAtEOF`. A file has two marker lines, so that `len(lines) - 2` is not negative.
unfoldable pub check_for_newline_at_eof : Str → List Str → List Report
unfolding is_not_empty
check_for_newline_at_eof filename lines =
    if ltb (length lines) 3 || is_not_empty (get_elem? lines (length lines - 2))
    then error filename (length lines - 2) "whitespace/ending_newline" 5
        (txt "Could not find a newline character at the end of the file.")
    else []
