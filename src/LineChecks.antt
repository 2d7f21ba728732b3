-- ===== src/LineChecks.antt =====
-- Checks of cpplint.py that look at one line: comments and strings that go on, thread-unsafe calls,
-- VLOG, increments of pointers; and two tests on a line and the one before.
use dyod_ws.Base.{
  ℕ, ◌+◌, ◌-◌, ◌%◌, Bool, true, false, ◌&&◌, ◌||◌, List, [], ◌∷◌, ◌++◌, get_or, ltb, ◌==◌, String,
  if◌then◌else◌,
}
use dyod_ws.Base.Text.{Str, txt, count, replace}
use dyod_ws.Re.{
  Re, eps, star, group, at_start, at_end, boundary, one, lit, plus, words, one_of, none_of, space,
  spaces, word, dots, matches, searches, ◌▹◌, ◌∣∣◌,
}
use dyod_ws.Report.{Report, error}

-- `CheckForMultilineCommentsAndStrings`, on the elided line. The difference of the two counts is odd
-- exactly if their sum is.
unfoldable pub check_for_multiline_comments_and_strings : Str → Str → ℕ → List Report
check_for_multiline_comments_and_strings filename elided linenum =
    let line = replace (txt "\\\\") [] elided in
    (if ltb (count (txt "*/") line) (count (txt "/*") line)
      then error filename linenum "readability/multiline_comment" 5 (
          txt "Complex multi-line /*...*/-style comment found. "
          ++ (txt "Lint may give bogus warnings.  "
              ++ (txt "Consider replacing these with //-style comments, with #if 0...#endif, "
                  ++ txt "or with more clearly structured multi-line comments.")))
      else [])
    ++ (if (count (txt "\"") line + count (txt "\\\"") line) % 2 == 1
        then error filename linenum "readability/multiline_string" 5 (
            txt "Multi-line string (\"...\") found.  This lint script doesn't "
            ++ (txt "do well with such strings, and may give bogus warnings.  "
                ++ txt "Use C++11 raw strings or concatenation instead."))
        else [])

-- `_UNSAFE_FUNC_PREFIX`, `(?:[-+*/=%^&|(<]\s*|>\s+)`
unfoldable pub unsafe_func_prefix : Re
unfolding one_of plus
unsafe_func_prefix = (one_of "-+*/=%^&|(<" ▹ spaces) ∣∣ (one b'>' ▹ plus space)

-- A function of `_THREADING_LIST`, whose call has arguments or none.
pub record Threading : Type 0 where
  pub name : String
  pub has_arguments : Bool

abbrev unsafe : String → Bool → Threading
unsafe name has_arguments = record { name = name; has_arguments = has_arguments }

-- `_THREADING_LIST`: the thread-safe alternative has `_r` behind the name.
unfoldable pub threading_list : List Threading
threading_list =
    unsafe "asctime" true
    ∷ unsafe "ctime" true
    ∷ unsafe "getgrgid" true
    ∷ unsafe "getgrnam" true
    ∷ unsafe "getlogin" false
    ∷ unsafe "getpwnam" true
    ∷ unsafe "getpwuid" true
    ∷ unsafe "gmtime" true
    ∷ unsafe "localtime" true
    ∷ unsafe "rand" false
    ∷ unsafe "strtok" true
    ∷ unsafe "ttyname" true
    ∷ []

-- The validation pattern of an entry.
unfoldable pub threading_pattern : Threading → Re
unfolding lit plus none_of unsafe_func_prefix
threading_pattern f =
    unsafe_func_prefix
    ▹ lit f.name
    ▹ one b'('
    ▹ (if f.has_arguments then plus (none_of ")") else eps)
    ▹ one b')'

threading_message : Threading → Str
threading_message f =
    txt "Consider using "
    ++ (txt f.name
        ++ (txt "_r(...) instead of " ++ (txt f.name ++ txt "(...) for improved thread safety.")))

threading_reports : Str → Str → ℕ → List Threading → List Report
unfolding threading_message
threading_reports filename line linenum [] = []
threading_reports filename line linenum (f ∷ fs) =
    (if searches (threading_pattern f) line
      then error filename linenum "runtime/threadsafe_fn" 2 (threading_message f)
      else [])
    ++ threading_reports filename line linenum fs

-- `CheckPosixThreading`, on the elided line.
unfoldable pub check_posix_threading : Str → Str → ℕ → List Report
unfolding threading_reports
check_posix_threading filename line linenum = threading_reports filename line linenum threading_list

-- `\bVLOG\((INFO|ERROR|WARNING|DFATAL|FATAL)\)`
unfoldable pub vlog_pattern : Re
unfolding lit words
vlog_pattern =
    boundary
    ▹ lit "VLOG("
    ▹ group 1 (words ("INFO" ∷ "ERROR" ∷ "WARNING" ∷ "DFATAL" ∷ "FATAL" ∷ []))
    ▹ one b')'

-- `CheckVlogArguments`, on the elided line.
unfoldable pub check_vlog_arguments : Str → Str → ℕ → List Report
check_vlog_arguments filename line linenum =
    if searches vlog_pattern line
    then error filename linenum "runtime/vlog" 5 (
        txt "VLOG() should be used with numeric verbosity level.  "
        ++ txt "Use LOG() if you want symbolic severity levels.")
    else []

-- `_RE_PATTERN_INVALID_INCREMENT`
unfoldable pub invalid_increment : Re
unfolding lit plus
invalid_increment =
    at_start ▹ spaces ▹ one b'*' ▹ plus word ▹ group 1 (lit "++" ∣∣ lit "--") ▹ one b';'

-- `CheckInvalidIncrement`, on the elided line.
unfoldable pub check_invalid_increment : Str → Str → ℕ → List Report
check_invalid_increment filename line linenum =
    if matches invalid_increment line
    then error filename linenum "runtime/invalid_increment" 5
        (txt "Changing pointer instead of value (or unused value of operator*).")
    else []

unfoldable pub define_pattern : Re
unfolding lit
define_pattern = at_start ▹ lit "#define"

unfoldable pub continued_pattern : Re
continued_pattern = one b'\\' ▹ at_end

-- `IsMacroDefinition`, on lines of which number `linenum` is one.
unfoldable pub is_macro_definition : List Str → ℕ → Bool
is_macro_definition clean_lines linenum =
    searches define_pattern (get_or clean_lines linenum [])
    || (ltb 0 linenum && searches continued_pattern (get_or clean_lines (linenum - 1) []))

-- `^\s*(\btemplate\b)*.*class\s+\w+;\s*$`
unfoldable pub forward_class : Re
unfolding lit plus
forward_class =
    at_start
    ▹ spaces
    ▹ star (group 1 (boundary ▹ lit "template" ▹ boundary))
    ▹ dots
    ▹ lit "class"
    ▹ plus space
    ▹ plus word
    ▹ one b';'
    ▹ spaces
    ▹ at_end

-- `IsForwardClassDeclaration`, on lines of which number `linenum` is one.
unfoldable pub is_forward_class_declaration : List Str → ℕ → Bool
is_forward_class_declaration clean_lines linenum =
    matches forward_class (get_or clean_lines linenum [])
