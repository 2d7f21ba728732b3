-- ===== src/HeaderGuard.antt =====
-- `GetHeaderGuardCPPVariable` and `CheckForHeaderGuard` of cpplint.py.
pub mod Included
pub mod Variable
use dyod_ws.Base.{
  ℕ, ◌+◌, ◌-◌, Bool, true, false, not, ◌&&◌, ◌||◌, Option, none, some, List, [], ◌∷◌, ◌++◌, length,
  take, drop, any, get_or, map, ◌==◌, if◌then◌else◌,
}
use dyod_ws.Base.Text.{Str, txt, str_eq, starts_with, contains, replace, split_words, to_upper}
use dyod_ws.Cleanse.{CleansedLines}
use dyod_ws.Emit.Calls.{Call, nolint, report_all}
use dyod_ws.FileNames.{Os, repository_name, base_name, extension}
use dyod_ws.Re.{
  Re, one, except, star, group, at_start, at_end, boundary, Range, lit, lit_codes, none_of, opt,
  spaces, words, Found, re_match, group_of, group_text, searches, matches, re_sub, ◌▹◌, ◌∣∣◌,
}
use dyod_ws.Report.{Report, error}

-- `_flymake\.h$` and `/\.flymake/([^/]*)$`
unfoldable pub flymake_header : Re
unfolding lit
flymake_header = lit "_flymake.h" ▹ at_end

unfoldable pub flymake_folder : Re
unfolding lit none_of
flymake_folder = lit "/.flymake/" ▹ group 1 (star (none_of "/")) ▹ at_end

-- `[^a-zA-Z0-9]`
abbrev alphanumeric : List Range
alphanumeric =
    record { lo = b'a'; hi = b'z' }
    ∷ record { lo = b'A'; hi = b'Z' }
    ∷ record { lo = b'0'; hi = b'9' }
    ∷ []

unfoldable pub not_alphanumeric : Re
not_alphanumeric = except alphanumeric

-- `re.sub(r'[^a-zA-Z0-9]', '_', path).upper() + '_'`
unfoldable pub guard_of : Str → Str
unfolding not_alphanumeric
guard_of path = map to_upper (re_sub not_alphanumeric (λ m. txt "_") path) ++ txt "_"

-- The name without what the syntax checker of an editor adds, and with `cpp` for `C++`.
unfoldable pub plain_name : Str → Str
unfolding flymake_header flymake_folder
plain_name filename =
    let header = re_sub flymake_header (λ m. txt ".h") filename in
    let file = re_sub flymake_folder (λ m. txt "/" ++ group_text 1 m) header in
    replace (txt "c++") (txt "cpp") (replace (txt "C++") (txt "cpp") file)

-- The text of the pattern that takes `_root` off a path.
root_pattern : Os → Str → Str
root_pattern os root =
    txt "^" ++ (root ++ (if str_eq os.sep (txt "\\") then txt "\\\\" else os.sep))

-- What is below `_root`; `none` where its text is no pattern. `compile` is `re.compile`.
below_root : Os → (Str → Option Re) → Option Str → Str → Option Str
unfolding root_pattern
below_root os compile none path = some path
below_root os compile (some []) path = some path
below_root os compile (some (c ∷ root)) path = elim (compile (root_pattern os (c ∷ root))) [
  | none ↦ none
  | some pattern ↦ some (re_sub pattern (λ m. []) path)
]

-- `GetHeaderGuardCPPVariable`; `root` is `_root`.
unfoldable pub get_header_guard_cpp_variable :
    Os → (Str → Option Re) → Option Str → Str → Option Str
unfolding below_root
get_header_guard_cpp_variable os compile root filename =
    elim (repository_name os (plain_name filename)) [
      | none ↦ none
      | some path ↦ elim (below_root os compile root path) [
        | none ↦ none
        | some rest ↦ some (guard_of rest)
      ]
    ]

-- `//\s*NOLINT\(build/header_guard\)`
unfoldable pub nolint_header_guard : Re
unfolding lit
nolint_header_guard = lit "//" ▹ spaces ▹ lit "NOLINT(build/header_guard)"

-- What the loop over the lines has found.
pub record Guard : Type 0 where
  pub ifndef : Str
  pub ifndef_linenum : ℕ
  pub define : Str
  pub endif : Str
  pub endif_linenum : ℕ

abbrev pub no_guard : Guard
no_guard = record { ifndef = []; ifndef_linenum = 0; define = []; endif = []; endif_linenum = 0 }

abbrev is_empty : Str → Bool
is_empty [] = true
is_empty (c ∷ s) = false

-- The first `#ifndef` and the first `#define` with a name.
unfoldable pub on_words : ℕ → List Str → Guard → Guard
on_words linenum (directive ∷ name ∷ rest) g =
    let g' =
      if is_empty g.ifndef && str_eq directive (txt "#ifndef")
      then record g { ifndef = name; ifndef_linenum = linenum }
      else g in
    if is_empty g.define && str_eq directive (txt "#define")
    then record g' { define = name }
    else g'
on_words linenum _ g = g

-- One round of the loop.
unfoldable pub on_line : ℕ → Str → Guard → Guard
unfolding on_words
on_line linenum line g =
    let g' = on_words linenum (split_words line) g in
    if starts_with (txt "#endif") line
    then record g' { endif = line; endif_linenum = linenum }
    else g'

unfoldable pub find_guard : ℕ → List Str → Guard → Guard
unfolding on_line
find_guard linenum [] g = g
find_guard linenum (line ∷ rest) g = find_guard (linenum + 1) rest (on_line linenum line g)

-- `#endif\s*//\s*VAR(_)?\b` and `#endif\s*/\*\s*VAR(_)?\s*\*/`: the variable has no character that a
-- pattern gives a meaning.
unfoldable pub endif_line_comment : Str → Re
unfolding lit opt
endif_line_comment cppvar =
    lit "#endif"
    ▹ spaces
    ▹ lit "//"
    ▹ spaces
    ▹ lit_codes cppvar
    ▹ opt (group 1 (one b'_'))
    ▹ boundary

unfoldable pub endif_block_comment : Str → Re
unfolding lit opt
endif_block_comment cppvar =
    lit "#endif"
    ▹ spaces
    ▹ lit "/*"
    ▹ spaces
    ▹ lit_codes cppvar
    ▹ opt (group 1 (one b'_'))
    ▹ spaces
    ▹ lit "*/"

-- `^(?:(?:\'(?:\.|[^\'])*\')|(?:"(?:\.|[^"])*")|[^\'"])*//`
unfoldable pub line_comment : Re
unfolding lit none_of
line_comment =
    at_start
    ▹ star (
        (one b'\'' ▹ star (one b'.' ∣∣ none_of "'") ▹ one b'\'')
        ∣∣ ((one b'"' ▹ star (one b'.' ∣∣ none_of "\"") ▹ one b'"') ∣∣ none_of "'\""))
    ▹ lit "//"

-- A match of a pattern for `#endif` whose group is the underscore of the old style.
old_style : Found → Bool
old_style m = elim (group_of 1 m) [ none ↦ false | some s ↦ str_eq s (txt "_") ]

abbrev guard_error : Str → ℕ → ℕ → Str → List Call
guard_error filename linenum level message =
    report_all (error filename linenum "build/header_guard" level message)

no_guard_message : Str → Str
no_guard_message cppvar = txt "No #ifndef header guard found, suggested CPP variable is: " ++ cppvar

style_message : Str → Str
style_message cppvar = txt "#ifndef header guard has wrong style, please use: " ++ cppvar

-- `#endif line should be "#endif  // VAR"`, or the same with the other comment
line_message : Str → Str
line_message cppvar = txt "#endif line should be \"#endif  // " ++ (cppvar ++ txt "\"")

block_message : Str → Str
block_message cppvar = txt "#endif line should be \"#endif  /* " ++ (cppvar ++ txt " */\"")

-- The part on the name of the guard.
unfoldable pub check_ifndef : Str → List Str → Str → Guard → List Call
unfolding style_message
check_ifndef filename raw_lines cppvar g =
    if str_eq g.ifndef cppvar
    then []
    else nolint filename (get_or raw_lines g.ifndef_linenum []) g.ifndef_linenum
      ∷ guard_error filename g.ifndef_linenum (if str_eq g.ifndef (cppvar ++ txt "_") then 0 else 5)
          (style_message cppvar)

-- `raw_lines[1:-1]`
abbrev inner_lines : List Str → List Str
inner_lines raw_lines = take (length raw_lines - 2) (drop 1 raw_lines)

-- The part on an `#endif` with a comment of the other kind, or none.
check_endif_block : Str → List Str → Str → Guard → List Call
unfolding line_message block_message old_style
check_endif_block filename raw_lines cppvar g =
    let wrong = guard_error filename g.endif_linenum 5 (line_message cppvar) in
    if any (λ line. matches line_comment line) (inner_lines raw_lines)
    then wrong
    else elim (re_match (endif_block_comment cppvar) g.endif) [
      | none ↦ wrong
      | some m ↦
          if old_style m then guard_error filename g.endif_linenum 0 (block_message cppvar) else []
    ]

unfoldable pub check_endif : Str → List Str → Str → Guard → List Call
unfolding check_endif_block old_style line_message
check_endif filename raw_lines cppvar g =
    nolint filename (get_or raw_lines g.endif_linenum []) g.endif_linenum
    ∷ elim (re_match (endif_line_comment cppvar) g.endif) [
      | none ↦ check_endif_block filename raw_lines cppvar g
      | some m ↦
          if old_style m then guard_error filename g.endif_linenum 0 (line_message cppvar) else []
    ]

-- `not ifndef or not define or ifndef != define`
unfoldable pub lacks_guard : Guard → Bool
lacks_guard g = is_empty g.ifndef || is_empty g.define || not (str_eq g.ifndef g.define)

unfoldable pub check_guard : Str → List Str → Str → List Call
unfolding lacks_guard check_ifndef check_endif no_guard_message
check_guard filename raw_lines cppvar =
    let g = find_guard 0 raw_lines no_guard in
    if lacks_guard g
    then guard_error filename 0 5 (no_guard_message cppvar)
    else check_ifndef filename raw_lines cppvar g ++ check_endif filename raw_lines cppvar g

-- `CheckForHeaderGuard`; `none` where the variable is not found.
unfoldable pub check_for_header_guard :
    Os → (Str → Option Re) → Option Str → Str → CleansedLines → Option (List Call)
unfolding check_guard
check_for_header_guard os compile root filename clean_lines =
    let raw_lines = clean_lines.lines_without_raw_strings in
    if any (λ line. searches nolint_header_guard line) raw_lines
    then some []
    else elim (get_header_guard_cpp_variable os compile root filename) [
      | none ↦ none
      | some cppvar ↦ some (check_guard filename raw_lines cppvar)
    ]
