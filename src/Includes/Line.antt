-- ===== src/Includes/Line.antt =====
-- `_DropCommonSuffixes`, `_ClassifyInclude` and `CheckIncludeLine` of cpplint.py.
use dyod_ws.Base.{
  ℕ, ◌-◌, Bool, true, false, not, ◌&&◌, ◌||◌, Option, none, some, List, [], ◌∷◌, ◌++◌, length, take,
  get_or, get_before, ltb, ◌==◌, if◌then◌else◌,
}
use dyod_ws.Base.Text.{Str, txt, str_eq, is_one_of, ends_with, show}
use dyod_ws.Categories.{cpp_headers}
use dyod_ws.Cleanse.{CleansedLines}
use dyod_ws.Cleanse.Collapse.{include_pattern}
use dyod_ws.FileNames.{Os, repository_name}
use dyod_ws.Includes.{
  HeaderType, c_sys_header, cpp_sys_header, likely_my_header, possible_my_header, other_header,
  IncludeState, find_header, append_include, check_next_include_order, set_last_header,
  canonicalize_alphabetical_order, is_in_alphabetical_order,
}
use dyod_ws.Re.{
  Re, set, star, group, at_start, at_end, one, lit, words, plus, none_of, spaces, Found, re_match,
  re_search, group_text, matches, ◌▹◌, ◌∣∣◌,
}
use dyod_ws.Report.{Report, error}

-- The suffixes, in the order in which they are tried.
abbrev pub common_suffixes : List Str
common_suffixes =
    txt "test.cc"
    ∷ txt "regtest.cc"
    ∷ txt "unittest.cc"
    ∷ txt "inl.h"
    ∷ txt "impl.h"
    ∷ txt "internal.h"
    ∷ []

-- `filename.endswith(suffix)` behind a `-` or `_`
has_suffix : Str → Str → Bool
has_suffix suffix filename =
    ends_with suffix filename
    && ltb (length suffix) (length filename)
    && (get_or filename (length filename - length suffix - 1) 0 == b'-'
        || get_or filename (length filename - length suffix - 1) 0 == b'_')

drop_suffix : Os → List Str → Str → Str
unfolding has_suffix
drop_suffix os [] filename = (os.splitext filename).0
drop_suffix os (suffix ∷ rest) filename =
    let later = drop_suffix os rest filename in
    if has_suffix suffix filename
    then take (length filename - length suffix - 1) filename
    else later

-- `_DropCommonSuffixes`
unfoldable pub drop_common_suffixes : Os → Str → Str
unfolding drop_suffix
drop_common_suffixes os filename = drop_suffix os common_suffixes filename

-- `^[^-_.]+`
unfoldable pub first_component : Re
unfolding plus none_of
first_component = at_start ▹ group 0 (plus (none_of "-_."))

-- Both names have a first component, and it is the same.
same_component : Option Found → Option Found → Bool
same_component (some a) (some b) = str_eq (group_text 0 a) (group_text 0 b)
same_component _ _ = false

-- The classes of a header that is named in quotes, by the two paths without their suffixes.
unfoldable pub classify_quoted : Os → Str → Str → HeaderType
unfolding same_component
classify_quoted os target include =
    let (target_dir, target_base) = os.split target in
    let (include_dir, include_base) = os.split include in
    if str_eq target_base include_base
      && (str_eq include_dir target_dir
          || str_eq include_dir (os.normpath (target_dir ++ txt "/../public")))
    then likely_my_header
    else if same_component (re_match first_component target_base)
        (re_match first_component include_base)
    then possible_my_header
    else other_header

-- `_ClassifyInclude`, on the name of the file below its repository's root.
unfoldable pub classify_include : Os → Str → Str → Bool → HeaderType
unfolding classify_quoted
classify_include os repository_name include is_system =
    if is_system
    then (if is_one_of include cpp_headers then cpp_sys_header else c_sys_header)
    else classify_quoted os (drop_common_suffixes os repository_name)
        (drop_common_suffixes os include)

-- `#include\s*"([^/]+\.h)"`
unfoldable pub bare_include : Re
unfolding lit plus none_of
bare_include =
    lit "#include" ▹ spaces ▹ one b'"' ▹ group 1 (plus (none_of "/") ▹ lit ".h") ▹ one b'"'

-- `_THIRD_PARTY_HEADERS_PATTERN`
unfoldable pub third_party_headers : Re
unfolding lit none_of words
third_party_headers =
    at_start
    ▹ ((star (none_of "/")
          ▹ set (record { lo = b'A'; hi = b'Z' } ∷ [])
          ▹ star (none_of "/")
          ▹ lit ".h")
        ∣∣ words ("lua.h" ∷ "lauxlib.h" ∷ "lualib.h" ∷ []))
    ▹ at_end

unfoldable pub bare_reports : Str → Str → ℕ → List Report
bare_reports filename line linenum = elim (re_match bare_include line) [
  | none ↦ []
  | some m ↦
      if matches third_party_headers (group_text 1 m)
      then []
      else error filename linenum "build/include" 4
          (txt "Include the directory when naming .h files")
]

-- The reports of `CheckNextIncludeOrder` and `IsInAlphabeticalOrder`.
order_reports : Str → ℕ → Str → Option Str → List Report
order_reports filename linenum base none = []
order_reports filename linenum base (some message) =
    error filename linenum "build/include_order" 4
      (message ++ (txt ". Should be: " ++ (base ++ txt ".h, c system, c++ system, other.")))

alpha_reports : Str → ℕ → Str → Bool → List Report
alpha_reports filename linenum include true = []
alpha_reports filename linenum include false =
    error filename linenum "build/include_alpha" 4
      (txt "Include \"" ++ (include ++ txt "\" not in alphabetical order"))

duplicate_message : Str → Str → ℕ → Str
duplicate_message filename include line =
    txt "\"" ++ (include ++ (txt "\" already included at " ++ (filename ++ (txt ":" ++ show line))))

-- A header that is new to the state: it is recorded, and its place looked at. `base` is the file's base
-- name.
unfoldable pub record_include :
    Str → CleansedLines → ℕ → Str → HeaderType → Str → IncludeState → IncludeState × List Report
unfolding order_reports alpha_reports
record_include filename clean_lines linenum include header_type base s =
    let recorded = record s { include_list = append_include (include, linenum) s.include_list } in
    let (moved, answer) = check_next_include_order header_type recorded in
    let canonical_include = canonicalize_alphabetical_order include in
    (
      set_last_header canonical_include moved,
      order_reports filename linenum base answer
          ++ alpha_reports filename linenum include (
              is_in_alphabetical_order (get_before clean_lines.elided linenum []) canonical_include
                moved),
    )

-- The three branches on an include. `name` is the file's name below the root of its repository, and
-- `base` its base name.
unfoldable pub on_include :
    Os
    → Str
    → Str
    → Str
    → CleansedLines
    → ℕ
    → Str
    → Bool
    → IncludeState
    → IncludeState × List Report
unfolding duplicate_message
on_include os filename name base clean_lines linenum include is_system s =
    elim (find_header include s.include_list) [
      | some line ↦
          (s, error filename linenum "build/include" 4 (duplicate_message filename include line))
      | none ↦
          if ends_with (txt ".cc") include && not (str_eq (os.dirname name) (os.dirname include))
          then (
            s,
            error filename linenum "build/include" 4
                (txt "Do not include .cc files from other packages"),
          )
          else if matches third_party_headers include
          then (s, [])
          else record_include filename clean_lines linenum include
              (classify_include os name include is_system) base s
    ]

on_found :
    Os
    → Str
    → Str
    → Str
    → CleansedLines
    → ℕ
    → Option Found
    → IncludeState
    → IncludeState × List Report
on_found os filename name base clean_lines linenum none s = (s, [])
on_found os filename name base clean_lines linenum (some m) s =
    on_include os filename name base clean_lines linenum (group_text 2 m)
      (str_eq (group_text 1 m) (txt "<")) s

-- `CheckIncludeLine`, for a file with this name below the root of its repository, and base name.
unfoldable pub check_include_line :
    Os → Str → Str → Str → CleansedLines → ℕ → IncludeState → IncludeState × List Report
unfolding on_found
check_include_line os filename name base clean_lines linenum s =
    let line = get_or clean_lines.lines linenum [] in
    let (s', rs) =
      on_found os filename name base clean_lines linenum (re_search include_pattern line) s in
    (s', bare_reports filename line linenum ++ rs)
