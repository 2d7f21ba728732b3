-- ===== src/Nolint.antt =====
-- The suppressions of cpplint.py: NOLINT comments on a line, and directives for a whole file.
pub mod Comments
pub mod Effect
pub mod Matched
use dyod_ws.Base.{
  ℕ, ◌+◌, ◌-◌, Bool, true, false, ◌&&◌, ◌||◌, Option, none, some, List, [], ◌∷◌, ◌++◌, ◌==◌,
  if◌then◌else◌, length, take, drop,
}
use dyod_ws.Base.Text.{Str, txt, str_eq, is_one_of, starts_with, ends_with}
use dyod_ws.Categories.{
  error_categories, legacy_error_categories, default_c_suppressed_categories,
  default_kernel_suppressed_categories,
}
use dyod_ws.Re.{
  Re, eps, one, seq, alt, group, boundary, at_end, lit, plus, opt, none_of, spaces, dots, Found,
  re_search, group_of, searches, ◌▹◌, ◌∣∣◌,
}
use dyod_ws.Report.{Report, error}

-- `_error_suppressions`, a dictionary from a category, or `none` for all of them, to sets of lines:
-- here its pairs. `_global_error_suppressions` holds `True` at each of its keys.
pub record Suppressions : Type 0 where
  pub lines : List (Option Str × ℕ)
  pub globals : List Str

unfoldable pub nolint_pattern : Re
unfolding lit plus opt none_of
nolint_pattern =
    boundary
    ▹ lit "NOLINT"
    ▹ opt (group 1 (lit "NEXTLINE"))
    ▹ boundary
    ▹ opt (group 2 (one b'(' ▹ plus (none_of ")") ▹ one b')'))

-- A match group is true when it took part in the match and is not empty.
unfoldable pub truthy : Option Str → Bool
truthy none = false
truthy (some []) = false
truthy (some (c ∷ s)) = true

abbrev pub suppress : Suppressions → Option Str → ℕ → Suppressions
suppress s category line = record s { lines = (category, line) ∷ s.lines }

unknown_category : Str → Str
unknown_category category = txt "Unknown NOLINT error category: " ++ category

-- The branches on `matched.group(2)`.
unfoldable pub add_nolint : Str → ℕ → ℕ → Option Str → Suppressions → Suppressions × List Report
unfolding unknown_category
add_nolint filename linenum suppressed_line none s = (suppress s none suppressed_line, [])
add_nolint filename linenum suppressed_line (some category) s =
    if str_eq category (txt "(*)")
    then (suppress s none suppressed_line, [])
    else if starts_with (txt "(") category && ends_with (txt ")") category
    then (let name = drop 1 (take (length category - 1) category) in
        if is_one_of name error_categories
        then (suppress s (some name) suppressed_line, [])
        else if is_one_of name legacy_error_categories
        then (s, [])
        else (s, error filename linenum "readability/nolint" 5 (unknown_category name)))
    else (s, [])

unfoldable pub suppressed_line_of : Found → ℕ → ℕ
unfolding truthy
suppressed_line_of matched linenum = if truthy (group_of 1 matched) then linenum + 1 else linenum

add_found : Str → ℕ → Option Found → Suppressions → Suppressions × List Report
unfolding suppressed_line_of add_nolint
add_found filename linenum none s = (s, [])
add_found filename linenum (some matched) s =
    add_nolint filename linenum (suppressed_line_of matched linenum) (group_of 2 matched) s

unfoldable pub parse_nolint_suppressions : Str → Str → ℕ → Suppressions → Suppressions × List Report
unfolding add_found
parse_nolint_suppressions filename raw_line linenum s =
    add_found filename linenum (re_search nolint_pattern raw_line) s

-- `_SEARCH_C_FILE`
unfoldable pub search_c_file : Re
unfolding lit opt
search_c_file =
    boundary
    ▹ (lit "LINT_C_FILE"
        ∣∣ (lit "vi"
            ▹ opt (one b'm')
            ▹ one b':'
            ▹ spaces
            ▹ dots
            ▹ group 1 (spaces ∣∣ one b':')
            ▹ lit "filetype=c"
            ▹ group 2 (spaces ∣∣ (one b':' ∣∣ at_end))))

-- `_SEARCH_KERNEL_FILE`
unfoldable pub search_kernel_file : Re
unfolding lit
search_kernel_file = boundary ▹ lit "LINT_KERNEL_FILE"

unfoldable pub process_global_suppressions : List Str → Suppressions → Suppressions
process_global_suppressions [] s = s
process_global_suppressions (line ∷ lines) s =
    let for_c =
      if searches search_c_file line
      then default_c_suppressed_categories ++ s.globals
      else s.globals in
    let for_kernel =
      if searches search_kernel_file line
      then default_kernel_suppressed_categories ++ for_c
      else for_c in
    process_global_suppressions lines (record s { globals = for_kernel })

abbrev pub reset_nolint_suppressions : Suppressions
reset_nolint_suppressions = record { lines = []; globals = [] }

unfoldable pub same_key : Option Str → Option Str → Bool
same_key none none = true
same_key (some a) (some b) = str_eq a b
same_key _ _ = false

-- `linenum in _error_suppressions.get(category, set())`
unfoldable pub suppressed_at : Option Str → ℕ → List (Option Str × ℕ) → Bool
unfolding same_key
suppressed_at category linenum [] = false
suppressed_at category linenum ((key, line) ∷ rest) =
    (same_key key category && line == linenum) || suppressed_at category linenum rest

unfoldable pub is_error_suppressed_by_nolint : Str → ℕ → Suppressions → Bool
unfolding suppressed_at
is_error_suppressed_by_nolint category linenum s =
    is_one_of category s.globals
    || suppressed_at (some category) linenum s.lines
    || suppressed_at none linenum s.lines
