-- ===== src/Functions/Lengths.antt =====
-- `CheckForFunctionLengths` of cpplint.py: a line's effect on the function that is being read.
use dyod_ws.Base.{
  ℕ, Bool, false, not, ◌||◌, Option, none, some, List, [], ◌∷◌, ◌++◌, drop, get_or, get_last?,
  if◌then◌else◌,
}
use dyod_ws.Base.Text.{Str, txt, str_eq, split_words, lstrip}
use dyod_ws.Functions.{FunctionState, begin, count, check, end_function}
use dyod_ws.Re.{
  Re, star, group, at_start, at_end, set, one, lit, plus, space, spaces, word, single, dots,
  re_match, re_search, group_text, matches, searches, ◌▹◌, ◌∣∣◌,
}
use dyod_ws.Report.{Report, error}

-- `(\w(\w|::|\*|\&|\s)*)\(`
unfoldable pub function_pattern : Re
unfolding lit
function_pattern =
    group 1 (word ▹ star (group 2 (word ∣∣ (lit "::" ∣∣ (one b'*' ∣∣ (one b'&' ∣∣ space))))))
    ▹ one b'('

-- `[A-Z_]+$`
unfoldable pub macro_name : Re
unfolding plus
macro_name = plus (set (record { lo = b'A'; hi = b'Z' } ∷ single b'_' ∷ [])) ▹ at_end

-- `((\w|:)*)\(` and `(\(.*\))`
unfoldable pub name_pattern : Re
name_pattern = group 1 (star (group 2 (word ∣∣ one b':'))) ▹ one b'('

unfoldable pub parameter_pattern : Re
parameter_pattern = group 1 (one b'(' ▹ dots ▹ one b')')

-- `(;|})`, `{`, `TEST`, `^\}\s*$` and `^\s*$`
unfoldable pub statement_end : Re
statement_end = group 1 (one b';' ∣∣ one b'}')

unfoldable pub test_macro : Re
unfolding lit
test_macro = lit "TEST"

unfoldable pub function_end : Re
function_end = at_start ▹ one b'}' ▹ spaces ▹ at_end

unfoldable pub blank_line : Re
blank_line = at_start ▹ spaces ▹ at_end

-- Whether a name that a call or a definition begins with is that of a function to look at.
unfoldable pub is_function_name : Str → Bool
is_function_name name =
    str_eq name (txt "TEST") || str_eq name (txt "TEST_F") || not (matches macro_name name)

-- `starting_func`
unfoldable pub starting_function : Str → Bool
unfolding is_function_name
starting_function line = elim (re_match function_pattern line) [
  | none ↦ false
  | some m ↦ elim (get_last? (split_words (group_text 1 m))) [
    | none ↦ false
    | some name ↦ is_function_name name
  ]
]

-- What the loop over the lines from the first one on finds: no body, a declaration or a trivial
-- function, or a body with the lines up to it.
pub data Body : Type 0 where
  missing declared : Body
  found_body : Str → Body

unfoldable pub find_body : List Str → Str → Body
unfolding statement_end
find_body [] joined_line = missing
find_body (start_line ∷ rest) joined_line =
    let joined = joined_line ++ (txt " " ++ lstrip start_line) in
    let later = find_body rest joined in
    if searches statement_end start_line
    then declared
    else if searches (one b'{') start_line
    then found_body joined
    else later

-- The name that is shown: with the arguments for a test, with `()` for any other function.
unfoldable pub shown_name : Str → Str → Str
unfolding test_macro parameter_pattern
shown_name function joined_line =
    if matches test_macro function
    then elim (re_search parameter_pattern joined_line) [
      | none ↦ function
      | some m ↦ function ++ group_text 1 m
    ]
    else function ++ txt "()"

-- `none` is the exception where the line has no `(`.
on_body : Str → Str → ℕ → Body → FunctionState → Option (FunctionState × List Report)
unfolding name_pattern shown_name
on_body filename line linenum missing s = some (
  s,
  error filename linenum "readability/fn_size" 5
      (txt "Lint failed to find start of function body."),
)
on_body filename line linenum declared s = some (s, [])
on_body filename line linenum (found_body joined_line) s = elim (re_search name_pattern line) [
  | none ↦ none
  | some m ↦ some (begin (shown_name (group_text 1 m) joined_line) s, [])
]

-- `CheckForFunctionLengths`, on the lines without comments.
unfoldable pub check_for_function_lengths :
    Str → List Str → ℕ → ℕ → FunctionState → Option (FunctionState × List Report)
unfolding on_body
check_for_function_lengths filename lines linenum verbose_level s =
    let line = get_or lines linenum [] in
    if starting_function line
    then on_body filename line linenum (find_body (drop linenum lines) []) s
    else if matches function_end line
    then some (end_function s, check filename linenum verbose_level s)
    else some (if not (matches blank_line line) then count s else s, [])
