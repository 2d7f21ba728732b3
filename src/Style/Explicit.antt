-- ===== src/Style/Explicit.antt =====
-- The second half of `CheckForNonStandardConstructs` of cpplint.py: constructors of one argument.
pub mod Arguments
pub mod Raises
use dyod_ws.Base.{
  ℕ, suc, ◌+◌, ◌-◌, Bool, true, false, not, ◌&&◌, ◌||◌, Option, none, some, List, [], ◌∷◌, ◌++◌,
  length, get_or, get_last?, leb, ltb, ◌==◌, if◌then◌else◌,
}
use dyod_ws.Base.Text.{Str, txt, str_eq, contains, count, has, split_on, strip}
use dyod_ws.Cleanse.{CleansedLines}
use dyod_ws.Nesting.Blocks.{Block, ClassInfo, class_info}
use dyod_ws.Nesting.Preprocessor.{NestingState}
use dyod_ws.Nolint.{truthy}
use dyod_ws.Re.{
  Re, seq, alt, star, group, boundary, one, lit, lit_codes, none_of, plus, opt, space, spaces, word,
  Found, re_match, group_of, matches, searches, ◌▹◌, ◌∣∣◌,
}
use dyod_ws.Report.{Report, error, report_if}
use dyod_ws.Style.Constructs.{format_reports, dialect_reports}

-- `\s+(?:inline\s+)?(explicit\s+)?(?:inline\s+)?NAME\s*\(((?:[^()]|\([^()]*\))*)\)`
unfoldable pub constructor_pattern : Str → Re
unfolding lit plus opt none_of
constructor_pattern name =
    plus space
    ▹ opt (lit "inline" ▹ plus space)
    ▹ opt (group 1 (lit "explicit" ▹ plus space))
    ▹ opt (lit "inline" ▹ plus space)
    ▹ lit_codes name
    ▹ spaces
    ▹ one b'('
    ▹ group 2 (star (none_of "()" ∣∣ (one b'(' ▹ star (none_of "()") ▹ one b')')))
    ▹ one b')'

-- `\bstd\s*::\s*initializer_list\b`
unfoldable pub initializer_list : Re
unfolding lit
initializer_list =
    boundary ▹ lit "std" ▹ spaces ▹ lit "::" ▹ spaces ▹ lit "initializer_list" ▹ boundary

-- `(const\s+)?NAME(\s*<[^>]*>)?(\s+const)?\s*(?:<\w+>\s*)?&`
unfoldable pub copy_pattern : Str → Re
unfolding lit plus opt none_of
copy_pattern name =
    opt (group 1 (lit "const" ▹ plus space))
    ▹ lit_codes name
    ▹ opt (group 2 (spaces ▹ one b'<' ▹ star (none_of ">") ▹ one b'>'))
    ▹ opt (group 3 (plus space ▹ lit "const"))
    ▹ spaces
    ▹ opt (one b'<' ▹ plus word ▹ one b'>' ▹ spaces)
    ▹ one b'&'

-- Whether an argument is cut in two at a comma of its own.
unfoldable pub is_cut : Str → Bool
is_cut arg =
    ltb (count (txt ">") arg) (count (txt "<") arg)
    || ltb (count (txt ")") arg) (count (txt "(") arg)

cons_arg : Str → Option (List Str) → Option (List Str)
cons_arg arg none = none
cons_arg arg (some args) = some (arg ∷ args)

-- The two loops that join an argument with those behind it: `arg` is the one that is looked at. `none`
-- is the exception where there is none behind an argument that is cut.
unfoldable pub join_args : Str → List Str → Option (List Str)
unfolding is_cut cons_arg
join_args arg [] = if is_cut arg then none else some (arg ∷ [])
join_args arg (next ∷ rest) =
    let longer = join_args (arg ++ (txt "," ++ next)) rest in
    let later = cons_arg arg (join_args next rest) in if is_cut arg then longer else later

-- `constructor_args` before the loops and behind them.
unfoldable pub split_args : Option Str → List Str
split_args none = []
split_args (some []) = []
split_args (some (c ∷ s)) = split_on b',' (c ∷ s)

unfoldable pub constructor_args : Option Str → Option (List Str)
unfolding split_args
constructor_args inside = elim (split_args inside) [
  | [] ↦ some []
  | arg ∷ rest ↦ join_args arg rest
]

-- `defaulted_args`
defaulted : List Str → ℕ
defaulted [] = 0
defaulted (arg ∷ args) = (if has b'=' arg then 1 else 0) + defaulted args

unfoldable pub noarg_constructor : List Str → Bool
noarg_constructor [] = true
noarg_constructor (arg ∷ []) = str_eq (strip arg) (txt "void")
noarg_constructor (arg ∷ next ∷ args) = false

unfoldable pub onearg_constructor : List Str → Bool
unfolding defaulted
onearg_constructor args =
    not (noarg_constructor args)
    && (length args == 1 || (leb 1 (length args) && leb (length args - 1) (defaulted args)))

unfoldable pub is_copy_or_list : Str → List Str → Bool
unfolding initializer_list copy_pattern
is_copy_or_list name args =
    searches initializer_list (get_or args 0 [])
    || matches (copy_pattern name) (strip (get_or args 0 []))

-- The reports on a constructor with these arguments.
unfoldable pub explicit_reports : Str → ℕ → Str → Bool → List Str → List Report
unfolding defaulted
explicit_reports filename linenum name is_marked_explicit args =
    if not is_marked_explicit && onearg_constructor args && not (is_copy_or_list name args)
    then error filename linenum "runtime/explicit" 5 (
        if ltb 0 (defaulted args)
        then txt "Constructors callable with one argument should be marked explicit."
        else txt "Single-parameter constructors should be marked explicit.")
    else report_if (is_marked_explicit && not (onearg_constructor args) && noarg_constructor args) (
        error filename linenum "runtime/explicit" 5
          (txt "Zero-parameter constructors should not be marked explicit."))

on_constructor : Str → ℕ → Str → Option Found → Option (List Report)
on_constructor filename linenum name none = some []
on_constructor filename linenum name (some m) = elim (constructor_args (group_of 2 m)) [
  | none ↦ none
  | some args ↦ some (explicit_reports filename linenum name (truthy (group_of 1 m)) args)
]

-- `classinfo.name.split('::')[-1]`: what is behind the last colon.
unfoldable pub base_classname : Str → Str
base_classname name = elim (get_last? (split_on b':' name)) [ none ↦ [] | some base ↦ base ]

-- The block and the class of the innermost class.
unfoldable pub innermost_block : List Block → Option (Block × ClassInfo)
innermost_block [] = none
innermost_block (b ∷ stack) = elim b.kind [ class_info c ↦ some (b, c) | _ ↦ innermost_block stack ]

constructor_reports : Str → Str → ℕ → Option (Block × ClassInfo) → Option (List Report)
unfolding on_constructor
constructor_reports filename line linenum none = some []
constructor_reports filename line linenum (some (b, c)) =
    let name = base_classname c.name in
    if not b.seen_open_brace
    then some []
    else on_constructor filename linenum name (re_match (constructor_pattern name) line)

-- `CheckForNonStandardConstructs`; `none` is the exception above.
unfoldable pub check_for_non_standard_constructs :
    Str → CleansedLines → ℕ → NestingState → Option (List Report)
unfolding constructor_reports innermost_block
check_for_non_standard_constructs filename clean_lines linenum s =
    let line = get_or clean_lines.elided linenum [] in
    elim (constructor_reports filename line linenum (innermost_block s.stack)) [
      | none ↦ none
      | some rs ↦ some (
          format_reports filename (get_or clean_lines.lines linenum []) linenum
          ++ (dialect_reports filename line linenum ++ rs))
    ]
