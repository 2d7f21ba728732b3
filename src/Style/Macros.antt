-- ===== src/Style/Macros.antt =====
-- `FindCheckMacro` and `CheckCheck` of cpplint.py.
pub mod Ends
use dyod_ws.Base.{
  ℕ, suc, ◌+◌, ◌-◌, Bool, true, false, not, ◌&&◌, ◌||◌, Option, none, some, List, [], ◌∷◌, ◌++◌,
  String, length, take, drop, get_or, ◌==◌, if◌then◌else◌,
}
use dyod_ws.Base.Loop.{Round, again, stop, iterate}
use dyod_ws.Base.Text.{Str, txt, str_eq, is_one_of, contains, strip}
use dyod_ws.Brackets.Forward.{
  found, failed, pending, Position, close_expression, find_end_of_expression_in_line,
}
use dyod_ws.Cleanse.{CleansedLines}
use dyod_ws.Re.{
  Re, group, at_start, at_end, boundary, ahead, one, lit_codes, one_of, none_of, plus, opt, words,
  spaces, non_space, digit, dots, Found, re_match, group_text, matches, find_all, ◌▹◌, ◌∣∣◌,
}
use dyod_ws.Report.{Report, error, report_if}

-- `_CHECK_MACROS`
abbrev pub check_macros : List Str
check_macros =
    txt "DCHECK"
    ∷ txt "CHECK"
    ∷ txt "EXPECT_TRUE"
    ∷ txt "ASSERT_TRUE"
    ∷ txt "EXPECT_FALSE"
    ∷ txt "ASSERT_FALSE"
    ∷ []

-- The names of the comparisons, and those of their opposites.
abbrev pub comparisons : List (Str × String × String)
comparisons =
    (txt "==", "EQ", "NE")
    ∷ (txt "!=", "NE", "EQ")
    ∷ (txt ">=", "GE", "LT")
    ∷ (txt ">", "GT", "LE")
    ∷ (txt "<=", "LE", "GT")
    ∷ (txt "<", "LT", "GE")
    ∷ []

-- The macro that has the name of the comparison behind it.
abbrev macro_stem : Str → Str
macro_stem macro =
    if str_eq macro (txt "DCHECK")
    then txt "DCHECK_"
    else if str_eq macro (txt "CHECK")
    then txt "CHECK_"
    else if is_one_of macro (txt "EXPECT_TRUE" ∷ txt "EXPECT_FALSE" ∷ [])
    then txt "EXPECT_"
    else txt "ASSERT_"

replacement_in : List (Str × String × String) → Str → Str → Str
replacement_in [] macro operator = []
replacement_in ((op, same, opposite) ∷ cs) macro operator =
    let later = replacement_in cs macro operator in
    if str_eq op operator
    then macro_stem macro
      ++ txt (
          if is_one_of macro (txt "EXPECT_FALSE" ∷ txt "ASSERT_FALSE" ∷ []) then opposite else same)
    else later

-- `_CHECK_REPLACEMENT[macro][operator]`
unfoldable pub check_replacement : Str → Str → Str
unfolding replacement_in
check_replacement macro operator = replacement_in comparisons macro operator

-- `^(.*\bMACRO\s*)\(`
unfoldable pub macro_call : Str → Re
macro_call macro = at_start ▹ group 1 (dots ▹ boundary ▹ lit_codes macro ▹ spaces) ▹ one b'('

find_macro : List Str → Str → Option (Str × ℕ)
find_macro [] line = none
find_macro (macro ∷ macros) line =
    let later = find_macro macros line in
    if not (contains macro line) then later else elim (re_match (macro_call macro) line) [
      | none ↦ later
      | some m ↦ some (macro, length (group_text 1 m))
    ]

-- `FindCheckMacro`
unfoldable pub find_check_macro : Str → Option (Str × ℕ)
unfolding find_macro
find_check_macro line = find_macro check_macros line

-- `^\s*(<<|<<=|>>|>>=|->\*|->|&&|\|\||==|!=|>=|>|<=|<|\()(.*)$`
unfoldable pub operator_first : Re
unfolding words
operator_first =
    at_start
    ▹ spaces
    ▹ group 1 (
        words (
          "<<" ∷ "<<=" ∷ ">>" ∷ ">>=" ∷ "->*" ∷ "->" ∷ "&&" ∷ "||" ∷ "==" ∷ "!=" ∷ ">=" ∷ ">" ∷ "<="
          ∷ "<" ∷ "(" ∷ []))
    ▹ group 2 dots
    ▹ at_end

-- `^([^-=!<>()&|]+)(.*)$` and `^(\s*\S)(.*)$`
unfoldable pub operand_first : Re
unfolding none_of plus
operand_first = at_start ▹ group 1 (plus (none_of "-=!<>()&|")) ▹ group 2 dots ▹ at_end

unfoldable pub character_first : Re
character_first = at_start ▹ group 1 (spaces ▹ non_space) ▹ group 2 dots ▹ at_end

-- What is parsed so far, and the text that is left.
pub record Parse : Type 0 where
  pub lhs : Str
  pub expression : Str

-- The two sides and the operator between them. Where the loop ends without an operator, or returns, there
-- is nothing to report: `none`.
abbrev pub Sides : Type 0
Sides = Option (Str × Str × Str)

-- A parenthesis: the text up to the one that closes it.
on_parenthesis : Parse → Str → Round Parse Sides
on_parenthesis s expression = elim (find_end_of_expression_in_line expression 0 (b'(' ∷ [])) [
  | found end ↦
      again (record {
        lhs = s.lhs ++ (txt "(" ++ take end expression);
        expression = drop end expression;
      })
  | failed ↦ stop none
  | pending stack ↦ stop none
]

on_operator : Parse → Str → Str → Round Parse Sides
unfolding on_parenthesis
on_operator s token rest =
    if str_eq token (txt "(")
    then on_parenthesis s rest
    else if is_one_of token (txt "&&" ∷ txt "||" ∷ [])
    then stop none
    else if is_one_of token
        (txt "<<" ∷ txt "<<=" ∷ txt ">>" ∷ txt ">>=" ∷ txt "->*" ∷ txt "->" ∷ [])
    then again (record { lhs = s.lhs ++ token; expression = rest })
    else stop (some (s.lhs, token, rest))

on_operand : Parse → Round Parse Sides
on_operand s = elim (re_match operand_first s.expression) [
  | some m ↦ again (record { lhs = s.lhs ++ group_text 1 m; expression = group_text 2 m })
  | none ↦ elim (re_match character_first s.expression) [
    | some m ↦ again (record { lhs = s.lhs ++ group_text 1 m; expression = group_text 2 m })
    | none ↦ stop none
  ]
]

-- One round of the loop.
unfoldable pub parse_round : Parse → Round Parse Sides
unfolding on_operator on_operand
parse_round s = elim s.expression [
  | [] ↦ stop none
  | c ∷ rest ↦ elim (re_match operator_first s.expression) [
    | some m ↦ on_operator s (group_text 1 m) (group_text 2 m)
    | none ↦ on_operand s
  ]
]

-- The loop; `none` where it does not end within one round more than the text has characters.
unfoldable pub parse_sides : Str → Option Sides
parse_sides expression =
    iterate parse_round (suc (length expression)) (record { lhs = []; expression = expression })

concat_lines : List Str → Str
concat_lines [] = []
concat_lines (line ∷ lines) = line ++ concat_lines lines

-- The text inside the parentheses of the macro.
unfoldable pub macro_expression : List Str → ℕ → ℕ → Str → ℕ → ℕ → Str
unfolding concat_lines
macro_expression lines linenum start_pos last_line end_line end_pos =
    let line = get_or lines linenum [] in
    if linenum == end_line
    then take (end_pos - 1 - (start_pos + 1)) (drop (start_pos + 1) line)
    else drop (start_pos + 1) line
      ++ (concat_lines (take (end_line - (linenum + 1)) (drop (linenum + 1) lines))
          ++ take (end_pos - 1) last_line)

-- `^([-+]?(\d+|0[xX][0-9a-fA-F]+)[lLuU]{0,3}|".*"|\'.*\')$`
unfoldable pub match_constant : Re
unfolding one_of plus opt
match_constant =
    at_start
    ▹ group 1 (
        (opt (one_of "-+")
          ▹ group 2
              (plus digit ∣∣ (one b'0' ▹ one_of "xX" ▹ plus (one_of "0123456789abcdefABCDEF")))
          ▹ opt (one_of "lLuU")
          ▹ opt (one_of "lLuU")
          ▹ opt (one_of "lLuU"))
        ∣∣ ((one b'"' ▹ dots ▹ one b'"') ∣∣ (one b'\'' ▹ dots ▹ one b'\'')))
    ▹ at_end

check_message : Str → Str → Str
check_message check_macro operator =
    txt "Consider using "
    ++ (check_replacement check_macro operator
        ++ (txt " instead of " ++ (check_macro ++ (txt "(a " ++ (operator ++ txt " b)")))))

is_empty : Str → Bool
is_empty [] = true
is_empty (c ∷ s) = false

unfoldable pub side_reports : Str → ℕ → Str → Sides → List Report
unfolding check_message is_empty
side_reports filename linenum check_macro none = []
side_reports filename linenum check_macro (some (lhs, operator, rhs)) =
    report_if
      (not (is_empty lhs)
        && not (is_empty rhs)
        && not (contains (txt "&&") rhs)
        && not (contains (txt "||") rhs)
        && (matches match_constant (strip lhs) || matches match_constant (strip rhs)))
      (error filename linenum "readability/check" 2 (check_message check_macro operator))

on_macro_end : Str → List Str → ℕ → Str → ℕ → Position → Option (List Report)
on_macro_end filename lines linenum check_macro start_pos p = elim p.pos [
  | none ↦ some []
  | some end_pos ↦
      if not (matches (spaces ▹ one b';') (drop end_pos p.line))
      then some []
      else elim (parse_sides (macro_expression lines linenum start_pos p.line p.linenum end_pos)) [
        | none ↦ none
        | some sides ↦ some (side_reports filename linenum check_macro sides)
      ]
]

-- `CheckCheck`; `none` where the loop does not end, or for an exception of `CloseExpression`.
unfoldable pub check_check : Str → CleansedLines → ℕ → Option (List Report)
unfolding on_macro_end
check_check filename clean_lines linenum =
    let lines = clean_lines.elided in
    elim (find_check_macro (get_or lines linenum [])) [
      | none ↦ some []
      | some (check_macro, start_pos) ↦ elim (close_expression clean_lines linenum start_pos) [
        | none ↦ none
        | some p ↦ on_macro_end filename lines linenum check_macro start_pos p
      ]
    ]
