-- ===== src/Cleanse/Collapse.antt =====
-- `_CollapseStrings` of cpplint.py: strings and characters on a line become "" and ''.
pub mod Ends
use dyod_ws.Base.{suc, ◌+◌, Option, none, some, List, [], ◌∷◌, ◌++◌, length, drop, if◌then◌else◌}
use dyod_ws.Base.Loop.{Round, again, stop, iterate, joined}
use dyod_ws.Base.Text.{Str, txt, str_eq, find, replace}
use dyod_ws.Re.{
  Re, Range, star, group, at_start, at_end, boundary, set, one, lit, opt, plus, one_of, none_of,
  spaces, word, dots, re_match, re_sub, matches, searches, group_text, ◌▹◌, ◌∣∣◌,
}

abbrev digit_range : Range
digit_range = record { lo = b'0'; hi = b'9' }

abbrev hex_ranges : List Range
hex_ranges = digit_range ∷ record { lo = b'a'; hi = b'f' } ∷ record { lo = b'A'; hi = b'F' } ∷ []

-- `_RE_PATTERN_INCLUDE`
unfoldable pub include_pattern : Re
unfolding lit one_of none_of
include_pattern =
    at_start
    ▹ spaces
    ▹ one b'#'
    ▹ spaces
    ▹ lit "include"
    ▹ spaces
    ▹ group 1 (one_of "<\"")
    ▹ group 2 (star (none_of ">\""))
    ▹ one_of ">\""
    ▹ dots
    ▹ at_end

-- `_RE_PATTERN_CLEANSE_LINE_ESCAPES`
unfoldable pub cleanse_line_escapes : Re
unfolding one_of plus
cleanse_line_escapes =
    one b'\\'
    ▹ group 1 (
        one_of "abfnrtv?\"\\'"
        ∣∣ (plus (set (digit_range ∷ [])) ∣∣ (one b'x' ▹ plus (set hex_ranges))))

-- `^([^'"]*)(['"])(.*)$`
unfoldable pub first_quote : Re
unfolding one_of none_of
first_quote =
    at_start ▹ group 1 (star (none_of "'\"")) ▹ group 2 (one_of "'\"") ▹ group 3 dots ▹ at_end

-- `\b(?:0[bBxX]?|[1-9])[0-9a-fA-F]*$`
unfoldable pub digits_at_end : Re
unfolding one_of opt
digits_at_end =
    boundary
    ▹ ((one b'0' ▹ opt (one_of "bBxX")) ∣∣ set (record { lo = b'1'; hi = b'9' } ∷ []))
    ▹ star (set hex_ranges)
    ▹ at_end

-- `^((?:'?[0-9a-zA-Z_])*)(.*)$`
unfoldable pub digit_separators : Re
unfolding opt
digit_separators = at_start ▹ group 1 (star (opt (one b'\'') ▹ word)) ▹ group 2 dots ▹ at_end

-- What is collapsed so far, and the text that is left.
pub record Collapse : Type 0 where
  pub collapsed : Str
  pub elided : Str

abbrev go_on : Collapse → Str → Str → Round Collapse (Option Str)
go_on s piece rest = again (record { collapsed = s.collapsed ++ piece; elided = rest })

abbrev give_up : Collapse → Round Collapse (Option Str)
give_up s = stop (some (s.collapsed ++ s.elided))

-- A string: up to the second quote, or the whole line if there is none.
double_quote : Collapse → Str → Str → Round Collapse (Option Str)
double_quote s head tail = elim (find (txt "\"") tail) [
  | some second_quote ↦ go_on s (head ++ txt "\"\"") (drop (second_quote + 1) tail)
  | none ↦ give_up s
]

-- A digit separator. `none` is the `AttributeError` where the pattern does not match.
separator : Collapse → Str → Str → Round Collapse (Option Str)
separator s head tail = elim (re_match digit_separators (txt "'" ++ tail)) [
  | some l ↦ go_on s (head ++ replace (txt "'") [] (group_text 1 l)) (group_text 2 l)
  | none ↦ stop none
]

-- A character: up to the second quote, or the whole line if there is none.
single_quote : Collapse → Str → Str → Round Collapse (Option Str)
single_quote s head tail = elim (find (txt "'") tail) [
  | some second_quote ↦ go_on s (head ++ txt "''") (drop (second_quote + 1) tail)
  | none ↦ give_up s
]

quoted : Collapse → Str → Str → Str → Round Collapse (Option Str)
unfolding double_quote separator single_quote
quoted s head quote tail =
    if str_eq quote (txt "\"")
    then double_quote s head tail
    else if searches digits_at_end head
    then separator s head tail
    else single_quote s head tail

-- One round of the loop.
unfoldable pub collapse_round : Collapse → Round Collapse (Option Str)
unfolding quoted
collapse_round s = elim (re_match first_quote s.elided) [
  | none ↦ give_up s
  | some m ↦ quoted s (group_text 1 m) (group_text 2 m) (group_text 3 m)
]

-- A round that goes on shortens the text that is left, so its length is fuel enough. `none` is the
-- exception above.
unfoldable pub collapse_strings : Str → Option Str
unfolding collapse_round joined
collapse_strings line =
    if matches include_pattern line
    then some line
    else (let elided = re_sub cleanse_line_escapes (λ m. []) line in
        joined (
          iterate collapse_round (suc (length elided))
            (record { collapsed = []; elided = elided })))
