-- ===== src/Style/Operators.antt =====
-- `CheckOperatorSpacing` of cpplint.py: spaces around operators.
pub mod Ends
use dyod_ws.Base.{
  ℕ, suc, Bool, false, not, ◌&&◌, ◌||◌, Option, none, some, List, [], ◌∷◌, ◌++◌, length, get_or,
  all, leb, if◌then◌else◌,
}
use dyod_ws.Base.Loop.{Round, again, stop, iterate}
use dyod_ws.Base.Text.{Str, txt, str_eq}
use dyod_ws.Brackets.Backward.{reverse_close_expression}
use dyod_ws.Brackets.Forward.{Position, close_expression}
use dyod_ws.Cleanse.{CleansedLines}
use dyod_ws.Re.{
  Re, set, except, group, at_start, at_end, boundary, one, lit, plus, opt, words, space, spaces,
  non_space, word_ranges, space_ranges, single, dots, re_match, re_search, group_text, matches,
  searches, ◌▹◌, ◌∣∣◌,
}
use dyod_ws.Report.{Report, error, report_if}

-- `^(.*\boperator\b)(\S+)(\s*\(.*)$`
unfoldable pub operator_function : Re
unfolding lit plus
operator_function =
    at_start
    ▹ group 1 (dots ▹ boundary ▹ lit "operator" ▹ boundary)
    ▹ group 2 (plus non_space)
    ▹ group 3 (spaces ▹ one b'(' ▹ dots)
    ▹ at_end

-- As many underscores as there are characters.
unfoldable pub underscored : Str → Str
underscored [] = []
underscored (c ∷ s) = b'_' ∷ underscored s

unfoldable pub operator_round : Str → Round Str Str
operator_round line = elim (re_match operator_function line) [
  | none ↦ stop line
  | some m ↦ again (group_text 1 m ++ (underscored (group_text 2 m) ++ group_text 3 m))
]

-- The loop that hides the names of operator functions; `none` where it does not end within one round
-- more than the line has characters.
unfoldable pub hide_operators : Str → Option Str
hide_operators line = iterate operator_round (suc (length line)) line

-- `[\w.]=`, `=[\w.]` and `\b(if|while|for) `
unfoldable pub tight_before : Re
tight_before = set (single b'.' ∷ word_ranges) ▹ one b'='

unfoldable pub tight_after : Re
tight_after = one b'=' ▹ set (single b'.' ∷ word_ranges)

unfoldable pub condition : Re
unfolding words
condition = boundary ▹ group 1 (words ("if" ∷ "while" ∷ "for" ∷ [])) ▹ one b' '

-- `(>=|<=|==|!=|&=|\^=|\|=|\+=|\*=|\/=|\%=)` and `operator=`
unfoldable pub compound : Re
unfolding words
compound =
    group 1
      (words (">=" ∷ "<=" ∷ "==" ∷ "!=" ∷ "&=" ∷ "^=" ∷ "|=" ∷ "+=" ∷ "*=" ∷ "/=" ∷ "%=" ∷ []))

unfoldable pub operator_equals : Re
unfolding lit
operator_equals = lit "operator="

-- `[^<>=!\s](==|!=|<=|>=|\|\|)[^<>=!\s,;\)]`
unfoldable pub comparison : Re
unfolding words
comparison =
    except (single b'<' ∷ single b'>' ∷ single b'=' ∷ single b'!' ∷ space_ranges)
    ▹ group 1 (words ("==" ∷ "!=" ∷ "<=" ∷ ">=" ∷ "||" ∷ []))
    ▹ except (
        single b'<'
        ∷ single b'>'
        ∷ single b'='
        ∷ single b'!'
        ∷ single b','
        ∷ single b';'
        ∷ single b')'
        ∷ space_ranges)

-- `#.*include`, `^(.*[^\s<])<[^\s=<,]` and `^(.*[^-\s>])>[^\s=>,]`
unfoldable pub include_directive : Re
unfolding lit
include_directive = one b'#' ▹ dots ▹ lit "include"

unfoldable pub less_than : Re
less_than =
    at_start
    ▹ group 1 (dots ▹ except (single b'<' ∷ space_ranges))
    ▹ one b'<'
    ▹ except (single b'=' ∷ single b'<' ∷ single b',' ∷ space_ranges)

unfoldable pub greater_than : Re
greater_than =
    at_start
    ▹ group 1 (dots ▹ except (single b'-' ∷ single b'>' ∷ space_ranges))
    ▹ one b'>'
    ▹ except (single b'=' ∷ single b'>' ∷ single b',' ∷ space_ranges)

-- `(operator|[^\s(<])(?:L|UL|LL|ULL|l|ul|ll|ull)?<<([^\s,=<])`
unfoldable pub shift_left : Re
unfolding words lit opt
shift_left =
    group 1 (lit "operator" ∣∣ except (single b'(' ∷ single b'<' ∷ space_ranges))
    ▹ opt (words ("L" ∷ "UL" ∷ "LL" ∷ "ULL" ∷ "l" ∷ "ul" ∷ "ll" ∷ "ull" ∷ []))
    ▹ lit "<<"
    ▹ group 2 (except (single b',' ∷ single b'=' ∷ single b'<' ∷ space_ranges))

-- `>>[a-zA-Z_]` and `(!\s|~\s|[\s]--[\s;]|[\s]\+\+[\s;])`
unfoldable pub shift_right : Re
unfolding lit
shift_right =
    lit ">>"
    ▹ set (record { lo = b'a'; hi = b'z' } ∷ record { lo = b'A'; hi = b'Z' } ∷ single b'_' ∷ [])

unfoldable pub unary : Re
unfolding lit
unary = group 1 (
    (one b'!' ▹ space)
    ∣∣ ((one b'~' ▹ space)
        ∣∣ ((space ▹ lit "--" ▹ set (single b';' ∷ space_ranges))
            ∣∣ (space ▹ lit "++" ▹ set (single b';' ∷ space_ranges)))))

-- `s.isdigit()`
unfoldable pub is_digits : Str → Bool
is_digits [] = false
is_digits (c ∷ s) = all (λ d. leb b'0' d && leb d b'9') (c ∷ s)

assignment_reports : Str → ℕ → Str → List Report
assignment_reports filename linenum line =
    report_if
      ((searches tight_before line || searches tight_after line)
        && not (searches condition line)
        && not (searches compound line)
        && not (searches operator_equals line))
      (error filename linenum "whitespace/operators" 4 (txt "Missing spaces around ="))

-- A report where the position that an angle bracket leads to is not found.
unmatched : Str → ℕ → Str → Option Position → Option (List Report)
unmatched filename linenum mark none = none
unmatched filename linenum mark (some p) = some (elim p.pos [
  | none ↦ error filename linenum "whitespace/operators" 3 (txt "Missing spaces around " ++ mark)
  | some i ↦ []
])

less_reports : Str → CleansedLines → ℕ → Str → Option (List Report)
unfolding unmatched
less_reports filename clean_lines linenum line = elim (re_match less_than line) [
  | none ↦ some []
  | some m ↦
      unmatched filename linenum (txt "<")
        (close_expression clean_lines linenum (length (group_text 1 m)))
]

greater_reports : Str → CleansedLines → ℕ → Str → Option (List Report)
unfolding unmatched
greater_reports filename clean_lines linenum line = elim (re_match greater_than line) [
  | none ↦ some []
  | some m ↦
      unmatched filename linenum (txt ">")
        (reverse_close_expression clean_lines linenum (length (group_text 1 m)))
]

unfoldable pub both : Option (List Report) → Option (List Report) → Option (List Report)
both none b = none
both (some a) none = none
both (some a) (some b) = some (a ++ b)

angle_reports : Str → CleansedLines → ℕ → Str → Option (List Report)
unfolding less_reports greater_reports both
angle_reports filename clean_lines linenum line = elim (re_search comparison line) [
  | some m ↦ some (
      error filename linenum "whitespace/operators" 3
        (txt "Missing spaces around " ++ group_text 1 m))
  | none ↦
      if matches include_directive line
      then some []
      else both (less_reports filename clean_lines linenum line)
          (greater_reports filename clean_lines linenum line)
]

shift_reports : Str → ℕ → Str → List Report
shift_reports filename linenum line = elim (re_search shift_left line) [
  | none ↦ []
  | some m ↦
      report_if
        (not (is_digits (group_text 1 m) && is_digits (group_text 2 m))
          && not (str_eq (group_text 1 m) (txt "operator") && str_eq (group_text 2 m) (txt ";")))
        (error filename linenum "whitespace/operators" 3 (txt "Missing spaces around <<"))
]

unary_reports : Str → ℕ → Str → List Report
unary_reports filename linenum line = elim (re_search unary line) [
  | none ↦ []
  | some m ↦
      error filename linenum "whitespace/operators" 4
        (txt "Extra space for operator " ++ group_text 1 m)
]

-- The part behind the loop, on the line that it leaves.
unfoldable pub operator_reports : Str → CleansedLines → ℕ → Str → Option (List Report)
unfolding assignment_reports angle_reports shift_reports unary_reports both
operator_reports filename clean_lines linenum line =
    both (some (assignment_reports filename linenum line)) (
      both (angle_reports filename clean_lines linenum line) (
        some (
          shift_reports filename linenum line
          ++ (report_if (searches shift_right line)
                (error filename linenum "whitespace/operators" 3 (txt "Missing spaces around >>"))
              ++ unary_reports filename linenum line))))

-- `CheckOperatorSpacing`; `none` where the loop does not end, or for an exception of `CloseExpression`
-- or `ReverseCloseExpression`.
unfoldable pub check_operator_spacing : Str → CleansedLines → ℕ → Option (List Report)
check_operator_spacing filename clean_lines linenum =
    elim (hide_operators (get_or clean_lines.elided linenum [])) [
      | none ↦ none
      | some line ↦ operator_reports filename clean_lines linenum line
    ]
