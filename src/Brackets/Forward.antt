-- ===== src/Brackets/Forward.antt =====
-- `FindEndOfExpressionInLine` and `CloseExpression` of cpplint.py.
pub mod Bounds
pub mod Balanced
pub mod Exact
pub mod Close
use dyod_ws.Base.{
  ℕ, ◌+◌, ◌-◌, Bool, true, false, not, ◌&&◌, ◌||◌, Option, none, some, List, [], ◌∷◌, take, drop,
  get_or, get_elem?, ◌==◌, ltb, if◌then◌else◌,
}
use dyod_ws.Base.Loop.{Round, again, stop}
use dyod_ws.Base.Text.{Str}
use dyod_ws.Re.{Re, seq, at_end, boundary, lit, one, one_of, spaces, matches, searches, ◌▹◌}
use dyod_ws.Cleanse.{CleansedLines}

-- The three kinds of answer for one line: `(e, None)`, `(-1, None)` and `(-1, stack)`. The top of the
-- stack is the head of the list.
pub data Answer : Type 0 where
  found : ℕ → Answer
  failed : Answer
  pending : List ℕ → Answer

abbrev pub is_open : ℕ → Bool
is_open c = c == b'(' || c == b'[' || c == b'{'

abbrev pub is_close : ℕ → Bool
is_close c = c == b')' || c == b']' || c == b'}'

abbrev pub pairs : ℕ → ℕ → Bool
pairs open_char close_char =
    (open_char == b'(' && close_char == b')')
    || (open_char == b'[' && close_char == b']')
    || (open_char == b'{' && close_char == b'}')

-- `while stack and stack[-1] == mark: stack.pop()`
unfoldable pub pop_while : ℕ → List ℕ → List ℕ
pop_while mark [] = []
pop_while mark (top ∷ stack) =
    let rest = pop_while mark stack in if top == mark then rest else top ∷ stack

-- The test for an `operator` in front.
unfoldable pub operator_at_end : Re
unfolding lit
operator_at_end = boundary ▹ lit "operator" ▹ spaces ▹ at_end

-- A pop that fails where it leaves the stack empty: at `<<`.
left_shift : List ℕ → Round (List ℕ) Answer
left_shift [] = again []
left_shift (top ∷ []) = if top == b'<' then stop failed else again (top ∷ [])
left_shift (top ∷ next ∷ stack) =
    if top == b'<' then again (next ∷ stack) else again (top ∷ next ∷ stack)

-- The pop behind a matching bracket, with what is found where it leaves the stack empty.
pub popped : ℕ → List ℕ → Round (List ℕ) Answer
popped e [] = stop (found e)
popped e (next ∷ stack) = again (next ∷ stack)

pub close : ℕ → ℕ → List ℕ → Round (List ℕ) Answer
unfolding popped
close i c [] = stop failed
close i c (top ∷ stack) = if pairs top c then popped (i + 1) stack else stop failed

close_angle : ℕ → List ℕ → Round (List ℕ) Answer
unfolding popped
close_angle i [] = again []
close_angle i (top ∷ stack) = if top == b'<' then popped (i + 1) stack else again (top ∷ stack)

end_statement : List ℕ → Round (List ℕ) Answer
end_statement [] = stop failed
end_statement (top ∷ stack) = again (top ∷ stack)

before_is : Str → ℕ → ℕ → Bool
before_is line i c = ltb 0 i && get_or line (i - 1) 0 == c

-- One character of the loop, `char = line[i]`.
unfoldable pub forward_char : Str → ℕ → ℕ → List ℕ → Round (List ℕ) Answer
unfolding left_shift close close_angle end_statement before_is
forward_char line i c stack =
    if is_open c
    then again (c ∷ stack)
    else if c == b'<'
    then (if before_is line i b'<'
        then left_shift stack
        else if ltb 0 i && searches operator_at_end (take i line)
        then again stack
        else again (b'<' ∷ stack))
    else if is_close c
    then close i c (pop_while b'<' stack)
    else if c == b'>'
    then (if ltb 0 i
          && (get_or line (i - 1) 0 == b'-' || searches operator_at_end (take (i - 1) line))
        then again stack
        else close_angle i stack)
    else if c == b';'
    then end_statement (pop_while b'<' stack)
    else again stack

-- The loop, over the characters from position `i` on.
unfoldable pub forward_from : Str → ℕ → Str → List ℕ → Answer
forward_from line i [] stack = pending stack
forward_from line i (c ∷ rest) stack = elim (forward_char line i c stack) [
  | again stack' ↦ forward_from line (i + 1) rest stack'
  | stop answer ↦ answer
]

unfoldable pub find_end_of_expression_in_line : Str → ℕ → List ℕ → Answer
unfolding forward_from
find_end_of_expression_in_line line startpos stack =
    forward_from line startpos (drop startpos line) stack

-- A line, its number and a position on it, `none` for -1.
pub record Position : Type 0 where
  pub line : Str
  pub linenum : ℕ
  pub pos : Option ℕ

abbrev give_up : Str → ℕ → Position
give_up line num_lines = record { line = line; linenum = num_lines; pos = none }

-- The loop over the lines behind line number `linenum`, which are `rest`.
unfoldable pub close_from : ℕ → List Str → ℕ → Str → List ℕ → Position
close_from num_lines [] linenum line stack = give_up line num_lines
close_from num_lines (next ∷ rest) linenum line [] = give_up line num_lines
close_from num_lines (next ∷ rest) linenum line (top ∷ stack) =
    elim (find_end_of_expression_in_line next 0 (top ∷ stack)) [
      | found e ↦ record { line = next; linenum = linenum + 1; pos = some e }
      | failed ↦ give_up next num_lines
      | pending stack' ↦ close_from num_lines rest (linenum + 1) next stack'
    ]

-- `<<` or `<=`
unfoldable pub shift_or_compare : Re
unfolding one_of
shift_or_compare = one b'<' ▹ one_of "<="

close_on : CleansedLines → ℕ → Str → ℕ → ℕ → Position
close_on clean_lines linenum line pos c =
    if not (is_open c || c == b'<') || matches shift_or_compare (drop pos line)
    then give_up line clean_lines.num_lines
    else elim (find_end_of_expression_in_line line pos []) [
      | found e ↦ record { line = line; linenum = linenum; pos = some e }
      | failed ↦ give_up line clean_lines.num_lines
      | pending stack ↦
          close_from clean_lines.num_lines (drop (linenum + 1) clean_lines.elided) linenum line
            stack
    ]

close_at : CleansedLines → ℕ → Str → ℕ → Option Position
unfolding close_on
close_at clean_lines linenum line pos = elim (get_elem? line pos) [
  | none ↦ none
  | some c ↦ some (close_on clean_lines linenum line pos c)
]

-- `CloseExpression`; `none` is the exception for a line or a position out of range.
unfoldable pub close_expression : CleansedLines → ℕ → ℕ → Option Position
unfolding close_at
close_expression clean_lines linenum pos = elim (get_elem? clean_lines.elided linenum) [
  | none ↦ none
  | some line ↦ close_at clean_lines linenum line pos
]
