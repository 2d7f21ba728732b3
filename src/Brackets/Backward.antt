-- ===== src/Brackets/Backward.antt =====
-- `FindStartOfExpressionInLine` and `ReverseCloseExpression` of cpplint.py.
pub mod Bounds
pub mod Close
use dyod_ws.Base.{
  ℕ, zero, suc, ◌+◌, ◌-◌, Bool, true, false, not, ◌&&◌, ◌||◌, Option, none, some, List, [], ◌∷◌,
  take, drop, get_or, get_elem?, length, reverse, ◌==◌, ltb, if◌then◌else◌,
}
use dyod_ws.Base.Text.{Str}
use dyod_ws.Brackets.Forward.{
  Answer, found, failed, pending, is_open, is_close, pairs, pop_while, operator_at_end, Position,
}
use dyod_ws.Cleanse.{CleansedLines}
use dyod_ws.Re.{Re, lit, space, matches, searches, ◌▹◌}

-- One round of the loop: go on, over the next character or over the next two, or end it.
pub data Move : Type 0 where
  next : List ℕ → Move
  skip : List ℕ → Move
  finish : Answer → Move

-- `\s>=\s`
unfoldable pub greater_or_equal : Re
unfolding lit
greater_or_equal = space ▹ lit ">=" ▹ space

popped : ℕ → List ℕ → Move
popped i [] = finish (found i)
popped i (top ∷ stack) = next (top ∷ stack)

open_angle : ℕ → List ℕ → Move
unfolding popped
open_angle i [] = next []
open_angle i (top ∷ stack) = if top == b'>' then popped i stack else next (top ∷ stack)

open_bracket : ℕ → ℕ → List ℕ → Move
unfolding popped
open_bracket i c [] = finish failed
open_bracket i c (top ∷ stack) = if pairs c top then popped i stack else finish failed

end_statement : List ℕ → Move
end_statement [] = finish failed
end_statement (top ∷ stack) = next (top ∷ stack)

before : Str → ℕ → ℕ
before line i = get_or line (i - 1) 0

not_an_angle : Str → ℕ → Bool
unfolding before
not_an_angle line i =
    ltb 0 i
    && (before line i == b'-'
        || matches greater_or_equal (drop (i - 1) line)
        || searches operator_at_end (take i line))

-- One character of the loop, `char = line[i]`.
unfoldable pub backward_char : Str → ℕ → ℕ → List ℕ → Move
unfolding open_angle open_bracket end_statement not_an_angle before
backward_char line i c stack =
    if is_close c
    then next (c ∷ stack)
    else if c == b'>'
    then (if not_an_angle line i then skip stack else next (b'>' ∷ stack))
    else if c == b'<'
    then (if ltb 0 i && before line i == b'<' then skip stack else open_angle i stack)
    else if is_open c
    then open_bracket i c (pop_while b'>' stack)
    else if c == b';'
    then end_statement (pop_while b'>' stack)
    else next stack

-- The loop over the first `n` characters, from the last of them down; `skipped` leaves the first
-- one out.
unfoldable pub backward_from : Str → ℕ → Bool → List ℕ → Answer
backward_from line zero skipped stack = pending stack
backward_from line (suc i) true stack = backward_from line i false stack
backward_from line (suc i) false stack = elim (backward_char line i (get_or line i 0) stack) [
  | next stack' ↦ backward_from line i false stack'
  | skip stack' ↦ backward_from line i true stack'
  | finish answer ↦ answer
]

-- `n` is `endpos + 1`, since `endpos` is -1 on an empty line.
unfoldable pub find_start_of_expression_in_line : Str → ℕ → List ℕ → Answer
unfolding backward_from
find_start_of_expression_in_line line n stack = backward_from line n false stack

abbrev give_up : Str → Position
give_up line = record { line = line; linenum = 0; pos = none }

-- The loop over the lines in front of line number `linenum`, the nearest first.
unfoldable pub open_from : List Str → ℕ → Str → List ℕ → Position
open_from [] linenum line stack = give_up line
open_from (above ∷ rest) linenum line [] = give_up line
open_from (above ∷ rest) linenum line (top ∷ stack) =
    elim (find_start_of_expression_in_line above (length above) (top ∷ stack)) [
      | found i ↦ record { line = above; linenum = linenum - 1; pos = some i }
      | failed ↦ give_up above
      | pending stack' ↦ open_from rest (linenum - 1) above stack'
    ]

open_on : CleansedLines → ℕ → Str → ℕ → ℕ → Position
open_on clean_lines linenum line pos c =
    if not (is_close c || c == b'>')
    then give_up line
    else elim (find_start_of_expression_in_line line (pos + 1) []) [
      | found i ↦ record { line = line; linenum = linenum; pos = some i }
      | failed ↦ give_up line
      | pending stack ↦ open_from (reverse (take linenum clean_lines.elided)) linenum line stack
    ]

open_at : CleansedLines → ℕ → Str → ℕ → Option Position
unfolding open_on
open_at clean_lines linenum line pos = elim (get_elem? line pos) [
  | none ↦ none
  | some c ↦ some (open_on clean_lines linenum line pos c)
]

-- `ReverseCloseExpression`; `none` is the exception for a line or a position out of range.
unfoldable pub reverse_close_expression : CleansedLines → ℕ → ℕ → Option Position
unfolding open_at
reverse_close_expression clean_lines linenum pos = elim (get_elem? clean_lines.elided linenum) [
  | none ↦ none
  | some line ↦ open_at clean_lines linenum line pos
]
