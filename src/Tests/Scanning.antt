-- ===== src/Tests/Scanning.antt =====
-- The theorems on brackets, comments and whole-file checks at concrete texts.
use dyod_ws.Base.{
  ◌+◌, ◌-◌, ◌≤◌, ◌<◌, true, ◌≡◌, refl, ◌↔◌, some, List, [], ◌∷◌, ◌++◌, arith, All, length, drop,
  get_elem?, get_or,
}
use dyod_ws.Base.Text.{Str, txt}
use dyod_ws.Brackets.Forward.{
  is_open, pairs, found, Position, find_end_of_expression_in_line, close_expression,
}
use dyod_ws.Brackets.Forward.Balanced.{Balanced, empty, quiet, nest, find_end-Balanced}
use dyod_ws.Brackets.Forward.Bounds.{is_end_mark, find_end_bounds}
use dyod_ws.Brackets.Forward.Close.{Fits, close_expression-Fits}
use dyod_ws.Brackets.Forward.Exact.{IsExpression, find_end-IsExpression}
use dyod_ws.Brackets.Backward.{find_start_of_expression_in_line, reverse_close_expression}
use dyod_ws.Brackets.Backward.Bounds.{is_start_mark, find_start_bounds}
use dyod_ws.Brackets.Backward.Close.{Starts, reverse_close_expression-Starts}
use dyod_ws.Cleanse.{CleansedLines}
use dyod_ws.Cleanse.Comments.{remove_multi_line_comments}
use dyod_ws.Cleanse.Comments.Cleared.{Kept, remove_multi_line_comments_total}
use dyod_ws.FileChecks.{get_indent_level, check_for_bad_characters}
use dyod_ws.FileChecks.Indent.{leading_spaces, level_before, get_indent_level-leading_spaces}
use dyod_ws.FileChecks.Reports.{IsClean, check_for_bad_characters_iff}
use dyod_ws.Report.{Report}

abbrev call : Str
call = b'f' ∷ b'(' ∷ b'[' ∷ b'a' ∷ b']' ∷ b')' ∷ b'x' ∷ []

call_ends : find_end_of_expression_in_line call 1 [] ≡ found 6
unfolding find_end_of_expression_in_line dyod_ws.Brackets.Forward.forward_char
    dyod_ws.Brackets.Forward.pop_while
call_ends = refl

find_end-IsExpression_example :
    (text : Str) × (left : Str) × (drop 1 call ≡ text ++ left)
    × (6 ≡ 1 + length text)
    × IsExpression text
find_end-IsExpression_example =
    find_end-IsExpression call (b'[' ∷ b'a' ∷ b']' ∷ b')' ∷ b'x' ∷ []) 1 6 b'('
      (refl, (refl, (refl, (refl, (refl, (refl, (refl, tt))))))) refl refl call_ends

abbrev inside : Str
inside = b'[' ∷ b'a' ∷ b']' ∷ []

inside-Balanced : Balanced inside
inside-Balanced = nest b'[' b']' refl (quiet b'a' refl empty) empty

find_end-Balanced_example :
    find_end_of_expression_in_line (b'f' ∷ b'(' ∷ b'[' ∷ b'a' ∷ b']' ∷ b')' ∷ b';' ∷ []) 1 []
    ≡ found 6
find_end-Balanced_example =
    find_end-Balanced {w = inside} (b'f' ∷ []) (b';' ∷ []) b'(' b')' refl inside-Balanced

find_end_bounds_example :
    (1 < 6) × (6 ≤ length call) × (is_end_mark (get_or (drop 1 call) (6 - 1 - 1) 0) ≡ true)
find_end_bounds_example = find_end_bounds call 1 6 [] (omega arith) call_ends

abbrev two_lines : List Str
two_lines = (b'f' ∷ b'(' ∷ b'a' ∷ []) ∷ (b'b' ∷ b')' ∷ b';' ∷ []) ∷ []

abbrev clean : CleansedLines
clean = record {
  elided = two_lines;
  lines = two_lines;
  raw_lines = two_lines;
  num_lines = 2;
  lines_without_raw_strings = two_lines;
}

abbrev closing : Position
closing = record { line = b'b' ∷ b')' ∷ b';' ∷ []; linenum = 1; pos = some 2 }

closing_found : close_expression clean 0 1 ≡ some closing
unfolding close_expression dyod_ws.Re.matches dyod_ws.Brackets.Forward.shift_or_compare
    find_end_of_expression_in_line dyod_ws.Brackets.Forward.forward_char
    dyod_ws.Brackets.Forward.close_from dyod_ws.Brackets.Forward.pop_while
closing_found = refl

close_expression-Fits_example : Fits two_lines 2 0 closing
close_expression-Fits_example = close_expression-Fits clean 0 1 closing closing_found

abbrev commented : List Str
commented = txt "/* a" ∷ txt "b */" ∷ txt "int c;" ∷ []

remove_multi_line_comments_total_example :
    (r : List Str × List Report) × (remove_multi_line_comments (txt "a.h") commented ≡ some r)
    × Kept commented r.0
remove_multi_line_comments_total_example = remove_multi_line_comments_total (txt "a.h") commented

get_indent_level-leading_spaces_example :
    get_indent_level (txt "   x")
    ≡ level_before
        (leading_spaces (txt "   x"))
        (get_elem? (txt "   x") (leading_spaces (txt "   x")))
get_indent_level-leading_spaces_example = get_indent_level-leading_spaces (txt "   x")

check_for_bad_characters_iff_example :
    (check_for_bad_characters (txt "a.h") commented ≡ []) ↔ All IsClean commented
check_for_bad_characters_iff_example = check_for_bad_characters_iff (txt "a.h") commented

start_found : find_start_of_expression_in_line call 6 [] ≡ found 1
unfolding find_start_of_expression_in_line dyod_ws.Brackets.Backward.backward_char
    dyod_ws.Brackets.Forward.pop_while
start_found = refl

find_start_bounds_example : (1 < 6) × (is_start_mark (get_or call 1 0) ≡ true)
find_start_bounds_example = find_start_bounds call 6 1 [] start_found

abbrev opening : Position
opening = record { line = b'f' ∷ b'(' ∷ b'a' ∷ []; linenum = 0; pos = some 1 }

opening_found : reverse_close_expression clean 1 1 ≡ some opening
unfolding reverse_close_expression find_start_of_expression_in_line
    dyod_ws.Brackets.Backward.backward_char dyod_ws.Brackets.Backward.open_from
    dyod_ws.Brackets.Forward.pop_while
opening_found = refl

reverse_close_expression-Starts_example : Starts clean.elided 1 opening
reverse_close_expression-Starts_example =
    reverse_close_expression-Starts clean 1 1 opening opening_found
