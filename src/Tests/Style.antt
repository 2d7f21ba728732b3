-- ===== src/Tests/Style.antt =====
-- The theorems on the style checks of a line at concrete lines.
use dyod_ws.Base.{
  ℕ, ◌<◌, ◌≤◌, ◌*◌, Bool, true, false, ◌≡◌, refl, arith, Option, none, some, List, [], ◌∷◌, length,
  All,
}
use dyod_ws.Base.Text.{Str, txt, join}
use dyod_ws.Cleanse.{CleansedLines}
use dyod_ws.Nesting.Blocks.{Block, ClassInfo, class_info, block_info}
use dyod_ws.Nesting.Preprocessor.{NestingState}
use dyod_ws.Re.{Found, re_match}
use dyod_ws.Style.Explicit.{
  is_cut, constructor_pattern, base_classname, check_for_non_standard_constructs,
}
use dyod_ws.Style.Explicit.Arguments.{join_args-join}
use dyod_ws.Style.Explicit.Raises.{check-raises}
use dyod_ws.Style.Macros.{Sides, parse_sides}
use dyod_ws.Style.Macros.Ends.{parse_sides_total}
use dyod_ws.Style.Operators.{hide_operators}
use dyod_ws.Style.Operators.Ends.{hide_operators_total}
use dyod_ws.Style.Sections.{get_previous_non_blank_line}
use dyod_ws.Style.Sections.Previous.{Finds, get_previous_non_blank_line-Finds}

join_args-join_example :
    (join (txt ",") (txt "map<int,int> m" ∷ txt "int b" ∷ [])
      ≡ join (txt ",") (txt "map<int" ∷ txt "int> m" ∷ txt "int b" ∷ []))
    × All (λ a. is_cut a ≡ false) (txt "map<int,int> m" ∷ txt "int b" ∷ [])
unfolding dyod_ws.Style.Explicit.join_args dyod_ws.Base.Text.count txt
join_args-join_example =
    join_args-join (txt "map<int") (txt "int> m" ∷ txt "int b" ∷ [])
      (txt "map<int,int> m" ∷ txt "int b" ∷ []) refl

abbrev some_lines : List Str
some_lines = txt "int a;" ∷ txt "" ∷ txt "  " ∷ txt "int b;" ∷ []

get_previous_non_blank_line-Finds_example :
    Finds some_lines 3 (get_previous_non_blank_line some_lines 3)
get_previous_non_blank_line-Finds_example = get_previous_non_blank_line-Finds some_lines 3

abbrev shift_line : Str
shift_line = txt "  Foo(int a = 1 << 3);"

abbrev shift_file : CleansedLines
shift_file = record {
  elided = shift_line ∷ [];
  lines = shift_line ∷ [];
  raw_lines = shift_line ∷ [];
  num_lines = 1;
  lines_without_raw_strings = shift_line ∷ [];
}

abbrev foo : ClassInfo
foo = record {
  name = txt "Foo";
  is_derived = false;
  access = txt "private";
  is_struct = false;
  class_indent = 0;
  last_line = 0;
}

abbrev foo_block : Block
foo_block = record (block_info 0 true) { kind = class_info foo }

abbrev in_foo : NestingState
in_foo = record { stack = foo_block ∷ []; previous_stack_top = none; pp_stack = [] }

abbrev shift_found : Found
shift_found = record { text = shift_line; start = 0; stop = 21; groups = (2, 6, 20) ∷ [] }

check-raises_example : check_for_non_standard_constructs (txt "a.h") shift_file 0 in_foo ≡ none
unfolding dyod_ws.Style.Explicit.innermost_block block_info re_match constructor_pattern
    base_classname dyod_ws.Base.Text.split_on dyod_ws.Re.group_of dyod_ws.Base.Text.count
check-raises_example =
    check-raises (txt "a.h") shift_file 0 b'i' (txt "nt a = 1 << 3") in_foo foo_block foo
      shift_found refl refl refl refl (omega arith)

parse_sides_total_example : (sides : Sides) × (parse_sides (txt "f(a) << b == 3") ≡ some sides)
parse_sides_total_example = parse_sides_total (txt "f(a) << b == 3")

hide_operators_total_example :
    (hidden : Str) × (hide_operators (txt "bool operator==(int a);") ≡ some hidden)
hide_operators_total_example = hide_operators_total (txt "bool operator==(int a);")
