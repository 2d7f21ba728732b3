-- ===== src/Tests/State.antt =====
-- The theorems on includes, functions and nesting at concrete states.
use dyod_ws.Base.{
  ℕ, ◌*◌, ◌^◌, ◌≤◌, ◌<◌, true, false, ◌≡◌, ◌≢◌, refl, ◌↔◌, none, some, List, [], ◌∷◌, arith, All,
  if◌then◌else◌, ◌||◌,
}
use dyod_ws.Base.Text.{Str, txt, str_eq, starts_with}
use dyod_ws.Functions.{FunctionState, begin, check}
use dyod_ws.Functions.Size.{count_lines, check-begin_iff, check_confidence}
use dyod_ws.Includes.{HeaderType, other_header, IncludeState, append_include, find_header}
use dyod_ws.Includes.Sections.{Layout}
use dyod_ws.Includes.Seen.{first_of_two, find_header-append_include}
use dyod_ws.Nesting.Blocks.{block_info}
use dyod_ws.Nesting.Preprocessor.{NestingState}
use dyod_ws.Nesting.Preprocessor.Restore.{
  Branch, IsIf, IsElse, IsEndif, conditional, branch_starts, run_branch, conditional-stack,
  branch_starts-stack,
}
use dyod_ws.Re.{re_search}
use dyod_ws.Report.{Report}

abbrev in_cpp_section : IncludeState
in_cpp_section = record { include_list = [] ∷ []; section = 3; last_header = txt "vector" }

abbrev one_section : List (List (Str × ℕ))
one_section = ((txt "a.h", 1) ∷ []) ∷ []

one_section-some : one_section ≢ []
one_section-some = λ e. cc

find_header-append_include_example :
    find_header (txt "b.h") (append_include (txt "b.h", 7) one_section)
    ≡ first_of_two
        (find_header (txt "b.h") one_section)
        (if str_eq (txt "b.h") (txt "b.h") then some 7 else none)
find_header-append_include_example =
    find_header-append_include (txt "b.h") (txt "b.h") 7 one_section one_section-some

abbrev outside_functions : FunctionState
outside_functions = record { in_a_function = false; lines_in_function = 0; current_function = [] }

check-begin_iff_example :
    (check (txt "a.cpp") 9 0 (count_lines 260 (begin (txt "f") outside_functions)) ≢ []) ↔ (
      (if starts_with (txt "TEST") (txt "f") || starts_with (txt "Test") (txt "f")
          then 400
          else 250)
        * 2 ^ 0
      < 260)
check-begin_iff_example = check-begin_iff (txt "a.cpp") (txt "f") 9 0 260 outside_functions

abbrev long_function : FunctionState
long_function = record { in_a_function = true; lines_in_function = 600; current_function = txt "f" }

check_confidence_example :
    All
      (λ (r : Report). (1 ≤ r.confidence) × (r.confidence ≤ 5))
      (check (txt "a.cpp") 9 1 long_function)
check_confidence_example = check_confidence (txt "a.cpp") 9 1 long_function (omega arith)

abbrev in_block : NestingState
in_block = record { stack = block_info 1 true ∷ []; previous_stack_top = none; pp_stack = [] }

abbrev first_branch : Branch
first_branch = record {
  directive = txt "#if A";
  leaves = block_info 3 true ∷ block_info 1 true ∷ [];
}

abbrev second_branch : Branch
second_branch = record { directive = txt "#else"; leaves = [] }

first_branch-IsIf : IsIf (txt "#if A")
unfolding dyod_ws.Re.matches dyod_ws.Nesting.Preprocessor.if_pattern
first_branch-IsIf = refl

second_branch-IsElse : IsElse (txt "#else")
unfolding dyod_ws.Re.matches dyod_ws.Nesting.Preprocessor.if_pattern
    dyod_ws.Nesting.Preprocessor.else_pattern
second_branch-IsElse = (refl, refl)

last_directive-IsEndif : IsEndif (txt "#endif")
unfolding dyod_ws.Re.matches dyod_ws.Nesting.Preprocessor.if_pattern
    dyod_ws.Nesting.Preprocessor.else_pattern dyod_ws.Nesting.Preprocessor.endif_pattern
last_directive-IsEndif = (refl, refl, refl)

conditional-stack_example :
    ((conditional in_block first_branch (second_branch ∷ []) (txt "#endif")).stack
      ≡ block_info 3 true ∷ block_info 1 true ∷ [])
    × ((conditional in_block first_branch (second_branch ∷ []) (txt "#endif")).pp_stack ≡ [])
conditional-stack_example =
    conditional-stack in_block first_branch (second_branch ∷ []) (txt "#endif") first_branch-IsIf
      (second_branch-IsElse, tt) last_directive-IsEndif

branch_starts-stack_example :
    All
      (λ stack. stack ≡ block_info 1 true ∷ [])
      (branch_starts (run_branch in_block first_branch) (second_branch ∷ []))
branch_starts-stack_example =
    branch_starts-stack in_block first_branch (second_branch ∷ []) first_branch-IsIf
      (second_branch-IsElse, tt)
