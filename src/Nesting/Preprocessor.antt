-- ===== src/Nesting/Preprocessor.antt =====
-- The state of `NestingState` in cpplint.py, its tests, and `UpdatePreprocessor`.
pub mod Restore
use dyod_ws.Base.{ℕ, Bool, true, false, not, Option, none, some, List, [], ◌∷◌, ◌++◌, if◌then◌else◌}
use dyod_ws.Base.Text.{Str, txt}
use dyod_ws.Nesting.Blocks.{
  Block, ClassInfo, InlineAsm, no_asm, inside_asm, end_asm, block_asm, Kind, plain_block, extern_c,
  class_info, namespace_info,
}
use dyod_ws.Re.{Re, seq, group, at_start, boundary, one, words, spaces, matches, ◌▹◌}
use dyod_ws.Report.{Report, error}

-- `_PreprocessorInfo`
pub record PreprocessorInfo : Type 0 where
  pub stack_before_if : List Block
  pub stack_before_else : List Block
  pub seen_else : Bool

-- The stacks have their tops at the head. The source's `previous_stack_top` refers to the block that
-- stays on the stack; of it only the class is read later.
pub record NestingState : Type 0 where
  pub stack : List Block
  pub previous_stack_top : Option Block
  pub pp_stack : List PreprocessorInfo

-- `__init__`
abbrev pub init : NestingState
init = record { stack = []; previous_stack_top = none; pp_stack = [] }

unfoldable pub seen_open_brace : List Block → Bool
seen_open_brace [] = true
seen_open_brace (b ∷ stack) = b.seen_open_brace

is_namespace : Kind → Bool
is_namespace (namespace_info name) = true
is_namespace _ = false

unfoldable pub in_namespace_body : NestingState → Bool
unfolding is_namespace
in_namespace_body s = elim s.stack [ [] ↦ false | b ∷ stack ↦ is_namespace b.kind ]

is_extern_c : Kind → Bool
is_extern_c extern_c = true
is_extern_c _ = false

unfoldable pub in_extern_c : NestingState → Bool
unfolding is_extern_c
in_extern_c s = elim s.stack [ [] ↦ false | b ∷ stack ↦ is_extern_c b.kind ]

class_of : Kind → Option ClassInfo
class_of (class_info c) = some c
class_of _ = none

is_some {ℓ} : {A : Type ℓ} → Option A → Bool
is_some none = false
is_some (some a) = true

unfoldable pub in_class_declaration : NestingState → Bool
unfolding class_of is_some
in_class_declaration s = elim s.stack [ [] ↦ false | b ∷ stack ↦ is_some (class_of b.kind) ]

is_no_asm : InlineAsm → Bool
is_no_asm no_asm = true
is_no_asm _ = false

unfoldable pub in_asm_block : NestingState → Bool
unfolding is_no_asm
in_asm_block s = elim s.stack [ [] ↦ false | b ∷ stack ↦ not (is_no_asm b.inline_asm) ]

innermost : List Block → Option ClassInfo
unfolding class_of
innermost [] = none
innermost (b ∷ stack) = elim (class_of b.kind) [ some c ↦ some c | none ↦ innermost stack ]

-- `InnermostClass`
unfoldable pub innermost_class : NestingState → Option ClassInfo
unfolding innermost
innermost_class s = innermost s.stack

-- `^\s*#\s*(…)`, over the directives
abbrev directive : Re → Re
directive names = at_start ▹ spaces ▹ one b'#' ▹ spaces ▹ names ▹ boundary

unfoldable pub if_pattern : Re
unfolding words
if_pattern = directive (group 1 (words ("if" ∷ "ifdef" ∷ "ifndef" ∷ [])))

unfoldable pub else_pattern : Re
unfolding words
else_pattern = directive (group 1 (words ("else" ∷ "elif" ∷ [])))

unfoldable pub endif_pattern : Re
unfolding words
endif_pattern = directive (words ("endif" ∷ []))

unfoldable pub begin_if : NestingState → NestingState
begin_if s = record s {
  pp_stack =
      record { stack_before_if = s.stack; stack_before_else = []; seen_else = false } ∷ s.pp_stack;
}

unfoldable pub begin_else : List PreprocessorInfo → NestingState → NestingState
begin_else [] s = s
begin_else (pp ∷ pps) s = record s {
  stack = pp.stack_before_if;
  pp_stack =
      (if not pp.seen_else then record pp { seen_else = true; stack_before_else = s.stack } else pp)
      ∷ pps;
}

unfoldable pub end_if : List PreprocessorInfo → NestingState → NestingState
end_if [] s = s
end_if (pp ∷ pps) s = record s {
  stack = if pp.seen_else then pp.stack_before_else else s.stack;
  pp_stack = pps;
}

-- `UpdatePreprocessor`
unfoldable pub update_preprocessor : Str → NestingState → NestingState
unfolding begin_if begin_else end_if
update_preprocessor line s =
    if matches if_pattern line
    then begin_if s
    else if matches else_pattern line
    then begin_else s.pp_stack s
    else if matches endif_pattern line
    then end_if s.pp_stack s
    else s

unfinished : Str → Block → List Report
unfinished filename b = elim b.kind [
  | class_info c ↦
      error filename b.starting_linenum "build/class" 5
        (txt "Failed to find complete declaration of class " ++ c.name)
  | namespace_info name ↦
      error filename b.starting_linenum "build/namespaces" 5
        (txt "Failed to find complete declaration of namespace " ++ name)
  | _ ↦ []
]

-- The loop over the stack: from its bottom, which is the end of the list here.
unfinished_from : Str → List Block → List Report
unfolding unfinished
unfinished_from filename [] = []
unfinished_from filename (b ∷ stack) = unfinished_from filename stack ++ unfinished filename b

-- `CheckCompletedBlocks`
unfoldable pub check_completed_blocks : Str → NestingState → List Report
unfolding unfinished_from
check_completed_blocks filename s = unfinished_from filename s.stack
