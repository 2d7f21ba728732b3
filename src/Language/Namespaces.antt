-- ===== src/Language/Namespaces.antt =====
-- `IsBlockInNameSpace`, `ShouldCheckNamespaceIndentation` and `CheckItemIndentationInNamespace` of
-- cpplint.py.
use dyod_ws.Base.{ℕ, Bool, true, false, not, ◌&&◌, ◌||◌, List, [], ◌∷◌, if◌then◌else◌}
use dyod_ws.Base.Text.{Str, txt}
use dyod_ws.LineChecks.{is_macro_definition, is_forward_class_declaration}
use dyod_ws.Nesting.Blocks.{Block, namespace_info}
use dyod_ws.Nesting.Preprocessor.{NestingState, in_namespace_body}
use dyod_ws.Re.{Re, at_start, plus, space, matches, ◌▹◌}
use dyod_ws.Report.{Report, error, report_if}

second_is_namespace : List Block → Bool
second_is_namespace [] = false
second_is_namespace (b ∷ stack) = elim b.kind [ namespace_info name ↦ true | _ ↦ false ]

-- `IsBlockInNameSpace`
unfoldable pub is_block_in_name_space : NestingState → Bool → Bool
unfolding second_is_namespace
is_block_in_name_space s true = in_namespace_body s
is_block_in_name_space s false = elim s.stack [
  | [] ↦ false
  | b ∷ stack ↦ b.check_namespace_indentation && second_is_namespace stack
]

-- `ShouldCheckNamespaceIndentation`
unfoldable pub should_check_namespace_indentation : NestingState → Bool → List Str → ℕ → Bool
should_check_namespace_indentation s is_namespace_indent_item lines linenum =
    let is_forward_declaration = is_forward_class_declaration lines linenum in
    if not (is_namespace_indent_item || is_forward_declaration)
    then false
    else if is_macro_definition lines linenum
    then false
    else is_block_in_name_space s is_forward_declaration

-- `^\s+`
unfoldable pub indented : Re
unfolding plus
indented = at_start ▹ plus space

-- `CheckItemIndentationInNamespace`, on the line.
unfoldable pub check_item_indentation_in_namespace : Str → Str → ℕ → List Report
check_item_indentation_in_namespace filename line linenum = report_if (matches indented line) (
    error filename linenum "runtime/indentation_namespace" 4
      (txt "Do not indent within a namespace"))
