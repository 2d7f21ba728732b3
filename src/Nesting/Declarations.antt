-- ===== src/Nesting/Declarations.antt =====
-- The first half of `NestingState.Update` of cpplint.py: parentheses and inline assembly, namespaces
-- and class declarations.
pub mod Ends
use dyod_ws.Base.{
  ℕ, suc, ◌+◌, Bool, true, false, not, ◌&&◌, Option, none, some, List, [], ◌∷◌, ◌++◌, length, drop,
  ◌==◌, if◌then◌else◌,
}
use dyod_ws.Base.Int.{◌+ℤ◌, sub_ℕ, is_pos}
use dyod_ws.Base.Loop.{Round, again, stop, iterate}
use dyod_ws.Base.Text.{Str, txt, find, count}
use dyod_ws.Cleanse.{CleansedLines}
use dyod_ws.Nesting.Blocks.{
  Block, InlineAsm, no_asm, inside_asm, end_asm, block_asm, new_namespace_info, new_class_info,
}
use dyod_ws.Nesting.Template.{in_template_argument_list}
use dyod_ws.Re.{
  Re, star, group, at_start, at_end, boundary, set, one, lit, words, opt, plus, one_of, single,
  space, spaces, word, word_ranges, space_ranges, dots, Found, re_match, matches, group_of,
  group_text, ◌▹◌,
}

-- `_MATCH_ASM`
unfoldable pub match_asm : Re
unfolding words opt plus one_of
match_asm =
    at_start
    ▹ spaces
    ▹ words ("asm" ∷ "_asm" ∷ "__asm" ∷ "__asm__" ∷ [])
    ▹ opt (plus space ▹ group 1 (words ("volatile" ∷ "__volatile__" ∷ [])))
    ▹ spaces
    ▹ one_of "{("

-- The state of inline assembly after a line: the depth changed, one parenthesis is open, none is
-- open, the line opens an assembly block.
unfoldable pub next_asm : Bool → Bool → Bool → Bool → InlineAsm → InlineAsm
next_asm changed is_one is_zero opens inside_asm = if is_zero then end_asm else inside_asm
next_asm changed is_one is_zero opens block_asm = block_asm
next_asm changed is_one is_zero opens _ = if changed && is_one && opens then inside_asm else no_asm

count_block : Str → Block → Block
count_block line b =
    let opened = count (txt "(") line in
    let closed = count (txt ")") line in
    let depth = b.open_parentheses +ℤ sub_ℕ opened closed in
    record b {
      open_parentheses = depth;
      inline_asm =
          next_asm (not (opened == closed)) (is_pos depth 1) (is_pos depth 0)
            (matches match_asm line) b.inline_asm;
    }

-- The count of parentheses of the innermost block.
unfoldable pub count_parentheses : Str → List Block → List Block
unfolding count_block
count_parentheses line [] = []
count_parentheses line (b ∷ stack) = count_block line b ∷ stack

-- `^\s*namespace\b\s*([:\w]+)?(.*)$`
unfoldable pub namespace_decl : Re
unfolding lit opt plus
namespace_decl =
    at_start
    ▹ spaces
    ▹ lit "namespace"
    ▹ boundary
    ▹ spaces
    ▹ opt (group 1 (plus (set (single b':' ∷ word_ranges))))
    ▹ group 2 dots
    ▹ at_end

-- The stack, and what is left of the line.
pub record Rest : Type 0 where
  pub stack : List Block
  pub line : Str

-- A namespace, and the line behind its opening brace if there is one.
push_namespace : ℕ → List Block → Option Str → Str → Rest
push_namespace linenum stack name line =
    let new_namespace = new_namespace_info name linenum in
    elim (find (txt "{") line) [
      | none ↦ record { stack = new_namespace ∷ stack; line = line }
      | some i ↦ record {
        stack = record new_namespace { seen_open_brace = true } ∷ stack;
        line = drop (i + 1) line;
      }
    ]

unfoldable pub namespace_round : ℕ → Rest → Round Rest Rest
unfolding push_namespace
namespace_round linenum s = elim (re_match namespace_decl s.line) [
  | none ↦ stop s
  | some m ↦ again (push_namespace linenum s.stack (group_of 1 m) (group_text 2 m))
]

-- The loop over namespaces; each round shortens the line.
unfoldable pub consume_namespaces : ℕ → Rest → Option Rest
unfolding namespace_round
consume_namespaces linenum s = iterate (namespace_round linenum) (suc (length s.line)) s

-- The pattern of a class declaration.
unfoldable pub class_decl : Re
unfolding lit words opt plus
class_decl =
    at_start
    ▹ group 1 (
        spaces
        ▹ opt (
            lit "template"
            ▹ spaces
            ▹ one b'<'
            ▹ star (
                set (
                  single b'<'
                  ∷ single b'>'
                  ∷ single b','
                  ∷ single b':'
                  ∷ (word_ranges ++ space_ranges)))
            ▹ one b'>'
            ▹ spaces)
        ▹ group 2 (words ("class" ∷ "struct" ∷ []))
        ▹ plus space
        ▹ star (plus (set (record { lo = b'A'; hi = b'Z' } ∷ single b'_' ∷ [])) ▹ plus space)
        ▹ group 3 (plus word ▹ star (lit "::" ▹ plus word)))
    ▹ group 4 dots
    ▹ at_end

-- `not self.stack or self.stack[-1].open_parentheses == 0`
no_open_parentheses : List Block → Bool
no_open_parentheses [] = true
no_open_parentheses (b ∷ stack) = is_pos b.open_parentheses 0

push_class : CleansedLines → ℕ → Rest → Found → Bool → Rest
push_class clean_lines linenum s m true = s
push_class clean_lines linenum s m false = record {
  stack = new_class_info (group_text 3 m) (group_text 2 m) clean_lines linenum ∷ s.stack;
  line = group_text 4 m;
}

declared : CleansedLines → ℕ → Rest → Found → Option Rest
unfolding push_class
declared clean_lines linenum s m =
    if no_open_parentheses s.stack
    then elim (in_template_argument_list clean_lines linenum (length (group_text 1 m))) [
      | none ↦ none
      | some inside ↦ some (push_class clean_lines linenum s m inside)
    ]
    else some s

-- A class declaration in what is left of the line.
unfoldable pub consume_class : CleansedLines → ℕ → Rest → Option Rest
unfolding declared no_open_parentheses
consume_class clean_lines linenum s = elim (re_match class_decl s.line) [
  | none ↦ some s
  | some m ↦ declared clean_lines linenum s m
]
