-- ===== src/Nesting/Braces.antt =====
-- The loop of `NestingState.Update` of cpplint.py over braces and semicolons.
pub mod Ends
use dyod_ws.Base.{
  ℕ, suc, true, not, ◌||◌, Option, none, some, List, [], ◌∷◌, ◌++◌, length, if◌then◌else◌,
}
use dyod_ws.Base.Loop.{Round, again, stop, iterate}
use dyod_ws.Base.Text.{Str, txt, str_eq}
use dyod_ws.Cleanse.{CleansedLines}
use dyod_ws.Nesting.Blocks.{Block, block_asm, block_info, extern_c_info, check_end}
use dyod_ws.Re.{
  Re, star, group, at_start, at_end, one, lit, one_of, none_of, spaces, dots, re_match, matches,
  group_text, ◌▹◌,
}
use dyod_ws.Report.{Report}
use dyod_ws.Nesting.Declarations.{match_asm}

-- `^[^{;)}]*([{;)}])(.*)$`
unfoldable pub first_brace : Re
unfolding none_of one_of
first_brace = at_start ▹ star (none_of "{;)}") ▹ group 1 (one_of "{;)}") ▹ group 2 dots ▹ at_end

-- `^extern\s*"[^"]*"\s*\{`
unfoldable pub extern_pattern : Re
unfolding lit none_of
extern_pattern =
    at_start ▹ lit "extern" ▹ spaces ▹ one b'"' ▹ star (none_of "\"") ▹ one b'"' ▹ spaces ▹ one b'{'

new_block : ℕ → Str → Block
new_block linenum line =
    if matches extern_pattern line
    then extern_c_info linenum
    else if matches match_asm line
    then record (block_info linenum true) { inline_asm = block_asm }
    else block_info linenum true

-- At `{`.
unfoldable pub open_block : ℕ → Str → List Block → List Block
unfolding new_block
open_block linenum line [] = new_block linenum line ∷ []
open_block linenum line (b ∷ stack) =
    if not b.seen_open_brace
    then record b { seen_open_brace = true } ∷ stack
    else new_block linenum line ∷ b ∷ stack

-- At `;` or `)`.
unfoldable pub drop_declaration : List Block → List Block
drop_declaration [] = []
drop_declaration (b ∷ stack) = if not b.seen_open_brace then stack else b ∷ stack

-- At `}`: the block that ends, if any, and the stack without it.
unfoldable pub close_block : List Block → Option Block × List Block
close_block [] = (none, [])
close_block (b ∷ stack) = (some b, stack)

-- The stack, what is left of the line, and the reports so far.
pub record Braces : Type 0 where
  pub stack : List Block
  pub line : Str
  pub reports : List Report

end_reports : Str → CleansedLines → ℕ → Option Block → List Report
end_reports filename clean_lines linenum none = []
end_reports filename clean_lines linenum (some b) = check_end filename clean_lines linenum b

-- The effect of one token.
unfoldable pub on_brace : Str → CleansedLines → ℕ → Braces → Str → Str → Braces
unfolding end_reports close_block
on_brace filename clean_lines linenum s token rest =
    if str_eq token (txt "{")
    then record s { stack = open_block linenum s.line s.stack; line = rest }
    else if str_eq token (txt ";") || str_eq token (txt ")")
    then record s { stack = drop_declaration s.stack; line = rest }
    else record {
      stack = (close_block s.stack).1;
      line = rest;
      reports = s.reports ++ end_reports filename clean_lines linenum (close_block s.stack).0;
    }

unfoldable pub brace_round : Str → CleansedLines → ℕ → Braces → Round Braces Braces
unfolding on_brace
brace_round filename clean_lines linenum s = elim (re_match first_brace s.line) [
  | none ↦ stop s
  | some m ↦ again (on_brace filename clean_lines linenum s (group_text 1 m) (group_text 2 m))
]

-- The loop over braces and semicolons; each round shortens the line.
unfoldable pub consume_braces : Str → CleansedLines → ℕ → Braces → Option Braces
unfolding brace_round
consume_braces filename clean_lines linenum s =
    iterate (brace_round filename clean_lines linenum) (suc (length s.line)) s
