-- ===== src/Nesting/Update.antt =====
-- `NestingState.Update` of cpplint.py: access labels, and the whole of a line.
use dyod_ws.Base.{
  ℕ, ◌+◌, not, ◌&&◌, Option, none, some, List, [], ◌∷◌, ◌++◌, length, get_or, ◌==◌, if◌then◌else◌,
}
use dyod_ws.Base.Text.{Str, txt}
use dyod_ws.Cleanse.{CleansedLines}
use dyod_ws.Nesting.Blocks.{Block, ClassInfo, class_info, check_begin, parent_name, blank}
use dyod_ws.Nesting.Preprocessor.{NestingState, update_preprocessor}
use dyod_ws.Re.{
  Re, group, at_start, at_end, boundary, one, lit, words, opt, plus, none_of, space, spaces, dots,
  Found, re_match, matches, group_text, ◌▹◌, ◌∣∣◌,
}
use dyod_ws.Report.{Report, error}
use dyod_ws.Nesting.Declarations.{count_parentheses, Rest, consume_namespaces, consume_class}
use dyod_ws.Nesting.Braces.{consume_braces}

-- `CheckBegin` of the innermost block, where its brace is not seen yet.
unfoldable pub begin_block : Str → List Block → List Block
begin_block elided [] = []
begin_block elided (b ∷ stack) =
    if not b.seen_open_brace then check_begin elided b ∷ stack else b ∷ stack

-- `^(.*)\b(public|private|protected|signals)(\s+(?:slots\s*)?)?:(?:[^:]|$)`
unfoldable pub access_pattern : Re
unfolding lit words opt plus none_of
access_pattern =
    at_start
    ▹ group 1 dots
    ▹ boundary
    ▹ group 2 (words ("public" ∷ "private" ∷ "protected" ∷ "signals" ∷ []))
    ▹ opt (group 3 (plus space ▹ opt (lit "slots" ▹ spaces)))
    ▹ one b':'
    ▹ (none_of ":" ∣∣ at_end)

access_reports : Str → ℕ → ClassInfo → Found → List Report
access_reports filename linenum c m =
    let indent = group_text 1 m in
    if not (length indent == c.class_indent + 1) && matches blank indent
    then error filename linenum "whitespace/indent" 3 (
        group_text 2 m
        ++ (group_text 3 m ++ (txt ": should be indented +1 space inside " ++ parent_name c)))
    else []

set_access : Str → ℕ → Block → ClassInfo → List Block → Option Found → List Block × List Report
unfolding access_reports
set_access filename linenum b c stack none = (b ∷ stack, [])
set_access filename linenum b c stack (some m) = (
  record b { kind = class_info (record c { access = group_text 2 m }) } ∷ stack,
  access_reports filename linenum c m,
)

-- The access control of the innermost class.
unfoldable pub update_access : Str → ℕ → Str → List Block → List Block × List Report
unfolding set_access
update_access filename linenum line [] = ([], [])
update_access filename linenum line (b ∷ stack) = elim b.kind [
  | class_info c ↦ set_access filename linenum b c stack (re_match access_pattern line)
  | _ ↦ (b ∷ stack, [])
]

top_of : List Block → Option Block
top_of [] = none
top_of (b ∷ stack) = some b

-- The steps behind the class declaration.
unfoldable pub finish_update :
    Str → CleansedLines → ℕ → NestingState → Rest → Option (NestingState × List Report)
finish_update filename clean_lines linenum s r =
    let begun = begin_block (get_or clean_lines.elided linenum []) r.stack in
    let (stack, reports) = update_access filename linenum r.line begun in
    elim (consume_braces filename clean_lines linenum
      (record { stack = stack; line = r.line; reports = reports })) [
        | none ↦ none
        | some b ↦ some (record s { stack = b.stack }, b.reports)
      ]

consume_declarations : CleansedLines → ℕ → Rest → Option Rest
consume_declarations clean_lines linenum r = elim (consume_namespaces linenum r) [
  | none ↦ none
  | some r' ↦ consume_class clean_lines linenum r'
]

-- `Update`, on a line number of the file; `none` where fuel runs out.
unfoldable pub update : Str → CleansedLines → ℕ → NestingState → Option (NestingState × List Report)
unfolding consume_declarations top_of
update filename clean_lines linenum s =
    let line = get_or clean_lines.elided linenum [] in
    let before = update_preprocessor line (record s { previous_stack_top = top_of s.stack }) in
    let stack = count_parentheses line before.stack in
    elim (consume_declarations clean_lines linenum (record { stack = stack; line = line })) [
      | none ↦ none
      | some r ↦ finish_update filename clean_lines linenum before r
    ]
