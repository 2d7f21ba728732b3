-- ===== src/Style/Types.antt =====
-- `_IsType` and `CheckBracesSpacing` of cpplint.py.
use dyod_ws.Base.{
  ℕ, zero, suc, ◌+◌, ◌-◌, Bool, false, not, ◌&&◌, ◌||◌, Option, none, some, List, [], ◌∷◌, ◌++◌,
  length, take, drop, get_or, any, ltb, if◌then◌else◌,
}
use dyod_ws.Base.Text.{Str, txt, contains}
use dyod_ws.Brackets.Forward.{Position, close_expression}
use dyod_ws.Cleanse.{CleansedLines}
use dyod_ws.Nesting.Blocks.{Block, namespace_info}
use dyod_ws.Re.{
  Re, eps, set, star, group, at_start, at_end, boundary, one, lit, lit_codes, words, plus, opt,
  one_of, none_of, space, spaces, non_space, space_ranges, single, dots, re_match, group_text,
  matches, searches, ◌▹◌, ◌∣∣◌,
}
use dyod_ws.Report.{Report, error, report_if}

-- `_TYPES`, with the empty alternative at its end
unfoldable pub types_pattern : Re
unfolding lit words opt
types_pattern =
    at_start
    ▹ (group 1 (lit "char" ▹ opt (group 2 (words ("16_t" ∷ "32_t" ∷ []))))
        ∣∣ (words (
              "wchar_t" ∷ "bool" ∷ "short" ∷ "int" ∷ "long" ∷ "signed" ∷ "unsigned" ∷ "float"
              ∷ "double" ∷ [])
            ∣∣ (group 3 (words ("ptrdiff_t" ∷ "size_t" ∷ "max_align_t" ∷ "nullptr_t" ∷ []))
                ∣∣ (group 4 (
                      opt (one b'u')
                      ▹ lit "int"
                      ▹ opt (group 5 (words ("_fast" ∷ "_least" ∷ [])))
                      ▹ group 6 (words ("8" ∷ "16" ∷ "32" ∷ "64" ∷ []))
                      ▹ lit "_t")
                    ∣∣ (group 7 (
                          opt (one b'u')
                          ▹ lit "int"
                          ▹ group 8 (words ("max" ∷ "ptr" ∷ []))
                          ▹ lit "_t")
                        ∣∣ eps)))))
    ▹ at_end

-- `^.*(\b\S+)$`
unfoldable pub last_word : Re
unfolding plus
last_word = at_start ▹ dots ▹ group 1 (boundary ▹ plus non_space) ▹ at_end

-- `\b(?:typename|class|struct)\s+TOKEN\b`
unfoldable pub typename_pattern : Str → Re
unfolding words plus
typename_pattern token =
    boundary
    ▹ words ("typename" ∷ "class" ∷ "struct" ∷ [])
    ▹ plus space
    ▹ lit_codes token
    ▹ boundary

-- The last of the first `n` lines, not before number `next_block_start`, that has the word `template`.
unfoldable pub template_line : List Str → ℕ → ℕ → Option ℕ
template_line elided next_block_start zero = none
template_line elided next_block_start (suc first_line) =
    let above = template_line elided next_block_start first_line in
    if ltb first_line next_block_start
    then none
    else if contains (txt "template") (get_or elided first_line [])
    then some first_line
    else above

below_start : List Block → ℕ
below_start [] = 0
below_start (b ∷ stack) = b.starting_linenum

-- Whether a template head of the block declares the name.
declares : List Str → Str → Block → List Block → Bool
unfolding below_start
declares elided token b stack =
    elim (template_line elided (below_start stack) (suc b.starting_linenum)) [
      | none ↦ false
      | some first_line ↦
          any (λ line. searches (typename_pattern token) line)
            (take (suc b.starting_linenum - first_line) (drop first_line elided))
    ]

-- The loop over the blocks, up to a namespace.
unfoldable pub declared_above : List Str → Str → List Block → Bool
unfolding declares
declared_above elided token [] = false
declared_above elided token (b ∷ stack) =
    let above = declared_above elided token stack in
    elim b.kind [ namespace_info name ↦ false | _ ↦ declares elided token b stack || above ]

-- The last word of an expression, or the whole of it.
unfoldable pub token_of : Str → Str
unfolding last_word
token_of expr = elim (re_match last_word expr) [ some m ↦ group_text 1 m | none ↦ expr ]

-- `_IsType`
unfoldable pub is_type : List Str → List Block → Str → Bool
unfolding declared_above
is_type elided stack expr =
    matches types_pattern (token_of expr) || declared_above elided (token_of expr) stack

-- `^(.*[^ ({>]){` and `^[\s}]*[{.;,)<>\]:]`
unfoldable pub tight_brace : Re
unfolding none_of
tight_brace = at_start ▹ group 1 (dots ▹ none_of " ({>") ▹ one b'{'

unfoldable pub initializer_end : Re
unfolding one_of
initializer_end = at_start ▹ star (set (single b'}' ∷ space_ranges)) ▹ one_of "{.;,)<>]:"

concat : List Str → Str
concat [] = []
concat (s ∷ ss) = s ++ concat ss

-- What follows the closing brace: the rest of its line, and at most two more lines.
unfoldable pub trailing_text : CleansedLines → Position → Str
unfolding concat
trailing_text clean_lines p =
    (elim p.pos [ none ↦ [] | some endpos ↦ drop endpos p.line ])
    ++ (let end = p.linenum + 3 in
        let last = clean_lines.num_lines - 1 in
        concat (
          take ((if ltb end last then end else last) - (p.linenum + 1))
            (drop (p.linenum + 1) clean_lines.elided)))

brace_reports : Str → CleansedLines → List Block → ℕ → Str → Option (List Report)
brace_reports filename clean_lines stack linenum leading_text =
    elim (close_expression clean_lines linenum (length leading_text)) [
      | none ↦ none
      | some p ↦ some (
          report_if
            (not (matches initializer_end (trailing_text clean_lines p))
              && not (is_type clean_lines.elided stack leading_text))
            (error filename linenum "whitespace/braces" 5 (txt "Missing space before {")))
    ]

-- `}else`, `:\s*;\s*$`, `^\s*;\s*$`, `\s+;\s*$` and `\bfor\b`
unfoldable pub tight_else : Re
unfolding lit
tight_else = lit "}else"

unfoldable pub empty_statement : Re
empty_statement = one b':' ▹ spaces ▹ one b';' ▹ spaces ▹ at_end

unfoldable pub only_semicolon : Re
only_semicolon = at_start ▹ spaces ▹ one b';' ▹ spaces ▹ at_end

unfoldable pub space_semicolon : Re
unfolding plus
space_semicolon = plus space ▹ one b';' ▹ spaces ▹ at_end

unfoldable pub for_word : Re
unfolding lit
for_word = boundary ▹ lit "for" ▹ boundary

semicolon_reports : Str → ℕ → Str → List Report
semicolon_reports filename linenum line =
    if searches empty_statement line
    then error filename linenum "whitespace/semicolon" 5
        (txt "Semicolon defining empty statement. Use {} instead.")
    else if searches only_semicolon line
    then error filename linenum "whitespace/semicolon" 5 (
        txt "Line contains only semicolon. If this should be an empty statement, "
        ++ txt "use {} instead.")
    else report_if (searches space_semicolon line && not (searches for_word line)) (
        error filename linenum "whitespace/semicolon" 5 (
          txt "Extra space before last semicolon. If this should be an empty "
          ++ txt "statement, use {} instead."))

-- `CheckBracesSpacing`, with the stack of blocks; `none` is an exception of `CloseExpression`.
unfoldable pub check_braces_spacing : Str → CleansedLines → ℕ → List Block → Option (List Report)
unfolding brace_reports semicolon_reports
check_braces_spacing filename clean_lines linenum stack =
    let line = get_or clean_lines.elided linenum [] in
    let rest =
      report_if (searches tight_else line)
        (error filename linenum "whitespace/braces" 5 (txt "Missing space before else"))
      ++ semicolon_reports filename linenum line in
    elim (re_match tight_brace line) [
      | none ↦ some rest
      | some m ↦ elim (brace_reports filename clean_lines stack linenum (group_text 1 m)) [
        | none ↦ none
        | some rs ↦ some (rs ++ rest)
      ]
    ]
