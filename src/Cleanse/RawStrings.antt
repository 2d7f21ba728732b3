-- ===== src/Cleanse/RawStrings.antt =====
-- `CleanseRawStrings` of cpplint.py.
pub mod Ends
pub mod Indentation
use dyod_ws.Base.{suc, ◌+◌, Option, none, some, List, [], ◌∷◌, ◌++◌, length, drop, if◌then◌else◌}
use dyod_ws.Base.Loop.{Round, again, stop, iterate}
use dyod_ws.Base.Text.{Str, txt, find}
use dyod_ws.Re.{
  Re, star, lazy, group, at_start, at_end, boundary, except, one, lit, words, none_of, spaces,
  non_space, dot, dots, space_ranges, single, Found, re_match, matches, group_text, ◌▹◌, ◌∣∣◌,
}

-- `^(.*?)\b(?:R|u8R|uR|UR|LR)"([^\s\\()]*)\((.*)$`
unfoldable pub raw_string_start : Re
unfolding words
raw_string_start =
    at_start
    ▹ group 1 (lazy dot)
    ▹ boundary
    ▹ words ("R" ∷ "u8R" ∷ "uR" ∷ "UR" ∷ "LR" ∷ [])
    ▹ one b'"'
    ▹ group 2 (star (except (single b'\\' ∷ single b'(' ∷ single b')' ∷ space_ranges)))
    ▹ one b'('
    ▹ group 3 dots
    ▹ at_end

-- `^([^'"]|'(\\.|[^'])*'|"(\\.|[^"])*")*//`
unfoldable pub inside_line_comment : Re
unfolding none_of lit
inside_line_comment =
    at_start
    ▹ star (
        group 1 (
          none_of "'\""
          ∣∣ ((one b'\'' ▹ star (group 2 ((one b'\\' ▹ dot) ∣∣ none_of "'")) ▹ one b'\'')
              ∣∣ (one b'"' ▹ star (group 3 ((one b'\\' ▹ dot) ∣∣ none_of "\"")) ▹ one b'"'))))
    ▹ lit "//"

-- `^(\s*)\S`
unfoldable pub leading_space : Re
leading_space = at_start ▹ group 1 spaces ▹ non_space

-- A line with its raw strings replaced, and the delimiter of the one that goes on, if any.
abbrev pub Scan : Type 0
Scan = Str × Option Str

scan_found : Found → Round Str Scan
scan_found m =
    let delimiter = txt ")" ++ (group_text 2 m ++ txt "\"") in
    elim (find delimiter (group_text 3 m)) [
      | some end ↦
          again (group_text 1 m ++ (txt "\"\"" ++ drop (end + length delimiter) (group_text 3 m)))
      | none ↦ stop (group_text 1 m ++ txt "\"\"", some delimiter)
    ]

-- One round of the loop `while delimiter is None`.
unfoldable pub scan_round : Str → Round Str Scan
unfolding scan_found
scan_round line = elim (re_match raw_string_start line) [
  | none ↦ stop (line, none)
  | some m ↦
      if matches inside_line_comment (group_text 1 m) then stop (line, none) else scan_found m
]

-- A round that goes on shortens the line, so its length is fuel enough.
unfoldable pub scan : Str → Option Scan
unfolding scan_round
scan line = iterate scan_round (suc (length line)) line

-- The group of `leading_space`; `none` is the exception where the pattern does not match.
unfoldable pub indent_of : Str → Option Str
indent_of line = elim (re_match leading_space line) [ some m ↦ some (group_text 1 m) | none ↦ none ]

-- One line, with the delimiter that is looked for before it.
unfoldable pub cleanse_raw_line : Str → Option Str → Option Scan
unfolding scan indent_of
cleanse_raw_line line none = scan line
cleanse_raw_line line (some delimiter) = elim (find delimiter line) [
  | some end ↦ elim (indent_of line) [
    | some indent ↦ scan (indent ++ (txt "\"\"" ++ drop (end + length delimiter) line))
    | none ↦ none
  ]
  | none ↦ some (txt "\"\"", some delimiter)
]

cons_line : Str → Option (List Str) → Option (List Str)
cons_line line none = none
cons_line line (some lines) = some (line ∷ lines)

unfoldable pub cleanse_raw_from : Option Str → List Str → Option (List Str)
unfolding cleanse_raw_line cons_line
cleanse_raw_from delimiter [] = some []
cleanse_raw_from delimiter (line ∷ lines) = elim (cleanse_raw_line line delimiter) [
  | none ↦ none
  | some (line', delimiter') ↦ cons_line line' (cleanse_raw_from delimiter' lines)
]

unfoldable pub cleanse_raw_strings : List Str → Option (List Str)
unfolding cleanse_raw_from
cleanse_raw_strings raw_lines = cleanse_raw_from none raw_lines
