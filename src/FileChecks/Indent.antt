-- ===== src/FileChecks/Indent.antt =====
-- `GetIndentLevel` against a direct count of leading spaces.
use dyod_ws.Base.{
  ℕ, zero, suc, ◌+◌, ◌-◌, ◌≤◌, ◌<◌, true, false, not, ◌≡◌, refl, sym, ap, ◌∙◌, Option, none, some,
  [], ◌∷◌, arith, length, take, get_elem?, inl, inr, Bool-cases, ◌==◌, if◌then◌else◌,
}
use dyod_ws.Base.Text.{Str, is_space}
use dyod_ws.FileChecks.{get_indent_level}
use dyod_ws.Re.{
  Cursor, step, in_ranges, space_ranges, repeat, run, Found, re_match, group_text, one,
}

-- The spaces in front of the first other character, behind `n` of them, if that is not white space.
indent_from : ℕ → Str → ℕ
indent_from n [] = 0
indent_from n (c ∷ s) =
    let rest = indent_from (n + 1) s in if c == b' ' then rest else if is_space c then 0 else n

-- The place behind a group of the characters read so far.
abbrev noted : Cursor → Cursor
noted t = record t { groups = (1, 0, length t.before) ∷ t.groups }

-- The end of the match: one character that is not white space.
abbrev tail_match : Cursor → Option Cursor
tail_match t = step (λ d. not (in_ranges d space_ranges)) t.after (noted t) (λ u. some u)

-- The result of the match, from a place with the first spaces read.
expected : Str → Str → Option Cursor
expected before [] = none
expected before (c ∷ s) =
    let rest = expected (c ∷ before) s in
    if c == b' '
    then rest
    else if is_space c
    then none
    else some (record { before = c ∷ before; after = s; groups = (1, 0, length before) ∷ [] })

ne-suc : (n : ℕ) → (n == suc n) ≡ false
ne-suc n = ground arith

first-or-none :
    (o : Option Cursor) {p : Option Cursor} → p ≡ none → elim o [ some r ↦ some r | none ↦ p ] ≡ o
first-or-none none h = h
first-or-none (some r) h = refl

-- A space is white space.
tail-space :
    (before : Str) (c : ℕ) (s : Str)
    → (c == b' ') ≡ true
    → tail_match (record { before = before; after = c ∷ s; groups = [] }) ≡ none
unfolding step in_ranges
tail-space before c s h = ground arith

repeat_spaces :
    (fuel : ℕ) (before after : Str)
    → length after < fuel
    → repeat
        (λ t l. run (one b' ') t l)
        fuel
        (record { before = before; after = after; groups = [] })
        tail_match
      ≡ expected before after
unfolding repeat run step expected in_ranges is_space
repeat_spaces zero before after h = absurd (omega arith)
repeat_spaces (suc fuel) before [] h = refl
repeat_spaces (suc fuel) before (c ∷ s) h = elim (Bool-cases (c == b' ')) [
  | inl y ↦
      let ih = repeat_spaces fuel (c ∷ before) s (omega arith) in
      rw (y, repeat, run, step, ne-suc (length s), ih)
        (first-or-none (expected (c ∷ before) s) (tail-space before c s y))
  | inr n ↦ rw n (ground arith)
]

-- The match and the count go together.
Agrees : ℕ → ℕ → Option Cursor → Type 0
Agrees level room none = level ≡ 0
Agrees level room (some t) = (t.groups ≡ (1, 0, level) ∷ []) × (level ≤ room)

expected-Agrees :
    (before s : Str) (n : ℕ)
    → n ≡ length before
    → Agrees (indent_from n s) (n + length s) (expected before s)
unfolding expected indent_from Agrees
expected-Agrees before [] n e = refl
expected-Agrees before (c ∷ s) n e = elim (Bool-cases (c == b' ')) [
  | inl y ↦
      let room : n + suc (length s) ≡ n + 1 + length s = omega arith in
      rw (y, room) (expected-Agrees (c ∷ before) s (n + 1) (omega arith))
  | inr m ↦ elim (Bool-cases (is_space c)) [
    | inl y ↦ rw (m, y) refl
    | inr k ↦ rw (m, k, e) (refl, omega arith)
  ]
]

length-take : (n : ℕ) (s : Str) → n ≤ length s → length (take n s) ≡ n
length-take zero s h = refl
length-take (suc n) [] h = elim h [ ]
length-take (suc n) (c ∷ s) h = ap suc (length-take n s (omega arith))

level_of : Str → Option Cursor → ℕ
level_of line none = 0
level_of line (some t) =
    length
      (group_text 1 (record { text = line; start = 0; stop = length t.before; groups = t.groups }))

abbrev found_in : Str → Cursor → Found
found_in line t = record { text = line; start = 0; stop = length t.before; groups = t.groups }

read_off :
    (line : Str) (o : Option Cursor)
    → (elim (elim o as (λ _. Option Found) [ some t ↦ some (found_in line t) | none ↦ none ]) [
      | some m ↦ length (group_text 1 m)
      | none ↦ 0
    ])
      ≡ level_of line o
unfolding level_of
read_off line none = refl
read_off line (some t) = refl

abbrev match_of : Str → Option Cursor
match_of line =
    repeat (λ t l. run (one b' ') t l) (suc (length line))
      (record { before = []; after = line; groups = [] }) tail_match

get_indent_level-expected : (line : Str) → get_indent_level line ≡ level_of line (expected [] line)
unfolding get_indent_level level_of re_match run
get_indent_level-expected line =
    rw (← repeat_spaces (suc (length line)) [] line (omega arith)) (read_off line (match_of line))

level_of-Agrees :
    (line : Str) (level : ℕ) (o : Option Cursor)
    → Agrees level (length line) o
    → level_of line o ≡ level
unfolding level_of Agrees group_text
level_of-Agrees line level none a = sym a
level_of-Agrees line level (some t) a =
    let e : level - 0 ≡ level = omega arith in rw (a.0, group_text, e) (length-take level line a.1)

get_indent_level-indent_from : (line : Str) → get_indent_level line ≡ indent_from 0 line
get_indent_level-indent_from line =
    get_indent_level-expected line
    ∙ level_of-Agrees line (indent_from 0 line) (expected [] line) (
        let e : 0 + length line ≡ length line = omega arith in
        rw e at (expected-Agrees [] line 0 refl))

-- The number of leading spaces.
pub leading_spaces : Str → ℕ
leading_spaces [] = 0
leading_spaces (c ∷ s) = if c == b' ' then suc (leading_spaces s) else 0

-- What `level` spaces in front of a character, or of the end of the line, count for.
pub level_before : ℕ → Option ℕ → ℕ
level_before level none = 0
level_before level (some c) = if is_space c then 0 else level

indent_from-leading_spaces :
    (n : ℕ) (s : Str)
    → indent_from n s ≡ level_before (n + leading_spaces s) (get_elem? s (leading_spaces s))
unfolding indent_from leading_spaces level_before
indent_from-leading_spaces n [] = refl
indent_from-leading_spaces n (c ∷ s) = elim (Bool-cases (c == b' ')) [
  | inl y ↦
      let room : n + suc (leading_spaces s) ≡ n + 1 + leading_spaces s = omega arith in
      rw (y, room) (indent_from-leading_spaces (n + 1) s)
  | inr m ↦ let same : n + 0 ≡ n = omega arith in rw (m, same) refl
]

-- The indentation level is the number of leading spaces where a character that is not white space
-- follows them, and 0 where other white space follows or the line ends.
pub get_indent_level-leading_spaces :
    (line : Str)
    → get_indent_level line
      ≡ level_before (leading_spaces line) (get_elem? line (leading_spaces line))
get_indent_level-leading_spaces line =
    get_indent_level-indent_from line
    ∙ (let e : 0 + leading_spaces line ≡ leading_spaces line = omega arith in
        rw e at (indent_from-leading_spaces 0 line))
