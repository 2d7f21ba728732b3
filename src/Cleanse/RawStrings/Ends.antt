-- ===== src/Cleanse/RawStrings/Ends.antt =====
-- That `CleanseRawStrings` ends, and keeps the number of lines.
use dyod_ws.Base.{
  suc, Bool, true, ◌+◌, ◌<◌, ◌≤◌, ◌≡◌, refl, ap, Option, none, some, List, [], ◌∷◌, ◌++◌, arith,
  length, length-append, length-drop, drop, inl, inr, Bool-cases, Option-cases, All,
}
use dyod_ws.Base.Loop.{Round, again, stop, iterate_total, again-injective, stop-injective}
use dyod_ws.Base.Text.{Str, txt, find, has}
use dyod_ws.Base.TextLaws.{find-le}
use dyod_ws.Cleanse.RawStrings.{
  Scan, raw_string_start, inside_line_comment, scan_round, scan_found, scan, cleanse_raw_line,
  cleanse_raw_from, cleanse_raw_strings, cons_line,
}
use dyod_ws.Cleanse.RawStrings.Indentation.{find-has, indent_of_total}
use dyod_ws.Re.{Found, re_match, group_text, matches}
use dyod_ws.Re.Lacks.{Lacks, Lacks-append, Lacks-drop, matched-Lacks}
use dyod_ws.Re.Pieces.{re_match-Cut, group_text-text_in, skips, grabs, done, piece-le}

-- The pieces around the opening of a raw string take up less than the line.
start-le :
    (line : Str) (m : Found)
    → re_match raw_string_start line ≡ some m
    → length (group_text 1 m) + length (group_text 3 m) + 2 ≤ length line
unfolding raw_string_start dyod_ws.Re.words dyod_ws.Re.Sound.plain dyod_ws.Re.Rest.width
start-le line m h =
    let (c0, x) =
      re_match-Cut line m
        (skips _ refl (
          grabs 1 _ refl (
            skips _ refl (
              skips _ refl
                (skips _ refl (grabs 2 _ refl (skips _ refl (grabs 3 _ refl (done refl)))))))))
        h in
    let (j0, l0, t0, c1) = c0 in
    let (j1, l1, t1, c2) = c1 in
    let (j2, l2, t2, c3) = c2 in
    let (j3, l3, t3, c4) = c3 in
    let (j4, l4, t4, c5) = c4 in
    let (j5, l5, t5, c6) = c5 in
    let (j6, l6, t6, c7) = c6 in
    let (j7, l7, t7, g) = c7 in
    let g1 = ap length (group_text-text_in 1 m line _ x g) in
    let g3 = ap length (group_text-text_in 3 m line _ x g) in
    omega (arith, g1, g3, piece-le j0 j1 line, piece-le j6 j7 line)

-- The line `v` has a newline only if `line` has one.
abbrev Flatter : Str → Str → Type 0
Flatter line v = Lacks b'\n' line → Lacks b'\n' v

-- A text with two quotes in front.
quotes-Lacks : (v : Str) → Lacks b'\n' v → Lacks b'\n' (txt "\"\"" ++ v)
unfolding txt has
quotes-Lacks v h = h

two_quotes-Lacks : Lacks b'\n' (txt "\"\"")
unfolding txt has
two_quotes-Lacks = refl

-- A delimiter that is looked for begins with a closing parenthesis; here: has one.
marked : Option Str → Bool
unfolding has
marked none = true
marked (some delimiter) = has b')' delimiter

delimiter-marked : (v : Str) → marked (some (txt ")" ++ v)) ≡ true
unfolding marked txt
delimiter-marked v = refl

-- A round that goes on leaves a shorter line.
data Scanned (line : Str) : Round Str Scan → Type 0 where
  goes :
      (line' : Str) → length line' < length line → Flatter line line' → Scanned line (again line')
  ends : (s : Scan) → Flatter line s.0 → marked s.1 ≡ true → Scanned line (stop s)

scan_found-Scanned :
    (line : Str) (m : Found) → re_match raw_string_start line ≡ some m → Scanned line (scan_found m)
unfolding scan_found txt
scan_found-Scanned line m e =
    let delimiter = txt ")" ++ (group_text 2 m ++ txt "\"") in
    let before = λ (h : Lacks b'\n' line). matched-Lacks b'\n' 1 raw_string_start line m e h in
    elim (Option-cases (find delimiter (group_text 3 m))) [
      | inl f ↦
          rw (scan_found, f)
            (ends _ (λ h. Lacks-append b'\n' _ _ (before h) two_quotes-Lacks)
              (delimiter-marked (group_text 2 m ++ txt "\"")))
      | inr (end, f) ↦
          let rest = drop (end + length delimiter) (group_text 3 m) in
          rw (scan_found, f)
            (goes (group_text 1 m ++ (txt "\"\"" ++ rest))
              (omega (
                arith,
                length-append (group_text 1 m) (txt "\"\"" ++ rest),
                length-drop (end + length delimiter) (group_text 3 m),
                start-le line m e,
                find-le delimiter (group_text 3 m) end f,
                length-append (group_text 2 m) (txt "\""),
              ))
              (λ h. Lacks-append b'\n' (group_text 1 m) (txt "\"\"" ++ rest) (before h) (
                quotes-Lacks rest (
                  Lacks-drop b'\n' (end + length delimiter) (group_text 3 m)
                    (matched-Lacks b'\n' 3 raw_string_start line m e h)))))
    ]

scan_round-Scanned : (line : Str) → Scanned line (scan_round line)
unfolding scan_round marked
scan_round-Scanned line = elim (Option-cases (re_match raw_string_start line)) [
  | inl e ↦ rw (scan_round, e) (ends _ (λ h. h) refl)
  | inr (m, e) ↦ elim (Bool-cases (matches inside_line_comment (group_text 1 m))) [
    | inl y ↦ rw (scan_round, e, y) (ends _ (λ h. h) refl)
    | inr n ↦ rw (scan_round, e, n) (scan_found-Scanned line m e)
  ]
]

Scanned-again :
    (line line' : Str) {x : Round Str Scan}
    → Scanned line x
    → x ≡ again line'
    → Flatter line line' × (length line' < length line)
Scanned-again line line' (goes v l f) e =
    let is_v = again-injective _ _ e in (rw is_v at f, rw is_v at l)
Scanned-again line line' (ends s f m) e = absurd (cc)

Scanned-stop :
    (line : Str) (s : Scan) {x : Round Str Scan}
    → Scanned line x
    → x ≡ stop s
    → Flatter line s.0 × (marked s.1 ≡ true)
Scanned-stop line s (goes v l f) e = absurd (cc)
Scanned-stop line s (ends s' f m) e =
    let is_s = stop-injective _ _ e in (rw is_s at f, rw is_s at m)

scan_total :
    (line : Str) → (s : Scan) × (scan line ≡ some s) × (Flatter line s.0 × (marked s.1 ≡ true))
unfolding scan
scan_total line =
    iterate_total (λ v. Flatter line v) (λ (s : Scan). Flatter line s.0 × (marked s.1 ≡ true))
      length scan_round
      (λ v v' p e. let (f, l) = Scanned-again v v' (scan_round-Scanned v) e in (λ h. f (p h), l))
      (λ v s p e. let (f, m) = Scanned-stop v s (scan_round-Scanned v) e in (λ h. f (p h), m))
      (suc (length line)) line (omega arith) (λ h. h)

cleanse_raw_line_total :
    (line : Str) (delimiter : Option Str)
    → marked delimiter ≡ true
    → (s : Scan) × (cleanse_raw_line line delimiter ≡ some s)
      × (Flatter line s.0 × (marked s.1 ≡ true))
unfolding cleanse_raw_line marked
cleanse_raw_line_total line none m = scan_total line
cleanse_raw_line_total line (some delimiter) m = elim (Option-cases (find delimiter line)) [
  | inl e ↦
      ((txt "\"\"", some delimiter), rw (cleanse_raw_line, e) refl, (λ h. two_quotes-Lacks, m))
  | inr (end, e) ↦
      let (indent, i, flat) = indent_of_total line (find-has b')' delimiter line end e m) in
      let rest = drop (end + length delimiter) line in
      let (s, f, (g, m')) = scan_total (indent ++ (txt "\"\"" ++ rest)) in
      (
        s,
        rw (cleanse_raw_line, e, i) f,
        (
          λ h. g (
              Lacks-append b'\n' indent (txt "\"\"" ++ rest) (flat h)
                (quotes-Lacks rest (Lacks-drop b'\n' (end + length delimiter) line h))),
          m',
        ),
      )
]

cleanse_raw_from_total :
    (delimiter : Option Str) (raw_lines : List Str)
    → marked delimiter ≡ true
    → (lines : List Str) × (cleanse_raw_from delimiter raw_lines ≡ some lines)
      × (length lines ≡ length raw_lines)
      × (All (Lacks b'\n') raw_lines → All (Lacks b'\n') lines)
unfolding cleanse_raw_from cons_line
cleanse_raw_from_total delimiter [] m = ([], refl, refl, λ h. h)
cleanse_raw_from_total delimiter (line ∷ raw_lines) m =
    let ((line', delimiter'), e, (f, m')) = cleanse_raw_line_total line delimiter m in
    let (lines, g, l, k) = cleanse_raw_from_total delimiter' raw_lines m' in
    (line' ∷ lines, rw (cleanse_raw_from, e, g), omega (arith, l), λ h. (f h.0, k h.1))

-- `CleanseRawStrings` ends on every file, whatever raw strings are open in it. It gives as many lines as
-- it is given, and brings no newline into them.
pub cleanse_raw_strings_total :
    (raw_lines : List Str)
    → (lines : List Str) × (cleanse_raw_strings raw_lines ≡ some lines)
      × (length lines ≡ length raw_lines)
      × (All (Lacks b'\n') raw_lines → All (Lacks b'\n') lines)
unfolding cleanse_raw_strings marked
cleanse_raw_strings_total raw_lines = cleanse_raw_from_total none raw_lines refl
