-- ===== src/Style/Operators/Ends.antt =====
-- That the loop of `CheckOperatorSpacing` that hides the names of operator functions ends.
use mathlib.Core.Option.{some-injective}
use dyod_ws.Base.{
  ℕ, zero, suc, ◌+◌, ◌-◌, ◌<◌, ◌≤◌, true, false, ◌≡◌, ◌∙◌, refl, sym, ap, Option, some, List, [],
  ◌∷◌, ◌++◌, arith, length, take, drop, inl, inr, Bool-cases, Option-cases, ◌==◌, if◌then◌else◌,
}
use dyod_ws.Base.Loop.{again, iterate_total, again-injective}
use dyod_ws.Base.Text.{Str, txt}
use dyod_ws.Re.{
  Re, Cursor, Found, seq, star, one, group, at_start, ◌▹◌, boundary, at_end, lit, plus, non_space,
  dots, spaces, step, run, starts_word, is_boundary, re_match, match_at, group_text,
}
use dyod_ws.Re.Pieces.{re_match-run, group_text-text_in}
use dyod_ws.Re.Places.{At, drop-drop, step-cursor, run-At, seq-At, char-At, group-run}
use dyod_ws.Re.Sound.{plain}
use dyod_ws.Style.Operators.{operator_function, underscored, operator_round, hide_operators}

-- The number of characters that are no underscore.
abbrev loud : Str → ℕ
loud [] = 0
loud (c ∷ s) = (if c == b'_' then 0 else 1) + loud s

loud-append : (v w : Str) → loud (v ++ w) ≡ loud v + loud w
loud-append [] w = omega arith
loud-append (c ∷ v) w = omega (arith, loud-append v w)

loud-le : (s : Str) → loud s ≤ length s
loud-le [] = omega arith
loud-le (c ∷ s) = ground (arith, loud-le s)

loud-underscored : (s : Str) → loud (underscored s) ≡ 0
unfolding underscored
loud-underscored [] = refl
loud-underscored (c ∷ s) = omega (arith, loud-underscored s)

loud-cut : (i : ℕ) (s : Str) → loud (take i s) + loud (drop i s) ≡ loud s
loud-cut zero s = omega arith
loud-cut (suc i) [] = refl
loud-cut (suc i) (c ∷ s) = omega (arith, loud-cut i s)

-- Behind a word character and a boundary stands no underscore.
boundary-loud :
    (c : ℕ) (before : Str) (d : ℕ) (after : Str) (gs : List (ℕ × ℕ × ℕ))
    → c ≡ b'r'
    → is_boundary (record { before = c ∷ before; after = d ∷ after; groups = gs }) ≡ true
    → (d == b'_') ≡ false
unfolding is_boundary starts_word dyod_ws.Re.in_ranges
boundary-loud c before d after gs e h = elim (Bool-cases (d == b'_')) [
  | inr n ↦ n
  | inl y ↦ let d_is : d ≡ b'_' = ground (arith, y) in absurd (let h' = rw (e, d_is) at h in cc)
]

-- The end of `\boperator\b`: behind it stands a character that is no underscore, if any.
word_end :
    (line : Str) (s : Cursor) (k : Cursor → Option Cursor) (t : Cursor)
    → At line s
    → run (seq (one b'r') boundary) s k ≡ some t
    → (u : Cursor) × At line u
      × (length s.before ≤ length u.before)
      × (u.groups ≡ s.groups)
      × (k u ≡ some t)
      × ((d : ℕ) (v : Str) → u.after ≡ d ∷ v → (d == b'_') ≡ false)
unfolding run
word_end line s k t a h =
    let (c, v, e, y, q) = step-cursor (λ d. d == b'r') s.after s _ h in
    let b = record s { before = c ∷ s.before; after = v } in
    let far = drop-drop (length s.before) (suc (length s.before)) line (omega arith) in
    let one_on : suc (length s.before) - length s.before ≡ 1 = omega arith in
    elim (Bool-cases (is_boundary b)) [
      | inr n ↦ absurd (let q' = rw n at q in cc)
      | inl z ↦ (
        b,
        ap (drop 1) (sym e ∙ a) ∙ (rw one_on at far),
        omega arith,
        refl,
        rw z at q,
        λ d w f. boundary-loud c s.before d w s.groups (ground (arith, y)) (rw f at z),
      )
    ]

-- `.*\boperator\b` ends in front of a character that is no underscore, if any.
name_end :
    (line : Str) (s : Cursor) (k : Cursor → Option Cursor) (t : Cursor)
    → At line s
    → run (dots ▹ boundary ▹ lit "operator" ▹ boundary) s k ≡ some t
    → (u : Cursor) × At line u
      × (length s.before ≤ length u.before)
      × (u.groups ≡ s.groups)
      × (k u ≡ some t)
      × ((d : ℕ) (v : Str) → u.after ≡ d ∷ v → (d == b'_') ≡ false)
unfolding lit txt plain
name_end line s k t a h =
    let (u0, a0, l0, g0, h0) = seq-At line _ _ s k t a h in
    let (u1, a1, l1, g1, h1) = seq-At line _ _ u0 k t a0 h0 in
    let (u2, a2, l2, g2, h2) = char-At line b'o' _ _ u1 k t a1 h1 in
    let (u3, a3, l3, g3, h3) = char-At line b'p' _ _ u2 k t a2 h2 in
    let (u4, a4, l4, g4, h4) = char-At line b'e' _ _ u3 k t a3 h3 in
    let (u5, a5, l5, g5, h5) = char-At line b'r' _ _ u4 k t a4 h4 in
    let (u6, a6, l6, g6, h6) = char-At line b'a' _ _ u5 k t a5 h5 in
    let (u7, a7, l7, g7, h7) = char-At line b't' _ _ u6 k t a6 h6 in
    let (u8, a8, l8, g8, h8) = char-At line b'o' _ _ u7 k t a7 h7 in
    let (u, b, l, g, q, f) = word_end line u8 k t a8 h8 in
    (u, b, omega arith, g ∙ g8 ∙ g7 ∙ g6 ∙ g5 ∙ g4 ∙ g3 ∙ g2 ∙ g1 refl ∙ g0 refl, q, f)

-- A place behind at least one more character that is no space.
symbol_end :
    (line : Str) (s : Cursor) (k : Cursor → Option Cursor) (t : Cursor)
    → At line s
    → run (plus non_space) s k ≡ some t
    → (u : Cursor) × At line u
      × (suc (length s.before) ≤ length u.before)
      × (u.groups ≡ s.groups)
      × (k u ≡ some t)
      × ((d : ℕ) × (v : Str) × (s.after ≡ d ∷ v))
unfolding run plus plain
symbol_end line s k t a h =
    let (c, v, e, y, q) = step-cursor _ s.after s _ h in
    let b = record s { before = c ∷ s.before; after = v } in
    let far = drop-drop (length s.before) (suc (length s.before)) line (omega arith) in
    let one_on : suc (length s.before) - length s.before ≡ 1 = omega arith in
    let (u, a', l, g, q') =
      run-At line (star non_space) b k t (ap (drop 1) (sym e ∙ a) ∙ (rw one_on at far)) q in
    (u, a', omega arith, g refl, q', (c, v, e))

-- The text of a line with the symbols of an operator hidden.
hidden-lt :
    (line : Str) (i j k n d : ℕ) (v : Str)
    → i ≤ j
    → suc j ≤ k
    → drop j line ≡ d ∷ v
    → (d == b'_') ≡ false
    → loud (
        take (j - i) (drop i line)
        ++ (underscored (take (k - j) (drop j line)) ++ take (n - k) (drop k line)))
      < loud line
hidden-lt line i j k n d v z l e q =
    let front = loud-cut i line in
    let first = loud-cut (j - i) (drop i line) in
    let at_j = ap loud (drop-drop i j line z) in
    let second = loud-cut (k - j) (drop j line) in
    let at_k = ap loud (drop-drop j k line (omega arith)) in
    let third = loud-cut (n - k) (drop k line) in
    let more : k - j ≡ suc (k - suc j) = omega arith in
    let some_loud : 1 ≤ loud (take (k - j) (drop j line)) = rw (e, more, q) (omega arith) in
    omega (
      arith,
      front,
      first,
      at_j,
      second,
      at_k,
      third,
      some_loud,
      loud-append (take (j - i) (drop i line))
          (underscored (take (k - j) (drop j line)) ++ take (n - k) (drop k line)),
      loud-append (underscored (take (k - j) (drop j line))) (take (n - k) (drop k line)),
      loud-underscored (take (k - j) (drop j line)),
    )

operator_function-lt :
    (line : Str) (m : Found)
    → re_match operator_function line ≡ some m
    → loud (group_text 1 m ++ (underscored (group_text 2 m) ++ group_text 3 m)) < loud line
unfolding operator_function plain
operator_function-lt line m h =
    let (t, h', x, y) = re_match-run operator_function line m h in
    let (u0, a0, l0, g0, h0) =
      seq-At line _ _ (record { before = []; after = line; groups = [] }) _ t refl h' in
    let (u1, a1, l1, g1, h1, f) = name_end line u0 _ t a0 (group-run 1 _ _ u0 _ t h0) in
    let (u2, a2, l2, g2, h2, (d, v, e)) =
      symbol_end line (record u1 { groups = (1, length u0.before, length u1.before) ∷ u1.groups }) _
        t a1 (group-run 2 _ _ _ _ t h1) in
    let s3 = record u2 { groups = (2, length u1.before, length u2.before) ∷ u2.groups } in
    let (u3, a3, l3, g3, h3) =
      run-At line (spaces ▹ one b'(' ▹ dots) s3 _ t a2 (group-run 3 _ _ s3 _ t h2) in
    let (u4, a4, l4, g4, h4) =
      run-At line at_end
        (record u3 { groups = (3, length u2.before, length u3.before) ∷ u3.groups }) _ t a3 h3 in
    let gs : m.groups
        ≡ (3, length u2.before, length u3.before)
          ∷ (2, length u1.before, length u2.before)
          ∷ (1, length u0.before, length u1.before)
          ∷ u1.groups =
      y
      ∙ sym (ap (λ (c : Cursor). c.groups) (some-injective _ _ h4))
      ∙ g4 refl
      ∙ ap (λ gs. (3, length u2.before, length u3.before) ∷ gs)
          (g3 refl ∙ ap (λ gs. (2, length u1.before, length u2.before) ∷ gs) g2) in
    rw
      (
        group_text-text_in 1 m line _ x gs,
        group_text-text_in 2 m line _ x gs,
        group_text-text_in 3 m line _ x gs,
      )
      (hidden-lt line (length u0.before) (length u1.before) (length u2.before) (length u3.before) d
        v l1 l2 (sym a1 ∙ e) (f d v e))

operator_round-lt : (line line' : Str) → operator_round line ≡ again line' → loud line' < loud line
unfolding operator_round
operator_round-lt line line' h = elim (Option-cases (re_match operator_function line)) [
  | inl e ↦ absurd (let h' = rw (operator_round, e) at h in cc)
  | inr (m, e) ↦
      let is_line' = again-injective _ _ (rw (operator_round, e) at h) in
      rw is_line' at (operator_function-lt line m e)
]

-- The loop of `CheckOperatorSpacing` that hides the names of operator functions ends on every line.
pub hide_operators_total : (line : Str) → (hidden : Str) × (hide_operators line ≡ some hidden)
unfolding hide_operators
hide_operators_total line =
    let (hidden, e, _) =
      iterate_total (λ v. Unit {0}) (λ v. Unit {0}) loud operator_round
        (λ v v' p e. (tt, operator_round-lt v v' e)) (λ v a p e. tt) (suc (length line)) line
        (omega (arith, loud-le line)) tt in
    (hidden, e)
