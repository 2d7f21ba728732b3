-- ===== src/Brackets/Forward/Close.antt =====
-- What `CloseExpression` returns.
use mathlib.Core.Option.{some-injective}
use dyod_ws.Base.{
  ℕ, zero, suc, ◌+◌, ◌≤◌, ◌<◌, ◌≡◌, refl, sym, ◌⊎◌, none, some, List, [], ◌∷◌, arith, length,
  get_elem?, get_elem?-lt, drop, inl, inr, Option-cases, if_both, not, ◌||◌, ◌==◌,
}
use dyod_ws.Base.Text.{Str}
use dyod_ws.Brackets.Forward.Bounds.{find_end_bounds}
use dyod_ws.Brackets.Forward.{
  Answer, found, failed, pending, is_open, Position, close_from, close_on, close_at,
  close_expression, find_end_of_expression_in_line, shift_or_compare,
}
use dyod_ws.Cleanse.{CleansedLines}
use dyod_ws.Re.{matches}

-- A position from line number `linenum` on, that is behind a character of its line, or the one that
-- stands for "never closed".
pub record Fits (elided : List Str) (num_lines linenum : ℕ) (r : Position) : Type 0 where
  pub line_is : (e : ℕ) → r.pos ≡ some e → get_elem? elided r.linenum ≡ some r.line
  pub not_before : (e : ℕ) → r.pos ≡ some e → linenum ≤ r.linenum
  pub pos_bounds : (e : ℕ) → r.pos ≡ some e → (0 < e) × (e ≤ length r.line)
  pub never_closed : r.pos ≡ none → r.linenum ≡ num_lines

some-eq : {a b : ℕ} → some a ≡ some b → a ≡ b
some-eq h = cc

module _ (elided : List Str) (num_lines linenum : ℕ) where
  give_up-Fits :
      (line : Str)
      → Fits elided num_lines linenum (record { line = line; linenum = num_lines; pos = none })
  give_up-Fits line = record {
    line_is = λ e h. cc;
    not_before = λ e h. cc;
    pos_bounds = λ e h. cc;
    never_closed = λ h. refl;
  }

  here-Fits :
      (line : Str) (n e : ℕ)
      → linenum ≤ n
      → get_elem? elided n ≡ some line
      → (0 < e) × (e ≤ length line)
      → Fits elided num_lines linenum (record { line = line; linenum = n; pos = some e })
  here-Fits line n e b g p = record {
    line_is = λ e' h. g;
    not_before = λ e' h. b;
    pos_bounds = λ e' h. rw (sym (some-eq h)) p;
    never_closed = λ h. cc;
  }

drop-get_elem? :
    (n : ℕ) (xs : List Str) (x : Str) (rest : List Str)
    → drop n xs ≡ x ∷ rest
    → (get_elem? xs n ≡ some x) × (drop (suc n) xs ≡ rest)
drop-get_elem? zero [] x rest h = absurd cc
drop-get_elem? zero (y ∷ ys) x rest h = (cc, cc)
drop-get_elem? (suc n) [] x rest h = absurd cc
drop-get_elem? (suc n) (y ∷ ys) x rest h = drop-get_elem? n ys x rest h

answer_of :
    (line : Str) (startpos e : ℕ) (stack : List ℕ)
    → startpos ≤ length line
    → find_end_of_expression_in_line line startpos stack ≡ found e
    → (0 < e) × (e ≤ length line)
answer_of line startpos e stack b h =
    let (p, q, _) = find_end_bounds line startpos e stack b h in (omega arith, q)

pub Answer-cases :
    (a : Answer) → ((e : ℕ) × (a ≡ found e)) ⊎ ((a ≡ failed) ⊎ ((s : List ℕ) × (a ≡ pending s)))
Answer-cases (found e) = inl (e, refl)
Answer-cases failed = inr (inl refl)
Answer-cases (pending s) = inr (inr (s, refl))

module _ (elided : List Str) (num_lines linenum : ℕ) where
  close_from-Fits :
      (rest : List Str) (n : ℕ) (line : Str) (stack : List ℕ)
      → linenum ≤ n
      → drop (suc n) elided ≡ rest
      → Fits elided num_lines linenum (close_from num_lines rest n line stack)
  unfolding close_from
  close_from-Fits [] n line stack b d = give_up-Fits elided num_lines linenum line
  close_from-Fits (next ∷ rest) n line [] b d = give_up-Fits elided num_lines linenum line
  close_from-Fits (next ∷ rest) n line (top ∷ stack) b d =
      let (g, d') = drop-get_elem? (suc n) elided next rest d in
      let e : n + 1 ≡ suc n = omega arith in
      elim (Answer-cases (find_end_of_expression_in_line next 0 (top ∷ stack))) [
        | inl (p, q) ↦
            rw (q, close_from, e)
              (here-Fits elided num_lines linenum next (suc n) p (omega arith) g
                (answer_of next 0 p (top ∷ stack) (omega arith) q))
        | inr (inl q) ↦ rw (q, close_from) (give_up-Fits elided num_lines linenum next)
        | inr (inr (s, q)) ↦
            rw (q, close_from, e) (close_from-Fits rest (suc n) next s (omega arith) d')
      ]

close_on-Fits :
    (cl : CleansedLines) (linenum pos c : ℕ) (line : Str)
    → get_elem? cl.elided linenum ≡ some line
    → pos ≤ length line
    → Fits cl.elided cl.num_lines linenum (close_on cl linenum line pos c)
unfolding close_on
close_on-Fits cl linenum pos c line g b =
    let e : linenum + 1 ≡ suc linenum = omega arith in
    if_both (Fits cl.elided cl.num_lines linenum)
      (not (is_open c || c == b'<') || matches shift_or_compare (drop pos line))
      (λ _. give_up-Fits cl.elided cl.num_lines linenum line)
      λ _. elim (Answer-cases (find_end_of_expression_in_line line pos [])) [
        | inl (p, q) ↦ rw q (
            here-Fits cl.elided cl.num_lines linenum line linenum p (omega arith) g
              (answer_of line pos p [] b q))
        | inr (inl q) ↦ rw q (give_up-Fits cl.elided cl.num_lines linenum line)
        | inr (inr (s, q)) ↦
            rw (q, e)
              (close_from-Fits cl.elided cl.num_lines linenum (drop (suc linenum) cl.elided) linenum
                line s (omega arith) refl)
      ]

-- A position that `CloseExpression` returns is on a line of the file from the given line on, and
-- behind a character of it; where nothing closes, the line number is the number of lines.
pub close_expression-Fits :
    (cl : CleansedLines) (linenum pos : ℕ) (r : Position)
    → close_expression cl linenum pos ≡ some r
    → Fits cl.elided cl.num_lines linenum r
unfolding close_expression close_at
close_expression-Fits cl linenum pos r h = elim (Option-cases (get_elem? cl.elided linenum)) [
  | inl n ↦ absurd (let h' = rw (n, close_expression) at h in cc)
  | inr (line, g) ↦ elim (Option-cases (get_elem? line pos)) [
    | inl n ↦ absurd (let h' = rw (g, close_expression, n, close_at) at h in cc)
    | inr (c, q) ↦
        let h' = rw (g, close_expression, q, close_at) at h in
        position-eq h'
          (close_on-Fits cl linenum pos c line g (omega (arith, get_elem?-lt line pos c q)))
  ]
]
  where
    position-eq :
        {p q : Position}
        → some p ≡ some q
        → Fits cl.elided cl.num_lines linenum p
        → Fits cl.elided cl.num_lines linenum q
    position-eq {p} {q} e f = rw (some-injective p q e) at f
