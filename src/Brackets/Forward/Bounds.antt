-- ===== src/Brackets/Forward/Bounds.antt =====
-- Where an expression that is found ends.
use dyod_ws.Base.{
  ℕ, suc, ◌+◌, ◌-◌, ◌≤◌, ◌<◌, Bool, true, ◌||◌, ◌≡◌, List, [], ◌∷◌, arith, length, length-drop,
  get_or, drop, take, ltb, ◌&&◌, ◌==◌, if_both, inl, inr,
}
use dyod_ws.Base.Loop.{Round, again, stop, Round-cases}
use dyod_ws.Base.Text.{Str}
use dyod_ws.Re.{searches}
use dyod_ws.Brackets.Forward.{
  Answer, found, is_open, is_close, popped, close, close_angle, left_shift, end_statement,
  pop_while, before_is, operator_at_end, forward_char, forward_from, find_end_of_expression_in_line,
}

-- A bracket that may end an expression.
abbrev pub is_end_mark : ℕ → Bool
is_end_mark c = is_close c || c == b'>'

popped-found : (e e' : ℕ) (stack : List ℕ) → popped e stack ≡ stop (found e') → e ≡ e'
unfolding popped
popped-found e e' [] h = ground arith
popped-found e e' (x ∷ stack) h = ground arith

close-found : (i c e : ℕ) (stack : List ℕ) → close i c stack ≡ stop (found e) → i + 1 ≡ e
unfolding close
close-found i c e [] h = ground arith
close-found i c e (x ∷ stack) h = ground (arith, popped-found (i + 1) e stack)

close_angle-found : (i e : ℕ) (stack : List ℕ) → close_angle i stack ≡ stop (found e) → i + 1 ≡ e
unfolding close_angle
close_angle-found i e [] h = ground arith
close_angle-found i e (x ∷ stack) h = ground (arith, popped-found (i + 1) e stack)

left_shift-found : (e : ℕ) (stack : List ℕ) → left_shift stack ≡ stop (found e) → ⊥
unfolding left_shift
left_shift-found e [] h = ground arith
left_shift-found e (x ∷ []) h = ground arith
left_shift-found e (x ∷ y ∷ stack) h = ground arith

end_statement-found : (e : ℕ) (stack : List ℕ) → end_statement stack ≡ stop (found e) → ⊥
unfolding end_statement
end_statement-found e [] h = ground arith
end_statement-found e (x ∷ stack) h = ground arith

-- What an end that is found in one round says of the position and the character.
record EndsHere (i c : ℕ) (r : Round (List ℕ) Answer) : Type 0 where
  at : (e : ℕ) → r ≡ stop (found e) → (i + 1 ≡ e) × (is_end_mark c ≡ true)

module _ (i c : ℕ) where
  again-EndsHere : (stack : List ℕ) → EndsHere i c (again stack)
  again-EndsHere stack = record { at = λ e h. cc }

  left_shift-EndsHere : (stack : List ℕ) → EndsHere i c (left_shift stack)
  left_shift-EndsHere stack = record { at = λ e h. absurd (left_shift-found e stack h) }

  end_statement-EndsHere : (stack : List ℕ) → EndsHere i c (end_statement stack)
  end_statement-EndsHere stack = record { at = λ e h. absurd (end_statement-found e stack h) }

  close-EndsHere : (stack : List ℕ) → is_close c ≡ true → EndsHere i c (close i c stack)
  close-EndsHere stack m = record { at = λ e h. (close-found i c e stack h, ground arith) }

  close_angle-EndsHere : (stack : List ℕ) → (c == b'>') ≡ true → EndsHere i c (close_angle i stack)
  close_angle-EndsHere stack m = record {
    at = λ e h. (close_angle-found i e stack h, ground arith);
  }

abbrev arrow : Str → ℕ → Bool
arrow line i =
    ltb 0 i && (get_or line (i - 1) 0 == b'-' || searches operator_at_end (take (i - 1) line))

forward_char-EndsHere :
    (line : Str) (i c : ℕ) (stack : List ℕ) → EndsHere i c (forward_char line i c stack)
unfolding forward_char
forward_char-EndsHere line i c stack =
    let P = EndsHere i c in
    let go_on = λ (s : List ℕ). again-EndsHere i c s in
    if_both P (is_open c) (λ _. go_on (c ∷ stack))
      λ _.
        if_both P (c == b'<')
          (λ _.
            if_both P (before_is line i b'<') (λ _. left_shift-EndsHere i c stack)
              λ _.
                if_both P (ltb 0 i && searches operator_at_end (take i line)) (λ _. go_on stack)
                  (λ _. go_on (b'<' ∷ stack)))
          λ _. if_both P (is_close c) (close-EndsHere i c (pop_while b'<' stack)) λ _.
            if_both P (c == b'>')
              (λ m.
                if_both P (arrow line i) (λ _. go_on stack) (λ _. close_angle-EndsHere i c stack m))
              λ _.
                if_both P (c == b';') (λ _. end_statement-EndsHere i c (pop_while b'<' stack))
                  (λ _. go_on stack)

forward_from-found :
    (line rest : Str) (i e : ℕ) (stack : List ℕ)
    → forward_from line i rest stack ≡ found e
    → (i < e) × (e ≤ i + length rest) × (is_end_mark (get_or rest (e - 1 - i) 0) ≡ true)
unfolding forward_from
forward_from-found line [] i e stack h = absurd cc
forward_from-found line (c ∷ rest) i e stack h = elim (Round-cases (forward_char line i c stack)) [
  | inl (stack', q) ↦
      let (a, b, m) = forward_from-found line rest (i + 1) e stack' (rw (q, forward_from) at h) in
      let shift : e - 1 - i ≡ suc (e - 1 - (i + 1)) = omega arith in
      (omega arith, omega arith, rw shift m)
  | inr (answer, q) ↦
      let stopped : answer ≡ found e = rw (q, forward_from) at h in
      let (a, m) = (forward_char-EndsHere line i c stack).at e (rw stopped at q) in
      let here : e - 1 - i ≡ 0 = omega arith in (omega arith, omega arith, rw here m)
]

-- An end that is found lies behind the start and within the line, and the character in front of it
-- is a closing bracket.
pub find_end_bounds :
    (line : Str) (startpos e : ℕ) (stack : List ℕ)
    → startpos ≤ length line
    → find_end_of_expression_in_line line startpos stack ≡ found e
    → (startpos < e)
      × (e ≤ length line)
      × (is_end_mark (get_or (drop startpos line) (e - 1 - startpos) 0) ≡ true)
unfolding find_end_of_expression_in_line
find_end_bounds line startpos e stack b h =
    let (p, q, m) = forward_from-found line (drop startpos line) startpos e stack h in
    (p, omega (arith, length-drop startpos line), m)
