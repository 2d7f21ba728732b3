-- ===== src/Brackets/Backward/Bounds.antt =====
-- Where an expression that is found from its end starts.
use dyod_ws.Base.{
  ℕ, zero, suc, ◌<◌, Bool, true, false, ◌&&◌, ◌||◌, ◌≡◌, ◌⊎◌, refl, List, [], ◌∷◌, arith, get_or,
  ◌==◌, ltb, if_both, inl, inr,
}
use dyod_ws.Base.Text.{Str}
use dyod_ws.Brackets.Backward.{
  Move, next, skip, finish, popped, open_angle, open_bracket, end_statement, not_an_angle, before,
  backward_char, backward_from, find_start_of_expression_in_line,
}
use dyod_ws.Brackets.Forward.{Answer, found, is_open, is_close, pop_while}

-- The characters that an expression starts with.
abbrev pub is_start_mark : ℕ → Bool
is_start_mark c = is_open c || c == b'<'

Move-cases :
    (m : Move)
    → ((s : List ℕ) × (m ≡ next s))
      ⊎ (((s : List ℕ) × (m ≡ skip s)) ⊎ ((a : Answer) × (m ≡ finish a)))
Move-cases (next s) = inl (s, refl)
Move-cases (skip s) = inr (inl (s, refl))
Move-cases (finish a) = inr (inr (a, refl))

popped-found : (i e : ℕ) (stack : List ℕ) → popped i stack ≡ finish (found e) → i ≡ e
unfolding popped
popped-found i e [] h = ground arith
popped-found i e (x ∷ stack) h = ground arith

open_angle-found : (i e : ℕ) (stack : List ℕ) → open_angle i stack ≡ finish (found e) → i ≡ e
unfolding open_angle
open_angle-found i e [] h = ground arith
open_angle-found i e (x ∷ stack) h = ground (arith, popped-found i e stack)

open_bracket-found :
    (i c e : ℕ) (stack : List ℕ) → open_bracket i c stack ≡ finish (found e) → i ≡ e
unfolding open_bracket
open_bracket-found i c e [] h = ground arith
open_bracket-found i c e (x ∷ stack) h = ground (arith, popped-found i e stack)

end_statement-found : (e : ℕ) (stack : List ℕ) → end_statement stack ≡ finish (found e) → ⊥
unfolding end_statement
end_statement-found e [] h = ground arith
end_statement-found e (x ∷ stack) h = ground arith

-- What a start that is found in one round says of the position and the character.
record StartsHere (i c : ℕ) (r : Move) : Type 0 where
  at : (e : ℕ) → r ≡ finish (found e) → (i ≡ e) × (is_start_mark c ≡ true)

module _ (i c : ℕ) where
  next-StartsHere : (stack : List ℕ) → StartsHere i c (next stack)
  next-StartsHere stack = record { at = λ e h. cc }

  skip-StartsHere : (stack : List ℕ) → StartsHere i c (skip stack)
  skip-StartsHere stack = record { at = λ e h. cc }

  open_angle-StartsHere :
      (stack : List ℕ) → (c == b'<') ≡ true → StartsHere i c (open_angle i stack)
  open_angle-StartsHere stack m = record {
    at = λ e h. (open_angle-found i e stack h, ground arith);
  }

  open_bracket-StartsHere :
      (stack : List ℕ) → is_open c ≡ true → StartsHere i c (open_bracket i c stack)
  open_bracket-StartsHere stack m = record {
    at = λ e h. (open_bracket-found i c e stack h, ground arith);
  }

  end_statement-StartsHere : (stack : List ℕ) → StartsHere i c (end_statement stack)
  end_statement-StartsHere stack = record { at = λ e h. absurd (end_statement-found e stack h) }

backward_char-StartsHere :
    (line : Str) (i c : ℕ) (stack : List ℕ) → StartsHere i c (backward_char line i c stack)
unfolding backward_char
backward_char-StartsHere line i c stack =
    let P = StartsHere i c in
    let go_on = λ (s : List ℕ). next-StartsHere i c s in
    if_both P (is_close c) (λ _. go_on (c ∷ stack))
      λ _.
        if_both P (c == b'>')
          (λ _.
            if_both P (not_an_angle line i) (λ _. skip-StartsHere i c stack)
              (λ _. go_on (b'>' ∷ stack)))
          λ _.
            if_both P (c == b'<')
              (λ m.
                if_both P (ltb 0 i && before line i == b'<') (λ _. skip-StartsHere i c stack)
                  (λ _. open_angle-StartsHere i c stack m))
              λ _. if_both P (is_open c) (open_bracket-StartsHere i c (pop_while b'>' stack)) λ _.
                if_both P (c == b';') (λ _. end_statement-StartsHere i c (pop_while b'>' stack))
                  (λ _. go_on stack)

backward_from-found :
    (line : Str) (n e : ℕ) (skipped : Bool) (stack : List ℕ)
    → backward_from line n skipped stack ≡ found e
    → (e < n) × (is_start_mark (get_or line e 0) ≡ true)
unfolding backward_from
backward_from-found line zero e skipped stack h = absurd cc
backward_from-found line (suc i) e true stack h =
    let (a, m) = backward_from-found line i e false stack h in (omega arith, m)
backward_from-found line (suc i) e false stack h =
    elim (Move-cases (backward_char line i (get_or line i 0) stack)) [
      | inl (s, q) ↦
          let (a, m) = backward_from-found line i e false s (rw (q, backward_from) at h) in
          (omega arith, m)
      | inr (inl (s, q)) ↦
          let (a, m) = backward_from-found line i e true s (rw (q, backward_from) at h) in
          (omega arith, m)
      | inr (inr (answer, q)) ↦
          let stopped : answer ≡ found e = rw (q, backward_from) at h in
          let (a, m) =
            (backward_char-StartsHere line i (get_or line i 0) stack).at e (rw stopped at q) in
          (omega arith, rw a at m)
    ]

-- A start that is found from the first `n` characters on stands among them, at an opening bracket or
-- at `<`, whatever the stack.
pub find_start_bounds :
    (line : Str) (n e : ℕ) (stack : List ℕ)
    → find_start_of_expression_in_line line n stack ≡ found e
    → (e < n) × (is_start_mark (get_or line e 0) ≡ true)
unfolding find_start_of_expression_in_line
find_start_bounds line n e stack h = backward_from-found line n e false stack h
