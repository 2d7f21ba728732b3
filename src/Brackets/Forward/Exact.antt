-- ===== src/Brackets/Forward/Exact.antt =====
-- The scan finds nothing but balanced text, on text without `<`, `>` and `;`.
use mathlib.Core.List.{append_assoc}
use dyod_ws.Base.{
  ℕ, zero, suc, ◌+◌, ◌≡◌, refl, ap, sym, ◌∙◌, ◌⊎◌, Bool, true, not, ◌||◌, List, [], ◌∷◌, ◌++◌,
  arith, length, drop, ◌==◌, All, inl, inr, Bool-cases,
}
use dyod_ws.Base.Loop.{stop}
use dyod_ws.Base.Text.{Str}
use dyod_ws.Brackets.Forward.Balanced.{
  is_quiet, Balanced, empty, quiet, nest, quiet_char, open_char, close_char, pop_while-open,
  close_pair, forward_from-again, forward_from-stop,
}
use dyod_ws.Brackets.Forward.{
  found, failed, is_open, is_close, pairs, popped, close, forward_char, forward_from,
  find_end_of_expression_in_line,
}

-- No angle bracket and no semicolon.
abbrev pub is_plain : ℕ → Bool
is_plain c = not (c == b'<' || c == b'>' || c == b';')

-- Text that closes each bracket of the stack, from the top down.
data Closes : List ℕ → Str → Type 0 where
  done : Closes [] []
  pop :
      {stack : List ℕ} {v w : Str} (a b : ℕ)
      → pairs a b ≡ true
      → Balanced v
      → Closes stack w
      → Closes (a ∷ stack) (v ++ (b ∷ w))

-- The stack that is found closed, and what is left of the text.
record Closed (stack : List ℕ) (rest : Str) (i e : ℕ) : Type 0 where
  text : Str
  left : Str
  splits : rest ≡ text ++ left
  end : e ≡ i + length text
  closes : Closes stack text

Closes-quiet :
    {stack : List ℕ} {w : Str} (top c : ℕ)
    → is_quiet c ≡ true
    → Closes (top ∷ stack) w
    → Closes (top ∷ stack) (c ∷ w)
Closes-quiet top c q (pop a b p x y) = pop a b p (quiet c q x) y

-- A bracket that is closed becomes part of the text below the next one.
Closes-nest :
    {stack : List ℕ} {w : Str} (top a : ℕ)
    → Closes (a ∷ top ∷ stack) w
    → Closes (top ∷ stack) (a ∷ w)
Closes-nest top a (pop {v = v} a' b p x (pop {v = v'} {w = w'} t b' p' x' y)) =
    let joined = pop t b' p' (nest a' b p x x') y in
    rw (append_assoc v (b ∷ v') (b' ∷ w')) at joined

-- The three kinds of character in such text.
plain-cases :
    (c : ℕ) → is_plain c ≡ true → (is_quiet c ≡ true) ⊎ ((is_open c ≡ true) ⊎ (is_close c ≡ true))
plain-cases c h = elim (Bool-cases (is_open c)) [
  | inl o ↦ inr (inl o)
  | inr o ↦ elim (Bool-cases (is_close c)) [ inl k ↦ inr (inr k) | inr k ↦ inl (ground arith) ]
]

-- A bracket that closes: it pairs with the top of the stack, or the scan fails.
close-cases :
    (i top b : ℕ) (stack : List ℕ) → (pairs top b ≡ true) ⊎ (close i b (top ∷ stack) ≡ stop failed)
unfolding close
close-cases i top b stack = elim (Bool-cases (pairs top b)) [ inl p ↦ inl p | inr n ↦ inr (rw n) ]

failed≢found : {e : ℕ} → failed ≡ found e → ⊥
failed≢found h = ground arith

module _ (line : Str) where
  -- What an answer in the tail says of the text with one more character in front.
  Closed-cons :
      {stack stack' : List ℕ} {rest : Str} {i e : ℕ} (c : ℕ)
      → ((w : Str) → Closes stack' w → Closes stack (c ∷ w))
      → Closed stack' rest (i + 1) e
      → Closed stack (c ∷ rest) i e
  Closed-cons c f r = record {
    text = c ∷ r.text;
    left = r.left;
    splits = ap (λ t. c ∷ t) r.splits;
    end = omega (arith, r.end);
    closes = f r.text r.closes;
  }

  -- A closing bracket that pairs with the top of the stack.
  pair-Closed :
      (c : ℕ) (rest : Str) (i e top : ℕ) (stack : List ℕ)
      → pairs top c ≡ true
      → forward_char line i c (top ∷ stack) ≡ popped (i + 1) stack
      → ((n : ℕ) (below : List ℕ)
          → stack ≡ n ∷ below
          → forward_from line (i + 1) rest (n ∷ below) ≡ found e
          → Closed (n ∷ below) rest (i + 1) e)
      → forward_from line i (c ∷ rest) (top ∷ stack) ≡ found e
      → Closed (top ∷ stack) (c ∷ rest) i e
  unfolding popped
  pair-Closed c rest i e top [] p char ih h =
      let here = sym (forward_from-stop line i c rest (top ∷ []) (found (i + 1)) char) ∙ h in
      record {
        text = c ∷ [];
        left = rest;
        splits = refl;
        end = ground arith;
        closes = pop top c p empty done;
      }
  pair-Closed c rest i e top (n ∷ below) p char ih h =
      let later = sym (forward_from-again line i c rest (top ∷ n ∷ below) (n ∷ below) char) ∙ h in
      Closed-cons c (λ w x. pop top c p empty x) (ih n below refl later)

  close-Closed :
      (c : ℕ) (rest : Str) (i e top : ℕ) (stack : List ℕ)
      → is_close c ≡ true
      → is_open top ≡ true
      → ((n : ℕ) (below : List ℕ)
          → stack ≡ n ∷ below
          → forward_from line (i + 1) rest (n ∷ below) ≡ found e
          → Closed (n ∷ below) rest (i + 1) e)
      → forward_from line i (c ∷ rest) (top ∷ stack) ≡ found e
      → Closed (top ∷ stack) (c ∷ rest) i e
  close-Closed c rest i e top stack k o ih h = elim (close-cases i top c stack) [
    | inr f ↦
        let char : forward_char line i c (top ∷ stack) ≡ stop failed =
          rw (close_char line i c (top ∷ stack) k, pop_while-open top stack o) f in
        absurd (
          let no = sym (forward_from-stop line i c rest (top ∷ stack) failed char) ∙ h in
          failed≢found no)
    | inl p ↦ pair-Closed c rest i e top stack p (close_pair line i top c stack p) ih h
  ]

  forward_from-Closed :
      (rest : Str) (i e top : ℕ) (stack : List ℕ)
      → All (λ c. is_plain c ≡ true) rest
      → All (λ c. is_open c ≡ true) (top ∷ stack)
      → forward_from line i rest (top ∷ stack) ≡ found e
      → Closed (top ∷ stack) rest i e
  unfolding forward_from popped
  forward_from-Closed [] i e top stack a o h = absurd cc
  forward_from-Closed (c ∷ rest) i e top stack a o h = elim (plain-cases c a.0) [
    | inl q ↦
        let later =
          sym (
            forward_from-again line i c rest (top ∷ stack) (top ∷ stack)
              (quiet_char line i c (top ∷ stack) q))
          ∙ h in
        Closed-cons c (λ w x. Closes-quiet top c q x)
          (forward_from-Closed rest (i + 1) e top stack a.1 o later)
    | inr (inl q) ↦
        let later =
          sym (
            forward_from-again line i c rest (top ∷ stack) (c ∷ top ∷ stack)
              (open_char line i c (top ∷ stack) q))
          ∙ h in
        Closed-cons c (λ w x. Closes-nest top c x)
          (forward_from-Closed rest (i + 1) e c (top ∷ stack) a.1 (q, o) later)
    | inr (inr q) ↦
        close-Closed c rest i e top stack q o.0
          (λ n below eq h'. forward_from-Closed rest (i + 1) e n below a.1 (rw eq at o.1) h') h
  ]

All-drop : (P : ℕ → Type 0) (n : ℕ) (s : Str) → All P s → All P (drop n s)
All-drop P zero s a = a
All-drop P (suc n) [] a = a
All-drop P (suc n) (c ∷ s) a = All-drop P n s a.1

-- The text from an opening bracket to the end that is found.
pub record IsExpression (text : Str) : Type 0 where
  pub open_char : ℕ
  pub inside : Str
  pub close_char : ℕ
  pub shape : text ≡ open_char ∷ (inside ++ (close_char ∷ []))
  pub paired : pairs open_char close_char ≡ true
  pub balanced : Balanced inside

expression : (a : ℕ) (w : Str) → Closes (a ∷ []) w → IsExpression (a ∷ w)
expression a w (pop {v = v} a' b p x done) = record {
  open_char = a;
  inside = v;
  close_char = b;
  shape = refl;
  paired = p;
  balanced = x;
}

-- On a line without `<`, `>` and `;`, what is found from an opening bracket on is balanced text
-- between that bracket and one of its kind.
pub find_end-IsExpression :
    (line rest : Str) (startpos e a : ℕ)
    → All (λ c. is_plain c ≡ true) line
    → drop startpos line ≡ a ∷ rest
    → is_open a ≡ true
    → find_end_of_expression_in_line line startpos [] ≡ found e
    → (text : Str) × (left : Str) × (drop startpos line ≡ text ++ left)
      × (e ≡ startpos + length text)
      × IsExpression text
unfolding find_end_of_expression_in_line
find_end-IsExpression line rest startpos e a plain d o h =
    let all = rw d at (All-drop (λ c. is_plain c ≡ true) startpos line plain) in
    let scan : forward_from line startpos (a ∷ rest) [] ≡ found e = rw d at h in
    let later =
      sym (forward_from-again line startpos a rest [] (a ∷ []) (open_char line startpos a [] o))
      ∙ scan in
    let c = forward_from-Closed line rest (startpos + 1) e a [] all.1 (o, tt) later in
    (
      a ∷ c.text,
      c.left,
      d ∙ ap (λ t. a ∷ t) c.splits,
      omega (arith, c.end),
      expression a c.text c.closes,
    )
