-- ===== src/Brackets/Forward/Balanced.antt =====
-- The scan against a definition of balanced text.
use mathlib.Core.List.{append_assoc}
use dyod_ws.Base.{
  ℕ, ◌+◌, Bool, true, not, ◌||◌, ◌≡◌, refl, ap, ◌∙◌, List, [], ◌∷◌, ◌++◌, arith, length,
  length-append, drop, ◌==◌,
}
use dyod_ws.Base.Loop.{again, stop}
use dyod_ws.Base.Text.{Str}
use dyod_ws.Brackets.Forward.{
  Answer, found, is_open, is_close, pairs, pop_while, popped, close, forward_char, forward_from,
  find_end_of_expression_in_line,
}

-- A character that the scan passes over.
abbrev pub is_quiet : ℕ → Bool
is_quiet c = not (is_open c || is_close c || c == b'<' || c == b'>' || c == b';')

-- Text in which every bracket is closed by one of its kind.
pub data Balanced : Str → Type 0 where
  empty : Balanced []
  quiet : {w : Str} (c : ℕ) → is_quiet c ≡ true → Balanced w → Balanced (c ∷ w)
  nest :
      {v w : Str} (a b : ℕ)
      → pairs a b ≡ true
      → Balanced v
      → Balanced w
      → Balanced (a ∷ (v ++ (b ∷ w)))

module _ (line : Str) (i c : ℕ) where
  pub quiet_char : (stack : List ℕ) → is_quiet c ≡ true → forward_char line i c stack ≡ again stack
  unfolding forward_char
  quiet_char stack h = ground arith

  pub open_char :
      (stack : List ℕ) → is_open c ≡ true → forward_char line i c stack ≡ again (c ∷ stack)
  unfolding forward_char
  open_char stack h = ground arith

  pub close_char :
      (stack : List ℕ)
      → is_close c ≡ true
      → forward_char line i c stack ≡ close i c (pop_while b'<' stack)
  unfolding forward_char
  close_char stack h = ground arith

pairs-is_open : (a b : ℕ) → pairs a b ≡ true → (is_open a ≡ true) × (is_close b ≡ true)
pairs-is_open a b h = (ground arith, ground arith)

pub pop_while-open :
    (top : ℕ) (stack : List ℕ) → is_open top ≡ true → pop_while b'<' (top ∷ stack) ≡ top ∷ stack
unfolding pop_while
pop_while-open top stack h = ground arith

-- A bracket that closes the one on the top of the stack.
pub close_pair :
    (line : Str) (i a b : ℕ) (stack : List ℕ)
    → pairs a b ≡ true
    → forward_char line i b (a ∷ stack) ≡ popped (i + 1) stack
close_pair line i a b stack h =
    let (o, k) = pairs-is_open a b h in
    rw (close_char line i b (a ∷ stack) k, pop_while-open a stack o) (unfold close in ground arith)

pub forward_from-again :
    (line : Str) (i c : ℕ) (rest : Str) (stack stack' : List ℕ)
    → forward_char line i c stack ≡ again stack'
    → forward_from line i (c ∷ rest) stack ≡ forward_from line (i + 1) rest stack'
unfolding forward_from
forward_from-again line i c rest stack stack' h = rw (h, forward_from)

pub forward_from-stop :
    (line : Str) (i c : ℕ) (rest : Str) (stack : List ℕ) (answer : Answer)
    → forward_char line i c stack ≡ stop answer
    → forward_from line i (c ∷ rest) stack ≡ answer
unfolding forward_from
forward_from-stop line i c rest stack answer h = rw (h, forward_from)

-- Balanced text below a bracket leaves the stack as it was.
forward_from-Balanced :
    {w : Str} (line : Str) (i j : ℕ) (rest : Str) (top : ℕ) (stack : List ℕ)
    → i + length w ≡ j
    → Balanced w
    → forward_from line i (w ++ rest) (top ∷ stack) ≡ forward_from line j rest (top ∷ stack)
unfolding popped
forward_from-Balanced line i j rest top stack e empty = let e' : i ≡ j = omega arith in rw e'
forward_from-Balanced line i j rest top stack e (quiet {w} c q b) =
    forward_from-again line i c (w ++ rest) (top ∷ stack) (top ∷ stack)
      (quiet_char line i c (top ∷ stack) q)
    ∙ forward_from-Balanced line (i + 1) j rest top stack (omega arith) b
forward_from-Balanced line i j rest top stack e (nest {v} {w} a b p x y) =
    let (o, k) = pairs-is_open a b p in
    let m = i + 1 + length v in
    ap (λ t. forward_from line i (a ∷ t) (top ∷ stack)) (append_assoc v (b ∷ w) rest)
    ∙ forward_from-again line i a (v ++ (b ∷ (w ++ rest))) (top ∷ stack) (a ∷ top ∷ stack)
        (open_char line i a (top ∷ stack) o)
    ∙ forward_from-Balanced line (i + 1) m (b ∷ (w ++ rest)) a (top ∷ stack) refl x
    ∙ forward_from-again line m b (w ++ rest) (a ∷ top ∷ stack) (top ∷ stack)
        (close_pair line m a b (top ∷ stack) p)
    ∙ forward_from-Balanced line (m + 1) j rest top stack (omega (arith, length-append v (b ∷ w))) y

drop-append : (v w : Str) → drop (length v) (v ++ w) ≡ w
drop-append [] w = refl
drop-append (c ∷ v) w = drop-append v w

-- From an opening bracket with balanced text behind it, the end that is found is the one just
-- behind the bracket that closes it.
pub find_end-Balanced :
    {w : Str} (front rest : Str) (a b : ℕ)
    → pairs a b ≡ true
    → Balanced w
    → find_end_of_expression_in_line (front ++ (a ∷ (w ++ (b ∷ rest)))) (length front) []
      ≡ found (length front + length w + 2)
unfolding find_end_of_expression_in_line popped
find_end-Balanced {w} front rest a b p x =
    let line = front ++ (a ∷ (w ++ (b ∷ rest))) in
    let i = length front in
    let m = i + 1 + length w in
    let (o, k) = pairs-is_open a b p in
    ap (λ t. forward_from line i t []) (drop-append front (a ∷ (w ++ (b ∷ rest))))
    ∙ forward_from-again line i a (w ++ (b ∷ rest)) [] (a ∷ []) (open_char line i a [] o)
    ∙ forward_from-Balanced line (i + 1) m (b ∷ rest) a [] refl x
    ∙ forward_from-stop line m b rest (a ∷ []) (found (m + 1)) (close_pair line m a b [] p)
    ∙ ap found (omega arith)
