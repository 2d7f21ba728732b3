-- ===== src/Brackets/Backward/Close.antt =====
-- What `ReverseCloseExpression` returns.
use mathlib.Core.List.{reverse-append}
use mathlib.Core.Option.{some-injective}
use dyod_ws.Base.{
  ℕ, zero, suc, ◌++◌, ap, ◌+◌, ◌≤◌, ◌<◌, ◌-◌, true, not, ◌||◌, ◌≡◌, refl, none, some, List, [], ◌∷◌,
  arith, length, take, get_or, get_elem?, get_elem?-lt, reverse, ◌==◌, if_both, inl, inr,
  Option-cases,
}
use dyod_ws.Base.Text.{Str}
use dyod_ws.Brackets.Backward.{
  find_start_of_expression_in_line, open_from, open_on, open_at, reverse_close_expression,
}
use dyod_ws.Brackets.Backward.Bounds.{is_start_mark, find_start_bounds}
use dyod_ws.Brackets.Forward.{Position, is_close}
use dyod_ws.Brackets.Forward.Close.{Answer-cases}
use dyod_ws.Cleanse.{CleansedLines}

-- A position on line number `linenum` or one before it, with the text of that line, at a character that starts an expression; or
-- line number 0 for "never opened".
pub record Starts (elided : List Str) (linenum : ℕ) (r : Position) : Type 0 where
  pub line_is : (e : ℕ) → r.pos ≡ some e → get_elem? elided r.linenum ≡ some r.line
  pub not_behind : (e : ℕ) → r.pos ≡ some e → r.linenum ≤ linenum
  pub in_line : (e : ℕ) → r.pos ≡ some e → e < length r.line
  pub at_mark : (e : ℕ) → r.pos ≡ some e → is_start_mark (get_or r.line e 0) ≡ true
  pub never_opened : r.pos ≡ none → r.linenum ≡ 0

take-snoc :
    (n : ℕ) (xs : List Str)
    → n < length xs
    → (x : Str) × (get_elem? xs n ≡ some x) × (take (suc n) xs ≡ take n xs ++ (x ∷ []))
take-snoc n [] h = absurd (omega arith)
take-snoc zero (x ∷ xs) h = (x, refl, refl)
take-snoc (suc n) (x ∷ xs) h =
    let (y, g, e) = take-snoc n xs (omega arith) in (y, g, ap (λ l. x ∷ l) e)

cons-eq : {a b : Str} {l m : List Str} → a ∷ l ≡ b ∷ m → (a ≡ b) × (l ≡ m)
cons-eq h = (cc, cc)

-- The first of the lines in front of line number `l`, from the nearest on, is that of number `l - 1`.
line_above :
    (l : ℕ) (xs : List Str) (above : Str) (rest : List Str)
    → l ≤ length xs
    → above ∷ rest ≡ reverse (take l xs)
    → (get_elem? xs (l - 1) ≡ some above) × (rest ≡ reverse (take (l - 1) xs))
line_above zero xs above rest b h = absurd (let h' : above ∷ rest ≡ [] = h in cc)
line_above (suc n) xs above rest b h =
    let (x, g, e) = take-snoc n xs (omega arith) in
    let back : suc n - 1 ≡ n = omega arith in
    let h' = rw (e, reverse-append (take n xs) (x ∷ [])) at h in
    let (a, r) = cons-eq h' in rw (back, a) (g, r)

module _ (elided : List Str) (linenum : ℕ) where
  give_up-Starts :
      (line : Str) → Starts elided linenum (record { line = line; linenum = 0; pos = none })
  give_up-Starts line = record {
    line_is = λ e h. absurd cc;
    not_behind = λ e h. absurd cc;
    in_line = λ e h. absurd cc;
    at_mark = λ e h. absurd cc;
    never_opened = λ h. refl;
  }

  found-Starts :
      (line : Str) (l i : ℕ)
      → l ≤ linenum
      → get_elem? elided l ≡ some line
      → i < length line
      → is_start_mark (get_or line i 0) ≡ true
      → Starts elided linenum (record { line = line; linenum = l; pos = some i })
  found-Starts line l i p g q m = record {
    line_is = λ e h. g;
    not_behind = λ e h. p;
    in_line = λ e h. rw (some-injective i e h) at q;
    at_mark = λ e h. rw (some-injective i e h) at m;
    never_opened = λ h. absurd cc;
  }

  open_from-Starts :
      (rest : List Str) (l : ℕ) (line : Str) (stack : List ℕ)
      → l ≤ linenum
      → rest ≡ reverse (take l elided)
      → l ≤ length elided
      → Starts elided linenum (open_from rest l line stack)
  unfolding open_from
  open_from-Starts [] l line stack p t b = give_up-Starts line
  open_from-Starts (above ∷ rest) l line [] p t b = give_up-Starts line
  open_from-Starts (above ∷ rest) l line (top ∷ stack) p t b =
      let (g, t') = line_above l elided above rest b t in
      elim (Answer-cases (find_start_of_expression_in_line above (length above) (top ∷ stack))) [
        | inl (i, q) ↦
            let (a, m) = find_start_bounds above (length above) i (top ∷ stack) q in
            rw (q, open_from) (found-Starts above (l - 1) i (omega arith) g a m)
        | inr (inl q) ↦ rw (q, open_from) (give_up-Starts above)
        | inr (inr (stack', q)) ↦
            rw (q, open_from)
              (open_from-Starts rest (l - 1) above stack' (omega arith) t' (omega arith))
      ]

  open_on-Starts :
      (cl : CleansedLines) (line : Str) (pos c : ℕ)
      → cl.elided ≡ elided
      → get_elem? elided linenum ≡ some line
      → pos < length line
      → Starts elided linenum (open_on cl linenum line pos c)
  unfolding open_on
  open_on-Starts cl line pos c s g p =
      if_both (Starts elided linenum) (not (is_close c || c == b'>')) (λ _. give_up-Starts line)
        λ _. elim (Answer-cases (find_start_of_expression_in_line line (pos + 1) [])) [
          | inl (i, q) ↦
              let (a, m) = find_start_bounds line (pos + 1) i [] q in
              rw q (found-Starts line linenum i (omega arith) g (omega arith) m)
          | inr (inl q) ↦ rw q (give_up-Starts line)
          | inr (inr (stack, q)) ↦ rw q (
              open_from-Starts (reverse (take linenum cl.elided)) linenum line stack (omega arith)
                (rw s refl) (omega (arith, get_elem?-lt elided linenum line g)))
        ]

-- A position that `ReverseCloseExpression` returns is on the given line or above it, with the line of
-- the file at its line number, on a character of it that is an opening bracket or `<`; where nothing
-- opens, the line number is 0.
pub reverse_close_expression-Starts :
    (cl : CleansedLines) (linenum pos : ℕ) (r : Position)
    → reverse_close_expression cl linenum pos ≡ some r
    → Starts cl.elided linenum r
unfolding reverse_close_expression open_at
reverse_close_expression-Starts cl linenum pos r h =
    elim (Option-cases (get_elem? cl.elided linenum)) [
      | inl n ↦ absurd (let h' = rw (n, reverse_close_expression) at h in cc)
      | inr (line, g) ↦ elim (Option-cases (get_elem? line pos)) [
        | inl n ↦ absurd (let h' = rw (g, reverse_close_expression, n, open_at) at h in cc)
        | inr (c, q) ↦
            let is_r = some-injective _ _ (rw (g, reverse_close_expression, q, open_at) at h) in
            rw is_r at
              (open_on-Starts cl.elided linenum cl line pos c refl g (get_elem?-lt line pos c q))
      ]
    ]
