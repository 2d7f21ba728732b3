-- ===== src/Style/Macros/Ends.antt =====
-- That the loop of `CheckCheck` over an expression ends.
use dyod_ws.Base.{
  ℕ, suc, ◌+◌, ◌<◌, ◌≤◌, Bool, true, false, ◌≡◌, refl, ap, Option, none, some, List, [], ◌∷◌, ◌++◌,
  arith, length, length-drop, take, drop, inl, inr, Bool-cases, Option-cases,
}
use dyod_ws.Base.Loop.{Round, again, stop, iterate_ends, again-injective}
use dyod_ws.Base.Text.{Str, txt, str_eq, is_one_of}
use dyod_ws.Brackets.Forward.{found, failed, pending, find_end_of_expression_in_line}
use dyod_ws.Re.{Re, Found, re_match, group_text}
use dyod_ws.Re.Rest.{last, behind, width, group_text-shorter}
use dyod_ws.Style.Macros.{
  Parse, Sides, operator_first, operand_first, character_first, on_parenthesis, on_operator,
  on_operand, parse_round, parse_sides,
}

-- What the three patterns leave.
operator_first-lt :
    (line : Str) (m : Found)
    → re_match operator_first line ≡ some m
    → length (group_text 2 m) < length line
unfolding operator_first dyod_ws.Re.words dyod_ws.Re.lit dyod_ws.Base.Text.txt width
operator_first-lt line m h =
    omega (arith, group_text-shorter 2 line m refl (behind _ (behind _ (behind _ (last _)))) h)

operand_first-lt :
    (line : Str) (m : Found)
    → re_match operand_first line ≡ some m
    → length (group_text 2 m) < length line
unfolding operand_first dyod_ws.Re.plus dyod_ws.Re.none_of width
operand_first-lt line m h =
    omega (arith, group_text-shorter 2 line m refl (behind _ (behind _ (last _))) h)

character_first-lt :
    (line : Str) (m : Found)
    → re_match character_first line ≡ some m
    → length (group_text 2 m) < length line
unfolding character_first width
character_first-lt line m h =
    omega (arith, group_text-shorter 2 line m refl (behind _ (behind _ (last _))) h)

-- A round that goes on leaves less than `n` characters.
data Shrinks (n : ℕ) : Round Parse Sides → Type 0 where
  goes : (s : Parse) → length s.expression < n → Shrinks n (again s)
  ends : (a : Sides) → Shrinks n (stop a)

Shrinks-again :
    {n : ℕ} {x : Round Parse Sides} (s : Parse)
    → Shrinks n x
    → x ≡ again s
    → length s.expression < n
Shrinks-again s (goes s' l) e = let is_s = again-injective _ _ e in rw is_s at l
Shrinks-again s (ends a) e = absurd (cc)

on_parenthesis-Shrinks :
    (s : Parse) (n : ℕ) (rest : Str) → length rest < n → Shrinks n (on_parenthesis s rest)
unfolding on_parenthesis
on_parenthesis-Shrinks s n rest l =
    elim (find_end_of_expression_in_line rest 0 (b'(' ∷ []))
      as (λ a. Shrinks n (elim a [
        | found end ↦
            again (record { lhs = s.lhs ++ (txt "(" ++ take end rest); expression = drop end rest })
        | failed ↦ stop none
        | pending stack ↦ stop none
      ])) [
        | found end ↦ goes _ (omega (arith, length-drop end rest))
        | failed ↦ ends none
        | pending stack ↦ ends none
      ]

on_operator-Shrinks :
    (s : Parse) (n : ℕ) (token rest : Str) → length rest < n → Shrinks n (on_operator s token rest)
unfolding on_operator
on_operator-Shrinks s n token rest l = elim (Bool-cases (str_eq token (txt "("))) [
  | inl y ↦ rw (on_operator, y) (on_parenthesis-Shrinks s n rest l)
  | inr a ↦ elim (Bool-cases (is_one_of token (txt "&&" ∷ txt "||" ∷ []))) [
    | inl y ↦ rw (on_operator, a, y) (ends none)
    | inr b ↦
        elim (Bool-cases (
          is_one_of token
            (txt "<<" ∷ txt "<<=" ∷ txt ">>" ∷ txt ">>=" ∷ txt "->*" ∷ txt "->" ∷ []))) [
              | inl y ↦
                  rw (on_operator, a, b, y)
                    (goes (record { lhs = s.lhs ++ token; expression = rest }) l)
              | inr c ↦ rw (on_operator, a, b, c) (ends (some (s.lhs, token, rest)))
            ]
  ]
]

on_operand-Shrinks : (s : Parse) → Shrinks (length s.expression) (on_operand s)
unfolding on_operand
on_operand-Shrinks s = elim (Option-cases (re_match operand_first s.expression)) [
  | inr (m, e) ↦ rw (on_operand, e) (goes _ (operand_first-lt s.expression m e))
  | inl e ↦ elim (Option-cases (re_match character_first s.expression)) [
    | inr (m, f) ↦ rw (on_operand, e, f) (goes _ (character_first-lt s.expression m f))
    | inl f ↦ rw (on_operand, e, f) (ends none)
  ]
]

parse_round-Shrinks :
    (l v : Str) → Shrinks (length v) (parse_round (record { lhs = l; expression = v }))
unfolding parse_round
parse_round-Shrinks l [] = ends none
parse_round-Shrinks l (c ∷ v) =
    let s : Parse = record { lhs = l; expression = c ∷ v } in
    elim (Option-cases (re_match operator_first (c ∷ v))) [
      | inr (m, e) ↦
          rw (parse_round, e)
            (on_operator-Shrinks s _ (group_text 1 m) (group_text 2 m)
              (operator_first-lt (c ∷ v) m e))
      | inl e ↦ rw (parse_round, e) (on_operand-Shrinks s)
    ]

-- The loop of `CheckCheck` over the argument of a macro ends, whatever the argument.
pub parse_sides_total : (expression : Str) → (sides : Sides) × (parse_sides expression ≡ some sides)
unfolding parse_sides
parse_sides_total expression =
    iterate_ends (λ (s : Parse). length s.expression) parse_round
      (λ s s' e. Shrinks-again s' (parse_round-Shrinks s.lhs s.expression) e)
      (record { lhs = []; expression = expression })
