-- ===== src/Style/Explicit/Arguments.antt =====
-- What the loops that join the arguments of a constructor do, and when they raise.
use mathlib.Core.List.{append_assoc}
use mathlib.Core.Option.{some-injective}
use dyod_ws.Base.{
  ℕ, ◌+◌, ◌<◌, false, ◌⊎◌, ◌≢◌, ◌≤◌, ◌≡◌, ◌∙◌, refl, sym, ap, none, some, List, [], ◌∷◌, ◌++◌,
  arith, All, Option-cases, Bool-cases, inl, inr, ◌==◌,
}
use dyod_ws.Base.Text.{Str, txt, count, count_from, starts_with, join}
use dyod_ws.Style.Explicit.{is_cut, join_args}

-- The text has more `<` than `>`.
abbrev pub Excess : Str → Type 0
Excess s = count (txt ">") s < count (txt "<") s

count_char-append :
    (c : ℕ) (v w : Str)
    → count_from (c ∷ []) 0 (v ++ w) ≡ count_from (c ∷ []) 0 v + count_from (c ∷ []) 0 w
unfolding count_from starts_with
count_char-append c [] w = omega arith
count_char-append c (d ∷ v) w = ground (arith, count_char-append c v w)

-- A comma is no angle bracket.
count_joined :
    (c : ℕ) (v w : Str)
    → (b',' == c) ≡ false
    → count_from (c ∷ []) 0 (v ++ (b',' ∷ w)) ≡ count_from (c ∷ []) 0 v + count_from (c ∷ []) 0 w
unfolding count_from starts_with
count_joined c v w n = ground (arith, count_char-append c v (b',' ∷ w))

join-merge :
    (a b : Str) (rest : List Str)
    → join (txt ",") ((a ++ (txt "," ++ b)) ∷ rest) ≡ a ++ (txt "," ++ join (txt ",") (b ∷ rest))
unfolding join
join-merge a b [] = refl
join-merge a b (c ∷ rest) = simp (append_assoc)

-- The cases of the two loops.
module _ (arg next : Str) (rest args : List Str) (h : join_args arg (next ∷ rest) ≡ some args) where
  join_args-cases :
      (join_args (arg ++ (txt "," ++ next)) rest ≡ some args)
      ⊎ ((is_cut arg ≡ false)
          × (later : List Str) × (join_args next rest ≡ some later)
          × (args ≡ arg ∷ later))
  unfolding join_args
  join_args-cases = elim (Bool-cases (is_cut arg)) [
    | inl y ↦ inl (rw (join_args, y) at h)
    | inr n ↦
        let h' = rw (join_args, n) at h in
        elim (Option-cases (join_args next rest)) [
          | inl e ↦ absurd (let h'' = rw e at h' in cc)
          | inr (later, e) ↦ inr (n, later, e, sym (some-injective _ _ (rw e at h')))
        ]
  ]

join_args-whole :
    (arg : Str) (rest args : List Str)
    → join_args arg [] ≡ some args
    → (is_cut arg ≡ false) × (args ≡ arg ∷ [])
unfolding join_args
join_args-whole arg rest args h = elim (Bool-cases (is_cut arg)) [
  | inl y ↦ absurd (let h' = rw (join_args, y) at h in cc)
  | inr n ↦ (n, sym (some-injective _ _ (rw (join_args, n) at h)))
]

join_args-ne : (arg : Str) (rest args : List Str) → join_args arg rest ≡ some args → args ≢ []
join_args-ne arg [] args h = λ z. let (n, e) = join_args-whole arg [] args h in cc
join_args-ne arg (next ∷ rest) args h = elim (join_args-cases arg next rest args h) [
  | inl g ↦ join_args-ne (arg ++ (txt "," ++ next)) rest args g
  | inr (n, later, g, e) ↦ λ z. cc
]

join-cons :
    (arg : Str) (later : List Str)
    → later ≢ []
    → join (txt ",") (arg ∷ later) ≡ arg ++ (txt "," ++ join (txt ",") later)
unfolding join
join-cons arg [] n = absurd (n refl)
join-cons arg (x ∷ xs) n = refl

-- The loops only put arguments together: the text of the list stays, and no argument of the result has
-- more of an opening bracket than of its closing one.
pub join_args-join :
    (arg : Str) (rest args : List Str)
    → join_args arg rest ≡ some args
    → (join (txt ",") args ≡ join (txt ",") (arg ∷ rest)) × All (λ a. is_cut a ≡ false) args
unfolding join
join_args-join arg [] args h = let (n, e) = join_args-whole arg [] args h in rw e (refl, (n, tt))
join_args-join arg (next ∷ rest) args h = elim (join_args-cases arg next rest args h) [
  | inl g ↦
      let (e, a) = join_args-join (arg ++ (txt "," ++ next)) rest args g in
      (e ∙ join-merge arg next rest, a)
  | inr (n, later, g, e) ↦
      let (e', a) = join_args-join next rest later g in
      rw e (
        join-cons arg later (join_args-ne next rest later g) ∙ ap (λ x. arg ++ (txt "," ++ x)) e',
        (n, a),
      )
]

-- The text of a list of which every argument is whole has no excess.
whole-le :
    (args : List Str)
    → All (λ a. is_cut a ≡ false) args
    → count (txt "<") (join (txt ",") args) ≤ count (txt ">") (join (txt ",") args)
unfolding join is_cut count txt count_from
whole-le [] h = omega arith
whole-le (a ∷ []) h = ground (arith, h.0)
whole-le (a ∷ b ∷ args) h =
    let one = count_joined b'<' a (join (txt ",") (b ∷ args)) refl in
    let two = count_joined b'>' a (join (txt ",") (b ∷ args)) refl in
    ground (arith, one, two, h.0, whole-le (b ∷ args) h.1)

-- An argument list with more `<` than `>`, such as one with a shift or a comparison in a default
-- argument, makes the loops raise: no argument is left to join.
pub join_args-Excess :
    (arg : Str) (rest : List Str) → Excess (join (txt ",") (arg ∷ rest)) → join_args arg rest ≡ none
join_args-Excess arg rest x = elim (Option-cases (join_args arg rest)) [
  | inl e ↦ e
  | inr (args, e) ↦
      let (same, whole) = join_args-join arg rest args e in
      absurd (let l = whole-le args whole in let l' = rw same at l in omega arith)
]
