-- ===== src/Base/TextLaws.antt =====
-- Laws of the text operations.
use dyod_ws.Base.Text.{Str, find, str_eq, starts_with, ends_with, txt}
use dyod_ws.Base.Lists.{length, take, drop}
use dyod_ws.Base.Tests.{◌==◌, Bool-cases, Option-cases}
use Prim.Native.Nat.{ℕ, suc, ◌+◌, ◌-◌, ◌≤◌}
use mathlib.Core.Path.{◌≡◌, refl, ap}
use mathlib.Core.Logic.{◌↔◌, inl, inr}
use mathlib.Core.Option.{some, some-injective}
use mathlib.Core.Bool.{Bool, true, false, ◌&&◌}
use mathlib.Core.List.{[], ◌∷◌, ◌++◌}
use native.Mathlib.Omega.{arith}

-- `str_eq` decides equality.
pub str_eq_iff : (a b : Str) → (str_eq a b ≡ true) ↔ (a ≡ b)
unfolding str_eq
str_eq_iff (x ∷ a) (y ∷ b) = ground (arith, str_eq_iff a b)
str_eq_iff _ _ = ground arith

pub str_eq_refl : (a : Str) → str_eq a a ≡ true
str_eq_refl a = (str_eq_iff a a).1 refl

-- A text that ends in `d`, taken apart.
ends : ℕ → Str → Bool
ends d [] = false
ends d (x ∷ []) = x == d
ends d (x ∷ y ∷ s) = ends d (y ∷ s)

suc-sub-one : (n : ℕ) → suc n - 1 ≡ n
suc-sub-one n = omega arith

ends_with-ends : (d : ℕ) (s : Str) → ends_with (d ∷ []) s ≡ ends d s
unfolding ends ends_with str_eq
ends_with-ends d [] = refl
ends_with-ends d (x ∷ []) = ground arith
ends_with-ends d (x ∷ y ∷ s) =
    let ih = rw suc-sub-one at (ends_with-ends d (y ∷ s)) in
    rw (suc-sub-one (suc (length s))) (ground (arith, ih))

init : Str → Str
init [] = []
init (x ∷ []) = []
init (x ∷ y ∷ s) = x ∷ init (y ∷ s)

init-take : (s : Str) → take (length s - 1) s ≡ init s
unfolding init
init-take [] = refl
init-take (x ∷ []) = refl
init-take (x ∷ y ∷ s) =
    rw (suc-sub-one (suc (length s))) (ap (λ t. x ∷ t) (rw suc-sub-one at (init-take (y ∷ s))))

str_eq-concat : (d : ℕ) (s k : Str) → str_eq s (k ++ (d ∷ [])) ≡ (ends d s && str_eq (init s) k)
unfolding str_eq ends init
str_eq-concat d [] [] = refl
str_eq-concat d [] (z ∷ k) = refl
str_eq-concat d (x ∷ []) [] = ground arith
str_eq-concat d (x ∷ []) (z ∷ []) = ground arith
str_eq-concat d (x ∷ []) (z ∷ w ∷ k) = ground arith
str_eq-concat d (x ∷ y ∷ s) [] = ground arith
str_eq-concat d (x ∷ y ∷ s) (z ∷ k) = ground (arith, str_eq-concat d (y ∷ s) k)

-- A text in parentheses is told by its ends and by what stands between them.
pub in_parens :
    (c k : Str)
    → str_eq c (txt "(" ++ (k ++ txt ")")) ≡ (
        (starts_with (txt "(") c && ends_with (txt ")") c)
        && str_eq (drop 1 (take (length c - 1) c)) k)
unfolding starts_with txt str_eq
in_parens [] k = refl
in_parens (x ∷ []) [] = rw (ends_with-ends b')' (x ∷ [])) (unfold ends in ground arith)
in_parens (x ∷ []) (z ∷ k) = rw (ends_with-ends b')' (x ∷ [])) (unfold ends in ground arith)
in_parens (x ∷ y ∷ s) k =
    let shift = rw suc-sub-one at (init-take (y ∷ s)) in
    rw (ends_with-ends b')' (x ∷ y ∷ s), suc-sub-one (suc (length s)), shift)
      (unfold ends in ground (arith, str_eq-concat b')' (y ∷ s) k))

starts_with-le : (p s : Str) → starts_with p s ≡ true → length p ≤ length s
unfolding starts_with
starts_with-le [] s h = omega arith
starts_with-le (c ∷ p) [] h = absurd (let h' : false ≡ true = h in cc)
starts_with-le (c ∷ p) (d ∷ s) h = elim (Bool-cases (d == c)) [
  | inl y ↦ omega (arith, starts_with-le p s (ground arith))
  | inr n ↦ absurd (ground arith)
]

-- A text that is found lies in the text that is searched.
pub find-le : (p s : Str) (i : ℕ) → find p s ≡ some i → i + length p ≤ length s
unfolding find
find-le p [] i h = ground (arith, starts_with-le p [])
find-le p (c ∷ s) i h = elim (Bool-cases (starts_with p (c ∷ s))) [
  | inl y ↦
      let e : 0 ≡ i = some-injective _ _ (rw (find, y) at h) in
      omega (arith, starts_with-le p (c ∷ s) y)
  | inr n ↦ elim (Option-cases (find p s)) [
    | inl e ↦ absurd (let h' = rw (find, n, e) at h in cc)
    | inr (j, e) ↦
        let i_is : suc j ≡ i = some-injective _ _ (rw (find, n, e) at h) in
        omega (arith, find-le p s j e)
  ]
]
