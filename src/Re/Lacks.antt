-- ===== src/Re/Lacks.antt =====
-- A character that the text lacks is in none of its pieces, and no deletion brings it in.
use mathlib.Core.Option.{some-injective}
use dyod_ws.Base.{
  ℕ, zero, suc, ◌-◌, false, ◌≡◌, refl, ap, none, some, List, [], ◌∷◌, ◌++◌, arith, length, take,
  drop, inl, inr, Bool-cases, Option-cases, ◌==◌,
}
use dyod_ws.Base.Text.{Str, has}
use dyod_ws.Re.{
  Re, Found, match_at, re_match, group_in, group_of, group_text, sub_from, re_sub, found,
}
use dyod_ws.Re.Sound.{has-append, run-Sound}

abbrev pub Lacks : ℕ → Str → Type 0
Lacks c s = has c s ≡ false

pub Lacks-append : (c : ℕ) (v w : Str) → Lacks c v → Lacks c w → Lacks c (v ++ w)
Lacks-append c v w h k = ground (arith, has-append c v w)

pub Lacks-drop : (c n : ℕ) (s : Str) → Lacks c s → Lacks c (drop n s)
unfolding has
Lacks-drop c zero s h = h
Lacks-drop c (suc n) [] h = h
Lacks-drop c (suc n) (d ∷ s) h = Lacks-drop c n s (ground arith)

pub Lacks-take : (c n : ℕ) (s : Str) → Lacks c s → Lacks c (take n s)
unfolding has
Lacks-take c zero s h = refl
Lacks-take c (suc n) [] h = refl
Lacks-take c (suc n) (d ∷ s) h = ground (arith, Lacks-take c n s (ground arith))

-- What a pattern leaves of a text.
Lacks-suffix : (c : ℕ) (piece rest s : Str) → s ≡ piece ++ rest → Lacks c s → Lacks c rest
Lacks-suffix c piece rest s e h =
    let h' = ap (has c) e in ground (arith, has-append c piece rest, h', h)

group_in-Lacks :
    (c n : ℕ) (s : Str) (gs : List (ℕ × ℕ × ℕ))
    → Lacks c s
    → Lacks c (elim (group_in n s gs) [ some v ↦ v | none ↦ [] ])
unfolding group_in has
group_in-Lacks c n s [] h = refl
group_in-Lacks c n s ((m, i, j) ∷ gs) h = elim (Bool-cases (m == n)) [
  | inl y ↦ rw y (Lacks-take c (j - i) (drop i s) (Lacks-drop c i s h))
  | inr k ↦ rw k (group_in-Lacks c n s gs h)
]

group_text-Lacks : (c n : ℕ) (m : Found) → Lacks c m.text → Lacks c (group_text n m)
unfolding group_text group_of
group_text-Lacks c n m h = group_in-Lacks c n m.text m.groups h

-- The groups of a match in a text.
pub matched-Lacks :
    (c n : ℕ) (r : Re) (s : Str) (m : Found)
    → re_match r s ≡ some m
    → Lacks c s
    → Lacks c (group_text n m)
unfolding re_match match_at found
matched-Lacks c n r s m h l = elim (Option-cases (match_at r [] s)) [
  | inl e ↦ absurd (let h' = rw (re_match, e) at h in cc)
  | inr (t, e) ↦
      let is_m : found s 0 t ≡ m = some-injective _ _ (rw (re_match, e) at h) in
      let text : s ≡ m.text = ap (λ (x : Found). x.text) is_m in
      group_text-Lacks c n m (rw text at l)
]

sub_from-Lacks :
    (c fuel : ℕ) (r : Re) (before after : Str)
    → Lacks c after
    → Lacks c (sub_from fuel r (λ m. []) before after)
unfolding sub_from match_at has
sub_from-Lacks c zero r before after h = h
sub_from-Lacks c (suc fuel) r before [] h = elim (Option-cases (match_at r before [])) [
  | inl e ↦ rw (sub_from, e) refl
  | inr (t, e) ↦ rw (sub_from, e) refl
]
sub_from-Lacks c (suc fuel) r before (d ∷ rest) h =
    let step = sub_from-Lacks c fuel r (d ∷ before) rest (ground arith) in
    elim (Option-cases (match_at r before (d ∷ rest))) [
      | inl e ↦ rw (sub_from, e) (ground (arith, step))
      | inr (t, e) ↦
          let (u, q, k) = run-Sound r _ _ t e in
          let u_is : u ≡ t = some-injective _ _ k in
          let left = Lacks-suffix c q.piece u.after (d ∷ rest) q.splits h in
          elim (Bool-cases (length t.before == length before)) [
            | inl y ↦ rw (sub_from, e, y) (ground (arith, step))
            | inr n ↦
                rw (sub_from, e, n) (sub_from-Lacks c fuel r t.before t.after (rw u_is at left))
          ]
    ]

-- Deleting what a pattern finds brings in no character.
pub re_sub-Lacks : (c : ℕ) (r : Re) (s : Str) → Lacks c s → Lacks c (re_sub r (λ m. []) s)
unfolding re_sub
re_sub-Lacks c r s h = sub_from-Lacks c (suc (length s)) r [] s h
