-- ===== src/Cleanse/RawStrings/Indentation.antt =====
-- The indentation of a line on which a raw string ends.
use dyod_ws.Base.{
  ℕ, zero, suc, ◌<◌, true, false, not, ◌≡◌, refl, Option, some, none, [], ◌∷◌, arith, length,
  Bool-cases, Option-cases, inl, inr, ◌==◌,
}
use dyod_ws.Base.Text.{Str, find, has, starts_with}
use dyod_ws.Cleanse.RawStrings.{leading_space, indent_of}
use dyod_ws.Re.Lacks.{Lacks, matched-Lacks}
use dyod_ws.Re.{
  Cursor, step, in_ranges, space_ranges, repeat, run, re_match, match_at, group_text, set,
}

starts_with-has : (c : ℕ) (p s : Str) → starts_with p s ≡ true → has c p ≡ true → has c s ≡ true
unfolding starts_with has
starts_with-has c [] s h m = absurd cc
starts_with-has c (d ∷ p) [] h m = absurd cc
starts_with-has c (d ∷ p) (e ∷ s) h m = ground (arith, starts_with-has c p s)

-- A text that is found brings its characters.
pub find-has : (c : ℕ) (p s : Str) (i : ℕ) → find p s ≡ some i → has c p ≡ true → has c s ≡ true
unfolding find has
find-has c p [] i h m = ground (arith, starts_with-has c p [])
find-has c p (d ∷ s) i h m = elim (Bool-cases (starts_with p (d ∷ s))) [
  | inl y ↦ starts_with-has c p (d ∷ s) y m
  | inr n ↦ elim (Option-cases (find p s)) [
    | inl e ↦ absurd (let h' = rw (find, n, e) at h in cc)
    | inr (j, e) ↦ let later = find-has c p s j e m in ground (arith, later)
  ]
]

-- The character behind the spaces, and the group that they are.
abbrev other_match : Cursor → Option Cursor
other_match t =
    step (λ d. not (in_ranges d space_ranges)) t.after
      (record t { groups = (1, 0, length t.before) ∷ t.groups }) (λ u. some u)

ne-suc : (n : ℕ) → (n == suc n) ≡ false
ne-suc n = ground arith

behind :
    (c : ℕ) (s before : Str)
    → in_ranges c space_ranges ≡ false
    → other_match (record { before = before; after = c ∷ s; groups = [] })
      ≡ some (record { before = c ∷ before; after = s; groups = (1, 0, length before) ∷ [] })
unfolding step
behind c s before n = rw (step, n) refl

repeat_spaces_total :
    (fuel : ℕ) (before after : Str)
    → length after < fuel
    → has b')' after ≡ true
    → (u : Cursor) × (repeat
          (λ t l. run (set space_ranges) t l)
          fuel
          (record { before = before; after = after; groups = [] })
          other_match
        ≡ some u)
unfolding repeat run step in_ranges has
repeat_spaces_total zero before after h m = absurd (omega arith)
repeat_spaces_total (suc fuel) before [] h m = absurd cc
repeat_spaces_total (suc fuel) before (c ∷ s) h m = elim (Bool-cases (in_ranges c space_ranges)) [
  | inl y ↦
      let (u, e) = repeat_spaces_total fuel (c ∷ before) s (omega arith) (ground arith) in
      (u, rw (repeat, run, step, y, ne-suc (length s), e) refl)
  | inr n ↦ (
    record { before = c ∷ before; after = s; groups = (1, 0, length before) ∷ [] },
    rw (repeat, run, step, n) (behind c s before n),
  )
]

match_at-leading_space :
    (line : Str) → has b')' line ≡ true → (u : Cursor) × (match_at leading_space [] line ≡ some u)
unfolding match_at leading_space run
match_at-leading_space line h = repeat_spaces_total (suc (length line)) [] line (omega arith) h

no_match : (line : Str) → has b')' line ≡ true → re_match leading_space line ≡ none → ⊥
unfolding re_match
no_match line h e =
    let (u, g) = match_at-leading_space line h in let e' = rw (re_match, g) at e in cc

-- A line with a closing parenthesis has an indentation.
pub indent_of_total :
    (line : Str)
    → has b')' line ≡ true
    → (indent : Str) × (indent_of line ≡ some indent) × (Lacks b'\n' line → Lacks b'\n' indent)
unfolding indent_of
indent_of_total line h = elim (Option-cases (re_match leading_space line)) [
  | inl e ↦ absurd (no_match line h e)
  | inr (m, e) ↦
      (group_text 1 m, rw (indent_of, e) refl, λ l. matched-Lacks b'\n' 1 leading_space line m e l)
]
