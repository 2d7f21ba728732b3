-- ===== src/HeaderGuard/Variable.antt =====
-- That the variable of a header guard is a macro name.
use mathlib.Core.Option.{some-injective}
use mathlib.Core.Path.{subst}
use dyod_ws.Base.{
  ℕ, zero, suc, ◌<◌, Bool, true, false, ◌&&◌, ◌||◌, ◌≡◌, refl, sym, Option, none, some, [], ◌∷◌,
  ◌++◌, arith, length, map, inl, inr, Bool-cases, Option-cases, All, leb, ◌==◌,
}
use dyod_ws.Base.Text.{Str, txt, to_upper}
use dyod_ws.FileNames.{Os, repository_name}
use dyod_ws.HeaderGuard.{
  alphanumeric, not_alphanumeric, guard_of, plain_name, below_root, get_header_guard_cpp_variable,
}
use dyod_ws.Re.{Re, in_ranges, match_at, run, step, sub_from, re_sub}

-- A capital letter, a digit or an underscore.
abbrev pub is_macro_character : ℕ → Bool
is_macro_character c = (leb b'A' c && leb c b'Z') || ((leb b'0' c && leb c b'9') || c == b'_')

-- The characters that the substitution leaves.
abbrev is_kept : ℕ → Bool
is_kept c = (leb b'a' c && leb c b'z') || is_macro_character c

to_upper-kept : (c : ℕ) → is_kept c ≡ true → is_macro_character (to_upper c) ≡ true
unfolding to_upper
to_upper-kept c h = ground arith

alphanumeric-kept : (c : ℕ) → in_ranges c alphanumeric ≡ true → is_kept c ≡ true
unfolding in_ranges
alphanumeric-kept c h = ground arith

-- The pattern reads one character that is not kept.
module _ (before after : Str) (c : ℕ) where
  match-none : in_ranges c alphanumeric ≡ true → match_at not_alphanumeric before (c ∷ after) ≡ none
  unfolding match_at not_alphanumeric run step
  match-none y = rw (match_at, run, step, y) refl

  match-some :
      in_ranges c alphanumeric ≡ false
      → match_at not_alphanumeric before (c ∷ after)
        ≡ some (record { before = c ∷ before; after = after; groups = [] })
  unfolding match_at not_alphanumeric run step
  match-some n = rw (match_at, run, step, n) refl

abbrev Kept : Str → Type 0
Kept s = All (λ c. is_kept c ≡ true) s

sub_from-Kept :
    (fuel : ℕ) (before after : Str)
    → length after < fuel
    → Kept (sub_from fuel not_alphanumeric (λ m. txt "_") before after)
unfolding sub_from not_alphanumeric txt match_at run step
sub_from-Kept zero before after l = absurd (omega arith)
sub_from-Kept (suc fuel) before [] l = tt
sub_from-Kept (suc fuel) before (c ∷ after) l =
    let rest = sub_from-Kept fuel (c ∷ before) after (omega arith) in
    let moved : (suc (length before) == length before) ≡ false = ground arith in
    elim (Bool-cases (in_ranges c alphanumeric)) [
      | inl y ↦
          let e : sub_from (suc fuel) not_alphanumeric (λ m. txt "_") before (c ∷ after)
              ≡ c ∷ sub_from fuel not_alphanumeric (λ m. txt "_") (c ∷ before) after =
            rw (sub_from, match-none before after c y) refl in
          subst Kept (sym e) (alphanumeric-kept c y, rest)
      | inr n ↦
          let e : sub_from (suc fuel) not_alphanumeric (λ m. txt "_") before (c ∷ after)
              ≡ b'_' ∷ sub_from fuel not_alphanumeric (λ m. txt "_") (c ∷ before) after =
            rw (sub_from, match-some before after c n, moved) refl in
          subst Kept (sym e) (refl, rest)
    ]

All-to_upper :
    (s : Str)
    → All (λ c. is_kept c ≡ true) s
    → All (λ c. is_macro_character c ≡ true) (map to_upper s ++ txt "_")
unfolding txt
All-to_upper [] h = (refl, tt)
All-to_upper (c ∷ s) h = (to_upper-kept c h.0, All-to_upper s h.1)

guard_of-macro : (path : Str) → All (λ c. is_macro_character c ≡ true) (guard_of path)
unfolding guard_of re_sub
guard_of-macro path =
    All-to_upper (re_sub not_alphanumeric (λ m. txt "_") path)
      (sub_from-Kept (suc (length path)) [] path (omega arith))

-- The variable that `GetHeaderGuardCPPVariable` gives has only capital letters, digits and underscores,
-- whatever the path, and so no character that has a meaning in the patterns it is put into.
pub get_header_guard_cpp_variable-macro :
    (os : Os) (compile : Str → Option Re) (root : Option Str) (filename cppvar : Str)
    → get_header_guard_cpp_variable os compile root filename ≡ some cppvar
    → All (λ c. is_macro_character c ≡ true) cppvar
unfolding get_header_guard_cpp_variable
get_header_guard_cpp_variable-macro os compile root filename cppvar h =
    elim (Option-cases (repository_name os (plain_name filename))) [
      | inl e ↦ absurd (let h' = rw (get_header_guard_cpp_variable, e) at h in cc)
      | inr (path, e) ↦ elim (Option-cases (below_root os compile root path)) [
        | inl f ↦ absurd (let h' = rw (get_header_guard_cpp_variable, e, f) at h in cc)
        | inr (rest, f) ↦
            rw (some-injective _ _ (rw (get_header_guard_cpp_variable, e, f) at h)) at
              (guard_of-macro rest)
      ]
    ]
