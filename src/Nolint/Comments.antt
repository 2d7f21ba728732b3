-- ===== src/Nolint/Comments.antt =====
-- A NOLINT comment for one category, as the usage text tells to write it.
use dyod_ws.Base.{
  ℕ, ◌-◌, Bool, true, false, ◌&&◌, ◌≡◌, refl, sym, ◌∙◌, some, List, [], ◌∷◌, ◌++◌, arith, length,
  take, drop, inl, inr, Bool-cases,
}
use dyod_ws.Base.Text.{Str, txt, str_eq, is_one_of, has, starts_with, ends_with}
use dyod_ws.Base.TextLaws.{in_parens, str_eq_iff, str_eq_refl}
use dyod_ws.Categories.{error_categories}
use dyod_ws.Re.{group_of}
use dyod_ws.Nolint.{Suppressions, truthy, suppressed_line_of, add_nolint, parse_nolint_suppressions}
use dyod_ws.Nolint.Matched.{plain_name, comment, found_comment, re_search-comment, group_of-comment}

plain_name-star : (s : Str) → plain_name s ≡ true → str_eq s (txt "*") ≡ false
unfolding plain_name
plain_name-star [] p = absurd cc
plain_name-star (c ∷ s) p = ground arith

all_plain : List Str → Bool
unfolding plain_name
all_plain [] = true
all_plain (w ∷ ws) = plain_name w && all_plain ws

categories_plain : all_plain error_categories ≡ true
unfolding all_plain error_categories
categories_plain = refl

is_one_of-plain :
    (c : Str) (l : List Str) → is_one_of c l ≡ true → all_plain l ≡ true → plain_name c ≡ true
unfolding is_one_of all_plain
is_one_of-plain c [] h p = absurd cc
is_one_of-plain c (w ∷ l) h p = elim (Bool-cases (str_eq c w)) [
  | inl y ↦ rw ((str_eq_iff c w).0 y) (ground arith)
  | inr n ↦ is_one_of-plain c l (ground arith) (ground arith)
]

suppressed_line_of-comment :
    (before name after : Str) (linenum : ℕ)
    → suppressed_line_of (found_comment before name after) linenum ≡ linenum
unfolding suppressed_line_of group_of truthy
suppressed_line_of-comment before name after linenum = refl

abbrev inside : Str → Str
inside c = drop 1 (take (length c - 1) c)

in_parens-inside :
    (c name : Str)
    → str_eq c (txt "(" ++ (name ++ txt ")")) ≡ true
    → ((starts_with (txt "(") c && ends_with (txt ")") c) ≡ true) × (inside c ≡ name)
in_parens-inside c name h =
    let both = sym (in_parens c name) ∙ h in
    let (shape, same) = and-true _ _ both in (shape, (str_eq_iff (inside c) name).0 same)
  where
    and-true : (a b : Bool) → (a && b) ≡ true → (a ≡ true) × (b ≡ true)
    and-true true b e = (refl, e)
    and-true false b e = absurd cc

not_star :
    (c name : Str)
    → str_eq c (txt "(" ++ (name ++ txt ")")) ≡ true
    → str_eq name (txt "*") ≡ false
    → str_eq c (txt "(*)") ≡ false
unfolding txt
not_star c name h n =
    let (shape, is_name) = in_parens-inside c name h in
    in_parens c (txt "*") ∙ rw (shape, is_name) n

-- The comment's category is what stands between the parentheses.
add_nolint-known :
    (filename c name : Str) (linenum line : ℕ) (s : Suppressions)
    → is_one_of name error_categories ≡ true
    → plain_name name ≡ true
    → str_eq c (txt "(" ++ (name ++ txt ")")) ≡ true
    → add_nolint filename linenum line (some c) s
      ≡ (record s { lines = (some name, line) ∷ s.lines }, [])
unfolding add_nolint
add_nolint-known filename c name linenum line s known p h =
    let (shape, is_name) = in_parens-inside c name h in
    rw (not_star c name h (plain_name-star name p), shape, is_name, known) refl

pub parse-comment :
    (filename before category after : Str) (linenum : ℕ) (s : Suppressions)
    → has b'N' before ≡ false
    → is_one_of category error_categories ≡ true
    → parse_nolint_suppressions filename (before ++ comment category after) linenum s
      ≡ (record s { lines = (some category, linenum) ∷ s.lines }, [])
unfolding parse_nolint_suppressions txt
parse-comment filename before category after linenum s h known =
    let p = is_one_of-plain category error_categories known categories_plain in
    rw
      (
        re_search-comment before category after h p,
        parse_nolint_suppressions,
        group_of-comment before category after,
        suppressed_line_of-comment before category after linenum,
      )
      (add_nolint-known filename (b'(' ∷ (category ++ txt ")")) category linenum linenum s known p
        (str_eq_refl (b'(' ∷ (category ++ txt ")"))))
