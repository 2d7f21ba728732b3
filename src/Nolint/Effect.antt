-- ===== src/Nolint/Effect.antt =====
-- What a NOLINT comment changes.
use dyod_ws.Base.{
  ℕ, ◌+◌, ◌-◌, Bool, true, false, not, ◌&&◌, ◌||◌, ◌≡◌, ◌≢◌, refl, Option, none, some, List, [],
  ◌++◌, ◌==◌, ◌∷◌, ◌⊎◌, if◌then◌else◌, arith, length, take, drop, Option-cases, inl, inr,
}
use dyod_ws.Base.Text.{Str, txt, str_eq, is_one_of}
use dyod_ws.Base.TextLaws.{in_parens, str_eq_iff}
use dyod_ws.Categories.{error_categories}
use dyod_ws.Re.{Found, re_search, group_of}
use dyod_ws.Nolint.{
  Suppressions, truthy, suppressed_line_of, add_nolint, nolint_pattern, parse_nolint_suppressions,
  suppressed_at, is_error_suppressed_by_nolint,
}

-- Whether a comment with this part in parentheses is about the key: none, or "(*)", is about all
-- categories, "(c)" about the known category c.
pub names : Option Str → Option Str → Bool
names none none = true
names none (some c) = false
names (some p) none = str_eq p (txt "(*)")
names (some p) (some c) =
    not (str_eq p (txt "(*)"))
    && str_eq p (txt "(" ++ (c ++ txt ")"))
    && is_one_of c error_categories

-- The line that a comment is about: the next one if the word ends in NEXTLINE, which is group 1.
pub asked_line : Option Str → ℕ → ℕ
asked_line none linenum = linenum
asked_line (some []) linenum = linenum
asked_line (some (c ∷ w)) linenum = linenum + 1

-- The lines and keys that the comment found on a line, if any, asks for.
pub asks : Option Found → ℕ → Option Str → ℕ → Bool
unfolding names
asks none linenum key n = false
asks (some m) linenum key n = names (group_of 2 m) key && asked_line (group_of 1 m) linenum == n

asked_line-is :
    (m : Found) (linenum : ℕ) → suppressed_line_of m linenum ≡ asked_line (group_of 1 m) linenum
unfolding suppressed_line_of asked_line truthy
asked_line-is m linenum = by_group (group_of 1 m)
  where
    by_group : (g : Option Str) → (if truthy g then linenum + 1 else linenum) ≡ asked_line g linenum
    by_group none = refl
    by_group (some []) = refl
    by_group (some (c ∷ w)) = refl

is_one_of-cong : (a b : Str) (l : List Str) → str_eq a b ≡ true → is_one_of a l ≡ is_one_of b l
is_one_of-cong a b l h = rw ((str_eq_iff a b).0 h)

add_nolint-names :
    (filename : Str) (linenum line : ℕ) (p key : Option Str) (n : ℕ) (s : Suppressions)
    → suppressed_at key n (add_nolint filename linenum line p s).0.lines
      ≡ ((names p key && line == n) || suppressed_at key n s.lines)
unfolding add_nolint names suppressed_at
add_nolint-names filename linenum line none none n s = ground arith
add_nolint-names filename linenum line none (some c) n s = ground arith
add_nolint-names filename linenum line (some p) none n s = ground arith
add_nolint-names filename linenum line (some p) (some c) n s =
    ground
      (arith, in_parens p c, is_one_of-cong (drop 1 (take (length p - 1) p)) c error_categories)

pub suppressed_at-parse :
    (filename raw_line : Str) (linenum : ℕ) (key : Option Str) (n : ℕ) (s : Suppressions)
    → suppressed_at key n (parse_nolint_suppressions filename raw_line linenum s).0.lines
      ≡ (asks (re_search nolint_pattern raw_line) linenum key n || suppressed_at key n s.lines)
unfolding parse_nolint_suppressions asks
suppressed_at-parse filename raw_line linenum key n s =
    elim (Option-cases (re_search nolint_pattern raw_line)) [
      | inl e ↦ rw (e, parse_nolint_suppressions)
      | inr (m, e) ↦
          rw (e, parse_nolint_suppressions, asked_line-is m linenum)
            (add_nolint-names filename linenum (asked_line (group_of 1 m) linenum) (group_of 2 m)
              key n s)
    ]

add_nolint-globals :
    (filename : Str) (linenum line : ℕ) (p : Option Str) (s : Suppressions)
    → (add_nolint filename linenum line p s).0.globals ≡ s.globals
unfolding add_nolint
add_nolint-globals filename linenum line none s = refl
add_nolint-globals filename linenum line (some p) s = ground arith

parse-globals :
    (filename raw_line : Str) (linenum : ℕ) (s : Suppressions)
    → (parse_nolint_suppressions filename raw_line linenum s).0.globals ≡ s.globals
unfolding parse_nolint_suppressions
parse-globals filename raw_line linenum s =
    elim (Option-cases (re_search nolint_pattern raw_line)) [
      | inl e ↦ rw (e, parse_nolint_suppressions)
      | inr (m, e) ↦
          rw (e, parse_nolint_suppressions)
            (add_nolint-globals filename linenum (suppressed_line_of m linenum) (group_of 2 m) s)
    ]

asked_line-near :
    (g : Option Str) (linenum : ℕ)
    → (asked_line g linenum ≡ linenum) ⊎ (asked_line g linenum ≡ linenum + 1)
unfolding asked_line
asked_line-near none linenum = inl refl
asked_line-near (some []) linenum = inl refl
asked_line-near (some (c ∷ w)) linenum = inr refl

asks-elsewhere :
    (o : Option Found) (linenum : ℕ) (key : Option Str) (n : ℕ)
    → n ≢ linenum
    → n ≢ linenum + 1
    → asks o linenum key n ≡ false
unfolding asks
asks-elsewhere none linenum key n h h' = refl
asks-elsewhere (some m) linenum key n h h' = ground (arith, asked_line-near (group_of 1 m) linenum)

-- Parsing line `linenum` decides nothing about any line but this one and the next.
pub suppression_is_local :
    (filename raw_line category : Str) (linenum n : ℕ) (s : Suppressions)
    → n ≢ linenum
    → n ≢ linenum + 1
    → is_error_suppressed_by_nolint category n
        (parse_nolint_suppressions filename raw_line linenum s).0
      ≡ is_error_suppressed_by_nolint category n s
unfolding is_error_suppressed_by_nolint
suppression_is_local filename raw_line category linenum n s h h' =
    let o = re_search nolint_pattern raw_line in
    rw (
      parse-globals filename raw_line linenum s,
      suppressed_at-parse filename raw_line linenum (some category) n s,
      suppressed_at-parse filename raw_line linenum none n s,
      asks-elsewhere o linenum (some category) n h h',
      asks-elsewhere o linenum none n h h',
    )
