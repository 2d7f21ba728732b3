-- ===== src/Nolint/Matched.antt =====
-- Where `ParseNolintSuppressions` finds a comment for one category.
use mathlib.Core.List.{append_assoc}
use dyod_ws.Base.{
  ℕ, zero, suc, ◌+◌, ◌-◌, ◌<◌, Bool, true, false, not, ◌&&◌, ◌≡◌, refl, ap, ◌∙◌, Option, none, some,
  List, [], ◌∷◌, ◌++◌, ◌==◌, arith, length, length-append, take, drop,
}
use dyod_ws.Base.Text.{Str, txt, str_eq, has}
use dyod_ws.Re.Places.{drop-append}
use dyod_ws.Re.{
  Found, group_of, Cursor, plus, match_at, search_from, re_search, repeat, run, step, in_ranges,
  single, except,
}
use dyod_ws.Nolint.{nolint_pattern}

-- A name that can stand in a comment: not empty, with no closing parenthesis, and not the star.
unfoldable pub plain_name : Str → Bool
unfolding has str_eq txt
plain_name [] = false
plain_name (c ∷ s) = not (has b')' (c ∷ s)) && not (str_eq (c ∷ s) (txt "*"))

-- What is read, in front of what was read before it.
pub onto : Str → Str → Str
onto [] before = before
onto (c ∷ s) before = onto s (c ∷ before)

length-onto : (s before : Str) → length (onto s before) ≡ length s + length before
unfolding onto
length-onto [] before = omega arith
length-onto (c ∷ s) before = omega (arith, length-onto s (c ∷ before))

abbrev place : Str → Str → List (ℕ × ℕ × ℕ) → Cursor
place before after groups = record { before = before; after = after; groups = groups }

ne-suc : (n : ℕ) → (n == suc n) ≡ false
ne-suc n = ground arith

-- The star over characters other than `)` reads up to it.
repeat_name :
    (fuel : ℕ) (name before after : Str) (k : Cursor → Option Cursor) (t : Cursor)
    → has b')' name ≡ false
    → length name < fuel
    → k (place (onto name before) (b')' ∷ after) []) ≡ some t
    → repeat
        (λ u l. run (except (single b')' ∷ [])) u l)
        fuel
        (place before (name ++ (b')' ∷ after)) [])
        k
      ≡ some t
unfolding repeat run step onto has in_ranges
repeat_name zero name before after k t n b h = absurd (omega arith)
repeat_name (suc fuel) [] before after k t n b h = h
repeat_name (suc fuel) (c ∷ name) before after k t n b h =
    let ih = repeat_name fuel name (c ∷ before) after k t (ground arith) (omega arith) h in
    let other : in_ranges c (single b')' ∷ []) ≡ false = ground arith in
    rw (repeat, run, step, other, ne-suc (length (name ++ (b')' ∷ after))), ih) refl

-- The closing parenthesis, which ends group 2 from place `i` on.
abbrev close_group : ℕ → Cursor → Option Cursor
close_group i t =
    step (λ d. d == b')') t.after t
      (λ u. some (record u { groups = (2, i, length u.before) ∷ u.groups }))

or_else :
    {o : Option Cursor} (p : Option Cursor) {t : Cursor}
    → o ≡ some t
    → elim o [ some r ↦ some r | none ↦ p ] ≡ some t
or_else p e = rw e refl

-- Behind the word, up to the end of the comment.
abbrev before_name : Str → Str
before_name before = b'T' ∷ b'N' ∷ b'I' ∷ b'L' ∷ b'O' ∷ b'N' ∷ before

abbrev close_place : Str → Str → Str → Cursor
close_place before name after =
    let last = onto name (b'(' ∷ before_name before) in
    place (b')' ∷ last) after ((2, length (before_name before), suc (length last)) ∷ [])

match_at-comment :
    (before name after : Str)
    → plain_name name ≡ true
    → match_at nolint_pattern (b' ' ∷ before) (txt "NOLINT(" ++ (name ++ (b')' ∷ after)))
      ≡ some (close_place (b' ' ∷ before) name after)
unfolding match_at in_ranges has nolint_pattern plain_name txt plus onto
match_at-comment before [] after p = absurd cc
match_at-comment before (c ∷ name) after p =
    let other : in_ranges c (single b')' ∷ []) ≡ false = ground arith in
    let start = before_name (b' ' ∷ before) in
    let star =
      repeat_name (suc (length (name ++ (b')' ∷ after)))) name (c ∷ b'(' ∷ start) after
        (close_group (length start)) (close_place (b' ' ∷ before) (c ∷ name) after) (ground arith)
        (omega (arith, length-append name (b')' ∷ after))) refl in
    rw other (or_else _ star)

match_at-other :
    (before after : Str) (d : ℕ)
    → (d == b'N') ≡ false
    → match_at nolint_pattern before (d ∷ after) ≡ none
unfolding match_at nolint_pattern step run
match_at-other before after d h = ground arith

search_from-skip :
    (before s after : Str)
    → has b'N' s ≡ false
    → search_from nolint_pattern before (s ++ after)
      ≡ search_from nolint_pattern (onto s before) after
unfolding search_from has onto
search_from-skip before [] after h = refl
search_from-skip before (d ∷ s) after h =
    rw (match_at-other before (s ++ after) d (ground arith), search_from)
      (search_from-skip (d ∷ before) s after (ground arith))

take-append : (v w : Str) → take (length v) (v ++ w) ≡ v
take-append [] w = refl
take-append (c ∷ v) w = ap (λ s. c ∷ s) (take-append v w)

piece_of :
    (a b c : Str) (i j : ℕ)
    → i ≡ length a
    → j ≡ i + length b
    → take (j - i) (drop i (a ++ (b ++ c))) ≡ b
piece_of a b c i j hi hj =
    let gap : j - i ≡ length b = omega arith in
    rw (gap, hi, drop-append a (b ++ c)) (take-append b c)

-- The comment for one category.
unfoldable pub comment : Str → Str → Str
comment category after = txt " NOLINT(" ++ (category ++ (b')' ∷ after))

abbrev pub found_comment : Str → Str → Str → Found
found_comment before name after = record {
  text = before ++ comment name after;
  start = suc (length (onto before []));
  stop = length (close_place (b' ' ∷ onto before []) name after).before;
  groups = (close_place (b' ' ∷ onto before []) name after).groups;
}

search_from-comment :
    (before name after : Str)
    → plain_name name ≡ true
    → search_from nolint_pattern before (comment name after)
      ≡ some (suc (length before), close_place (b' ' ∷ before) name after)
unfolding search_from comment txt
search_from-comment before name after p =
    rw
      (
        match_at-other before (txt "NOLINT(" ++ (name ++ (b')' ∷ after))) b' ' refl,
        search_from,
        match_at-comment before name after p,
      )
      refl

pub re_search-comment :
    (before name after : Str)
    → has b'N' before ≡ false
    → plain_name name ≡ true
    → re_search nolint_pattern (before ++ comment name after)
      ≡ some (found_comment before name after)
unfolding re_search onto
re_search-comment before name after h p =
    let e =
      search_from-skip [] before (comment name after) h
      ∙ search_from-comment (onto before []) name after p in
    rw (e, re_search) refl

pub group_of-comment :
    (before name after : Str)
    → group_of 2 (found_comment before name after) ≡ some (b'(' ∷ (name ++ txt ")"))
unfolding group_of comment txt
group_of-comment before name after =
    let start = before ++ txt " NOLINT" in
    let text : before ++ comment name after ≡ start ++ ((b'(' ∷ (name ++ txt ")")) ++ after) =
      rw (append_assoc before, append_assoc name) refl in
    rw text (
      ap some (
        piece_of start (b'(' ∷ (name ++ txt ")")) after _ _
          (omega (arith, length-append before (txt " NOLINT"), length-onto before []))
          (omega (
            arith,
            length-append name (txt ")"),
            length-onto name (b'(' ∷ before_name (b' ' ∷ onto before [])),
          ))))
