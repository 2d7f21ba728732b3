-- ===== src/Cleanse/Collapse/Ends.antt =====
-- That `_CollapseStrings` gives a result.
use dyod_ws.Base.{
  ℕ, suc, ◌+◌, ◌<◌, ◌≤◌, true, false, ◌≡◌, refl, sym, ap, Option, some, [], ◌∷◌, ◌++◌, arith,
  length, length-drop, inl, inr, Bool-cases, Option-cases,
}
use dyod_ws.Base.Loop.{
  Round, again, stop, iterate, iterate_total, again-injective, stop-injective, joined,
}
use dyod_ws.Base.Text.{Str, txt, find, has, str_eq}
use dyod_ws.Cleanse.Collapse.{
  Collapse, first_quote, digits_at_end, digit_separators, double_quote, separator, single_quote,
  quoted, collapse_round, collapse_strings, include_pattern, cleanse_line_escapes,
}
use dyod_ws.Re.{Re, Found, opt, one, seq, word, re_match, re_sub, group_text, searches, matches}
use dyod_ws.Re.Always.{star_dots-matches}
use dyod_ws.Re.Lacks.{Lacks, Lacks-drop, matched-Lacks, re_sub-Lacks}
use dyod_ws.Re.Rest.{EndsIn, last, behind, width, group_text-shorter}
use dyod_ws.Re.Pieces.{re_match-Cut, group_text-text_in, skips, grabs, done, piece-le}

-- What stands around the first quote.
first_quote-le :
    (line : Str) (m : Found)
    → re_match first_quote line ≡ some m
    → length (group_text 1 m) + length (group_text 3 m) + 1 ≤ length line
unfolding first_quote dyod_ws.Re.one_of dyod_ws.Re.none_of dyod_ws.Re.Sound.plain
    dyod_ws.Re.Rest.width
first_quote-le line m h =
    let (c0, x) =
      re_match-Cut line m
        (skips _ refl (grabs 1 _ refl (grabs 2 _ refl (grabs 3 _ refl (done refl))))) h in
    let (j0, l0, t0, c1) = c0 in
    let (j1, l1, t1, c2) = c1 in
    let (j2, l2, t2, c3) = c2 in
    let (j3, l3, t3, g) = c3 in
    omega (
      arith,
      ap length (group_text-text_in 1 m line _ x g),
      ap length (group_text-text_in 3 m line _ x g),
      piece-le j0 j1 line,
      piece-le j2 j3 line,
    )

digit_separators-le :
    (line : Str) (m : Found)
    → re_match digit_separators line ≡ some m
    → length (group_text 2 m) ≤ length line
unfolding digit_separators dyod_ws.Re.opt width
digit_separators-le line m h =
    omega (arith, group_text-shorter 2 line m refl (behind _ (behind _ (last _))) h)

-- A number in front of the quote is not empty.
digits-ne : (head : Str) → searches digits_at_end head ≡ true → 1 ≤ length head
unfolding searches digits_at_end
digits-ne [] h = absurd (let h' : false ≡ true = h in cc)
digits-ne (c ∷ head) h = omega arith

-- A round that goes on leaves less than `n` characters, none of them a newline; a round that ends the
-- loop does not raise.
data Fine (n : ℕ) : Round Collapse (Option Str) → Type 0 where
  goes : (s : Collapse) → Lacks b'\n' s.elided → length s.elided < n → Fine n (again s)
  ends : (r : Str) → Fine n (stop (some r))

Fine-weaken : {x : Round Collapse (Option Str)} (m n : ℕ) → m ≤ n → Fine m x → Fine n x
Fine-weaken m n l (goes s h k) = goes s h (omega arith)
Fine-weaken m n l (ends r) = ends r

module _ (s : Collapse) (head tail : Str) (flat : Lacks b'\n' tail) where
  double_quote-Fine : Fine (length tail + 1) (double_quote s head tail)
  unfolding double_quote
  double_quote-Fine = elim (Option-cases (find (txt "\"") tail)) [
    | inl e ↦ rw (double_quote, e) (ends _)
    | inr (i, e) ↦
        rw (double_quote, e)
          (goes _ (Lacks-drop b'\n' (i + 1) tail flat) (omega (arith, length-drop (i + 1) tail)))
  ]

  single_quote-Fine : Fine (length tail + 1) (single_quote s head tail)
  unfolding single_quote
  single_quote-Fine = elim (Option-cases (find (txt "'") tail)) [
    | inl e ↦ rw (single_quote, e) (ends _)
    | inr (i, e) ↦
        rw (single_quote, e)
          (goes _ (Lacks-drop b'\n' (i + 1) tail flat) (omega (arith, length-drop (i + 1) tail)))
  ]

  separator-Fine : Fine (length tail + 2) (separator s head tail)
  unfolding separator txt has digit_separators dyod_ws.Re.opt
  separator-Fine =
      let (l, e) = star_dots-matches (seq (opt (one b'\'')) word) (txt "'" ++ tail) flat in
      rw (separator, e)
        (goes _ (matched-Lacks b'\n' 2 digit_separators (txt "'" ++ tail) l e flat)
          (omega (arith, digit_separators-le (txt "'" ++ tail) l e)))

  quoted-Fine : (quote : Str) → Fine (length head + length tail + 1) (quoted s head quote tail)
  unfolding quoted
  quoted-Fine quote = elim (Bool-cases (str_eq quote (txt "\""))) [
    | inl y ↦ rw (quoted, y) (Fine-weaken _ _ (omega arith) double_quote-Fine)
    | inr n ↦ elim (Bool-cases (searches digits_at_end head)) [
      | inl d ↦
          rw (quoted, n, d)
            (let l = digits-ne head d in Fine-weaken _ _ (omega arith) separator-Fine)
      | inr d ↦ rw (quoted, n, d) (Fine-weaken _ _ (omega arith) single_quote-Fine)
    ]
  ]

collapse_round-Fine :
    (s : Collapse) (n : ℕ) → Lacks b'\n' s.elided → length s.elided ≤ n → Fine n (collapse_round s)
unfolding collapse_round
collapse_round-Fine s n flat l = elim (Option-cases (re_match first_quote s.elided)) [
  | inl e ↦ rw (collapse_round, e) (ends _)
  | inr (m, e) ↦
      let k = first_quote-le s.elided m e in
      rw (collapse_round, e)
        (Fine-weaken _ _ (omega arith) (
          quoted-Fine s (group_text 1 m) (group_text 3 m)
            (matched-Lacks b'\n' 3 first_quote s.elided m e flat) (group_text 2 m)))
]

Fine-again :
    {n : ℕ} {x : Round Collapse (Option Str)} (s : Collapse)
    → Fine n x
    → x ≡ again s
    → Lacks b'\n' s.elided × (length s.elided < n)
Fine-again s (goes s' h k) e = let is_s = again-injective _ _ e in (rw is_s at h, rw is_s at k)
Fine-again s (ends r) e = absurd (cc)

Fine-stop :
    {n : ℕ} {x : Round Collapse (Option Str)} (a : Option Str)
    → Fine n x
    → x ≡ stop a
    → (r : Str) × (a ≡ some r)
Fine-stop a (goes s h k) e = absurd (cc)
Fine-stop a (ends r) e = (r, sym (stop-injective _ _ e))

-- The loop ends, and does not raise.
collapse_loop :
    (s : Collapse)
    → Lacks b'\n' s.elided
    → (a : Option Str) × (iterate collapse_round (suc (length s.elided)) s ≡ some a)
      × ((r : Str) × (a ≡ some r))
collapse_loop s flat =
    let fine = λ (v : Collapse) (n : Lacks b'\n' v.elided).
      collapse_round-Fine v (length v.elided) n (omega arith) in
    iterate_total (λ (v : Collapse). Lacks b'\n' v.elided) (λ a. (r : Str) × (a ≡ some r))
      (λ (v : Collapse). length v.elided) collapse_round (λ v v' n e. Fine-again v' (fine v n) e)
      (λ v a n e. Fine-stop a (fine v n) e) (suc (length s.elided)) s (omega arith) flat

-- `_CollapseStrings` gives a result for every line, that is a text without a newline: its loop ends, and
-- no pattern fails to match.
pub collapse_strings_total :
    (line : Str) → Lacks b'\n' line → (r : Str) × (collapse_strings line ≡ some r)
unfolding collapse_strings joined
collapse_strings_total line flat = elim (Bool-cases (matches include_pattern line)) [
  | inl y ↦ (line, rw (collapse_strings, y) refl)
  | inr n ↦
      let elided = re_sub cleanse_line_escapes (λ m. []) line in
      let (a, e, (r, f)) =
        collapse_loop (record { collapsed = []; elided = elided })
          (re_sub-Lacks b'\n' cleanse_line_escapes line flat) in
      (r, rw (collapse_strings, n, e, f, joined) refl)
]
