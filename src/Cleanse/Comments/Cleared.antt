-- ===== src/Cleanse/Comments/Cleared.antt =====
-- The removal of comments over several lines ends, and changes lines only to `/**/`.
use mathlib.Core.Path.{subst}
use dyod_ws.Base.{
  ℕ, suc, ◌+◌, ◌-◌, ◌≤◌, ◌<◌, Bool, not, ◌≡◌, ◌⊎◌, refl, ap, sym, ◌∙◌, some, List, [], ◌∷◌, arith,
  length, drop, ltb, leb, inl, inr, if_both, ◌&&◌,
}
use dyod_ws.Base.Loop.{Round, again, stop, iterate_total, again-injective, stop-injective}
use dyod_ws.Base.Text.{Str, txt}
use dyod_ws.Cleanse.Comments.{
  first_line, find_next_multi_line_comment_start, find_next_multi_line_comment_end, clear_range,
  remove_multi_line_comments_from_range, Removal, removal_round, remove_multi_line_comments,
}
use dyod_ws.Report.{Report}

-- Line by line, the second list has the line of the first, or `/**/`.
abbrev pub Kept : List Str → List Str → Type 0
Kept [] [] = Unit
Kept (x ∷ xs) (y ∷ ys) = ((y ≡ x) ⊎ (y ≡ txt "/**/")) × Kept xs ys
Kept _ _ = ⊥

Kept-refl : (xs : List Str) → Kept xs xs
Kept-refl [] = tt
Kept-refl (x ∷ xs) = (inl refl, Kept-refl xs)

pub length-Kept : (xs ys : List Str) → Kept xs ys → length ys ≡ length xs
length-Kept [] [] k = refl
length-Kept (x ∷ xs) (y ∷ ys) k = ap suc (length-Kept xs ys k.1)
length-Kept [] (y ∷ ys) k = elim k [ ]
length-Kept (x ∷ xs) [] k = elim k [ ]

Kept-clear_range :
    (i begin end : ℕ) (xs ys : List Str) → Kept xs ys → Kept xs (clear_range i begin end ys)
unfolding clear_range
Kept-clear_range i begin end [] [] k = tt
Kept-clear_range i begin end (x ∷ xs) (y ∷ ys) k = (
  if_both (λ z. (z ≡ x) ⊎ (z ≡ txt "/**/")) (leb begin i && ltb i end) (λ _. inr refl) (λ _. k.0),
  Kept-clear_range (i + 1) begin end xs ys k.1,
)
Kept-clear_range i begin end [] (y ∷ ys) k = elim k [ ]
Kept-clear_range i begin end (x ∷ xs) [] k = elim k [ ]

le-first_line : (test : Str → Bool) (i : ℕ) (xs : List Str) → i ≤ first_line test i xs
unfolding first_line
le-first_line test i [] = omega arith
le-first_line test i (x ∷ xs) = ground (arith, le-first_line test (i + 1) xs)

le-start : (xs : List Str) (i : ℕ) → i ≤ find_next_multi_line_comment_start xs i
unfolding find_next_multi_line_comment_start
le-start xs i = le-first_line _ i (drop i xs)

le-end : (xs : List Str) (i : ℕ) → i ≤ find_next_multi_line_comment_end xs i
unfolding find_next_multi_line_comment_end
le-end xs i = le-first_line _ i (drop i xs)

measure : Removal → ℕ
measure s = length s.lines - s.lineix

-- What a round gives, in both cases.
record Goes (lines : List Str) (s : Removal) (r : Round Removal (List Str × List Report))
    : Type 0 where
  on : (s' : Removal) → r ≡ again s' → Kept lines s'.lines × (measure s' < measure s)
  out : (a : List Str × List Report) → r ≡ stop a → Kept lines a.0

module _ (lines : List Str) (s : Removal) (k : Kept lines s.lines) where
  stop-Goes : (reports : List Report) → Goes lines s (stop (s.lines, reports))
  stop-Goes reports = record {
    on = λ s' e. cc;
    out = λ a e.
        subst (λ (t : List Str × List Report). Kept lines t.0)
          (stop-injective (s.lines, reports) a e) k;
  }

  again-Goes :
      (lineix : ℕ) (lines' : List Str)
      → Kept lines lines'
      → length lines' ≡ length s.lines
      → s.lineix < lineix
      → s.lineix < length s.lines
      → Goes lines s (again (record { lines = lines'; lineix = lineix }))
  unfolding measure
  again-Goes lineix lines' k' e b c = record {
    on = λ s' h.
        let t : Removal = record { lines = lines'; lineix = lineix } in
        let here : Kept lines lines' × (measure t < measure s) = (k', omega arith) in
        subst (λ (t : Removal). Kept lines t.lines × (measure t < measure s))
          (again-injective t s' h) here;
    out = λ a h. cc;
  }

removal_round-Goes :
    (filename : Str) (lines : List Str) (s : Removal)
    → Kept lines s.lines
    → Goes lines s (removal_round filename s)
unfolding removal_round remove_multi_line_comments_from_range
removal_round-Goes filename lines s k =
    let P = Goes lines s in
    let begin = find_next_multi_line_comment_start s.lines s.lineix in
    let end = find_next_multi_line_comment_end s.lines begin in
    let k' = Kept-clear_range 0 begin (end + 1) lines s.lines k in
    if_both P (not (ltb s.lineix (length s.lines))) (λ _. stop-Goes lines s k [])
      λ inside.
        if_both P (leb (length s.lines) begin) (λ _. stop-Goes lines s k [])
          λ _.
            if_both P (leb (length s.lines) end) (λ _. stop-Goes lines s k _)
              λ _.
                again-Goes lines s k (end + 1) _ k'
                  (length-Kept lines _ k' ∙ sym (length-Kept lines s.lines k))
                  (omega (arith, le-start s.lines s.lineix, le-end s.lines begin)) (ground arith)

-- The loop ends on every file, and each line of the result is the line of the file or `/**/`.
pub remove_multi_line_comments_total :
    (filename : Str) (lines : List Str)
    → (r : List Str × List Report) × (remove_multi_line_comments filename lines ≡ some r)
      × Kept lines r.0
unfolding remove_multi_line_comments measure
remove_multi_line_comments_total filename lines =
    iterate_total (λ s. Kept lines s.lines) (λ a. Kept lines a.0) measure (removal_round filename)
      (λ s s' k e. (removal_round-Goes filename lines s k).on s' e)
      (λ s a k e. (removal_round-Goes filename lines s k).out a e) (suc (length lines))
      (record { lines = lines; lineix = 0 }) (omega arith) (Kept-refl lines)
