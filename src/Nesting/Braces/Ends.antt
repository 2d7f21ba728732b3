-- ===== src/Nesting/Braces/Ends.antt =====
-- The loop over braces and semicolons comes to its end.
use dyod_ws.Base.{
  ℕ, suc, ◌<◌, none, some, ◌≡◌, refl, sym, ap, arith, length, inl, inr, Option-cases, ◌∙◌,
}
use dyod_ws.Base.Loop.{again, stop, iterate_total, again-injective, stop-injective}
use dyod_ws.Base.Text.{Str}
use dyod_ws.Cleanse.{CleansedLines}
use dyod_ws.Nesting.Braces.{Braces, first_brace, on_brace, brace_round, consume_braces}
use dyod_ws.Re.{re_match, group_text}
use dyod_ws.Re.Rest.{EndsIn, last, behind, width, group_text-shorter}

-- What follows the first brace is all that is behind it on the line.
first_brace-EndsIn : EndsIn 2 1 first_brace
unfolding first_brace width
first_brace-EndsIn = behind _ (behind _ (behind _ (last _)))

on_brace-line :
    (filename : Str) (clean_lines : CleansedLines) (linenum : ℕ) (s : Braces) (token rest : Str)
    → (on_brace filename clean_lines linenum s token rest).line ≡ rest
unfolding on_brace
on_brace-line filename clean_lines linenum s token rest = ground arith

module _ (filename : Str) (clean_lines : CleansedLines) (linenum : ℕ) where
  -- A round takes at least the brace off the line.
  round-shorter :
      (s s' : Braces)
      → brace_round filename clean_lines linenum s ≡ again s'
      → length s'.line < length s.line
  unfolding brace_round
  round-shorter s s' h = elim (Option-cases (re_match first_brace s.line)) [
    | inl e ↦ absurd (let h' = rw (brace_round, e) at h in cc)
    | inr (m, e) ↦
        let is_s' = again-injective _ _ (rw (brace_round, e) at h) in
        let l = on_brace-line filename clean_lines linenum s (group_text 1 m) (group_text 2 m) in
        omega (
          arith,
          group_text-shorter 2 s.line m refl first_brace-EndsIn e,
          ap length l,
          ap (λ (x : Braces). length x.line) is_s',
        )
  ]

  round-end :
      (s a : Braces)
      → brace_round filename clean_lines linenum s ≡ stop a
      → re_match first_brace a.line ≡ none
  unfolding brace_round
  round-end s a h = elim (Option-cases (re_match first_brace s.line)) [
    | inl e ↦
        let is_a : s ≡ a = stop-injective s a (rw (brace_round, e) at h) in
        ap (λ (x : Braces). re_match first_brace x.line) (sym is_a) ∙ e
    | inr (m, e) ↦ absurd (let h' = rw (brace_round, e) at h in cc)
  ]

-- The loop over braces and semicolons ends on every line, with what is left of the line free of
-- tokens that the pattern finds.
pub consume_braces_total :
    (filename : Str) (clean_lines : CleansedLines) (linenum : ℕ) (s : Braces)
    → (r : Braces) × (consume_braces filename clean_lines linenum s ≡ some r)
      × (re_match first_brace r.line ≡ none)
unfolding consume_braces
consume_braces_total filename clean_lines linenum s =
    iterate_total (λ x. Unit) (λ a. re_match first_brace a.line ≡ none) (λ x. length x.line)
      (brace_round filename clean_lines linenum)
      (λ x x' k e. (tt, round-shorter filename clean_lines linenum x x' e))
      (λ x a k e. round-end filename clean_lines linenum x a e) (suc (length s.line)) s
      (omega arith) tt
