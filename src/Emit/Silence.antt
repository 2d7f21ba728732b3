-- ===== src/Emit/Silence.antt =====
-- What a NOLINT comment does to the reports that follow it.
use mathlib.Core.Option.{some-injective}
use dyod_ws.Base.{
  ℕ, Bool, true, false, ◌≡◌, refl, sym, ap, ◌∙◌, Option, some, List, [], ◌∷◌, ◌++◌, arith,
  Option-cases, inl, inr,
}
use dyod_ws.Base.Text.{Str, has, is_one_of}
use dyod_ws.Base.TextLaws.{str_eq_refl}
use dyod_ws.Categories.{error_categories}
use dyod_ws.Emit.{Module, emit_if, should_print_error, handle_error, handle_errors}
use dyod_ws.Emit.Calls.{Call, reports, nolint, run_call, run_calls, run_calls_total}
use dyod_ws.LintState.Filters.{Signed}
use dyod_ws.Nolint.{
  parse_nolint_suppressions, same_key, suppressed_at, is_error_suppressed_by_nolint,
}
use dyod_ws.Nolint.Comments.{parse-comment}
use dyod_ws.Nolint.Effect.{suppressed_at-parse}
use dyod_ws.Nolint.Matched.{comment}
use dyod_ws.Report.{Report}

-- The state holds a comment for the key and the line.
abbrev Held : Option Str → ℕ → Module → Type 0
Held key n m = suppressed_at key n m.suppressions.lines ≡ true

emit_if-suppressions :
    (b : Bool) (r : Report) (m : Module) → (emit_if b r m).suppressions ≡ m.suppressions
unfolding emit_if
emit_if-suppressions false r m = refl
emit_if-suppressions true r m = refl

handle_errors-suppressions :
    (rs : List Report) (m m' : Module)
    → handle_errors rs m ≡ some m'
    → m'.suppressions ≡ m.suppressions
unfolding handle_errors handle_error emit_if
handle_errors-suppressions [] m m' h =
    ap (λ (x : Module). x.suppressions) (sym (some-injective m m' h))
handle_errors-suppressions (r ∷ rs) m m' h =
    elim (Option-cases
      (should_print_error r.category r.confidence r.linenum m.state m.suppressions)) [
        | inl e ↦ absurd (let h' = rw (handle_errors, handle_error, e) at h in cc)
        | inr (b, e) ↦
            handle_errors-suppressions rs (emit_if b r m) m'
              (rw (handle_errors, handle_error, e) at h)
            ∙ emit_if-suppressions b r m
      ]

module _ (key : Option Str) (n : ℕ) where
  run_call-Held : (c : Call) (m m' : Module) → run_call c m ≡ some m' → Held key n m → Held key n m'
  unfolding run_call
  run_call-Held (reports r) m m' h held = rw (handle_errors-suppressions (r ∷ []) m m' h) held
  run_call-Held (nolint filename raw_line linenum) m m' h held =
      rw
        (
          handle_errors-suppressions
              (parse_nolint_suppressions filename raw_line linenum m.suppressions).1 _ m' h,
          suppressed_at-parse filename raw_line linenum key n m.suppressions,
          held,
        )
        (ground arith)

  run_calls-Held :
      (cs : List Call) (m m' : Module) → run_calls cs m ≡ some m' → Held key n m → Held key n m'
  unfolding run_calls
  run_calls-Held [] m m' h held = rw (← some-injective m m' h) held
  run_calls-Held (c ∷ cs) m m' h held = elim (Option-cases (run_call c m)) [
    | inl e ↦ absurd (let h' = rw (run_calls, e) at h in cc)
    | inr (m₁, e) ↦ run_calls-Held cs m₁ m' (rw (run_calls, e) at h) (run_call-Held c m m₁ e held)
  ]

-- A report that a comment is held for changes nothing.
handle_error-Held :
    (r : Report) (m : Module) → Held (some r.category) r.linenum m → handle_error r m ≡ some m
unfolding handle_error should_print_error is_error_suppressed_by_nolint emit_if
handle_error-Held r m held = ground (arith, held)

held_now :
    (r : Report) (m : Module)
    → suppressed_at
        (some r.category)
        r.linenum
        ((some r.category, r.linenum) ∷ m.suppressions.lines)
      ≡ true
unfolding suppressed_at same_key
held_now r m = ground (arith, str_eq_refl r.category)

-- With signed filters, from a line on that has " NOLINT(category)" for a known category, and no capital
-- N in front of it, a report of this category for this line is neither written nor counted, whatever
-- reports and lines come between; and all these calls end without a failed assertion.
pub comment_silences :
    (filename before after : Str) (r : Report) (cs : List Call) (m : Module)
    → Signed m.state.filters
    → has b'N' before ≡ false
    → is_one_of r.category error_categories ≡ true
    → (m' : Module) × (run_calls
          (nolint filename (before ++ comment r.category after) r.linenum ∷ cs)
          m
        ≡ some m')
      × (handle_error r m' ≡ some m')
unfolding run_calls run_call handle_errors
comment_silences filename before after r cs m signed h known =
    let parsed = parse-comment filename before r.category after r.linenum m.suppressions h known in
    let known_by = record m.suppressions {
      lines = (some r.category, r.linenum) ∷ m.suppressions.lines;
    } in
    let start = record m { suppressions = known_by } in
    let (m', e, p) = run_calls_total cs start signed in
    let held : Held (some r.category) r.linenum start = held_now r m in
    (
      m',
      rw (run_calls, run_call, parsed, handle_errors) e,
      handle_error-Held r m' (run_calls-Held (some r.category) r.linenum cs start m' e held),
    )
