-- ===== src/Emit/Run.antt =====
-- The handler over a whole run: it never fails, and the error count is the number of lines printed.
use dyod_ws.Base.{
  ℕ, ◌+◌, Bool, true, false, ◌≡◌, refl, some, List, [], ◌∷◌, ◌++◌, arith, length, length-append,
  inl, inr, ltb, Bool-cases, sym, ap, ◌∙◌,
}
use mathlib.Core.List.{append-nil, append_assoc}
use dyod_ws.Base.Text.{Str}
use dyod_ws.LintState.{LintState}
use dyod_ws.LintState.Filters.{Signed}
use dyod_ws.LintState.Counts.{error_count-increment, filters-increment}
use dyod_ws.Nolint.{Suppressions, is_error_suppressed_by_nolint}
use dyod_ws.Report.{Report}
use dyod_ws.Emit.Decision.{filter_loop_total}
use dyod_ws.Emit.{Module, should_print_error, emit_if, handle_error, handle_errors, format_error}

should_print_error_total :
    (category : Str) (confidence linenum : ℕ) (s : LintState) (suppressions : Suppressions)
    → Signed s.filters
    → (b : Bool) × (should_print_error category confidence linenum s suppressions ≡ some b)
unfolding should_print_error
should_print_error_total category confidence linenum s suppressions h =
    let (r, e) = filter_loop_total category s.filters false h in
    elim (Bool-cases (is_error_suppressed_by_nolint category linenum suppressions)) [
      | inl n ↦ (false, rw (n, should_print_error))
      | inr n ↦ elim (Bool-cases (ltb confidence s.verbose_level)) [
        | inl q ↦ (false, ground arith)
        | inr q ↦ elim (Bool-cases r) [
          | inl y ↦ (false, ground (arith, e))
          | inr y ↦ (true, ground (arith, e))
        ]
      ]
    ]

-- `m'` follows from `m` by printing `n` lines and counting as many errors.
pub record Printed (m m' : Module) : Type 0 where
  pub lines : List Str
  pub written : m'.stderr ≡ m.stderr ++ lines
  pub counted : m'.state.error_count ≡ m.state.error_count + length lines
  pub filters_kept : m'.state.filters ≡ m.state.filters

pub Printed-refl : (m : Module) → Printed m m
Printed-refl m = record {
  lines = [];
  written = sym (append-nil m.stderr);
  counted = omega arith;
  filters_kept = refl;
}

pub Printed-trans : {a b c : Module} → Printed a b → Printed b c → Printed a c
Printed-trans {a} {b} {c} p q = record {
  lines = p.lines ++ q.lines;
  written = q.written ∙ ap (λ x. x ++ q.lines) p.written ∙ append_assoc a.stderr p.lines q.lines;
  counted = omega (arith, p.counted, q.counted, length-append p.lines q.lines);
  filters_kept = q.filters_kept ∙ p.filters_kept;
}

Printed-emit_if : (b : Bool) (r : Report) (m : Module) → Printed m (emit_if b r m)
unfolding emit_if
Printed-emit_if false r m = Printed-refl m
Printed-emit_if true r m = record {
  lines = format_error m.state.output_format r ∷ [];
  written = refl;
  counted = error_count-increment r.category m.state;
  filters_kept = filters-increment r.category m.state;
}

handle_error_total :
    (r : Report) (m : Module)
    → Signed m.state.filters
    → (m' : Module) × (handle_error r m ≡ some m') × Printed m m'
unfolding handle_error
handle_error_total r m h =
    let (b, e) =
      should_print_error_total r.category r.confidence r.linenum m.state m.suppressions h in
    (emit_if b r m, rw (e, handle_error), Printed-emit_if b r m)

-- With signed filters no sequence of error calls trips the assertion, and the error count grows by
-- the number of lines that are written, all at the end of standard error.
pub handle_errors_total :
    (rs : List Report) (m : Module)
    → Signed m.state.filters
    → (m' : Module) × (handle_errors rs m ≡ some m') × Printed m m'
unfolding handle_errors
handle_errors_total [] m h = (m, refl, Printed-refl m)
handle_errors_total (r ∷ rs) m h =
    let (m₁, e₁, p₁) = handle_error_total r m h in
    let (m₂, e₂, p₂) = handle_errors_total rs m₁ (rw p₁.filters_kept h) in
    (m₂, rw (e₁, handle_errors) e₂, Printed-trans p₁ p₂)
