-- ===== src/Emit/Calls.antt =====
-- The calls of a check that also reads NOLINT comments: reports and comments, in their order.
use dyod_ws.Base.{ℕ, Option, none, some, List, [], ◌∷◌, ◌≡◌, refl}
use dyod_ws.Base.Text.{Str}
use dyod_ws.Emit.{Module, handle_errors}
use dyod_ws.Emit.Run.{Printed, Printed-refl, Printed-trans, handle_errors_total}
use dyod_ws.LintState.Filters.{Signed}
use dyod_ws.Nolint.{parse_nolint_suppressions}
use dyod_ws.Report.{Report}

-- A call of the error handler, or of `ParseNolintSuppressions` with a file name, a line and its number.
pub data Call : Type 0 where
  reports : Report → Call
  nolint : Str → Str → ℕ → Call

abbrev pub report_all : List Report → List Call
report_all [] = []
report_all (r ∷ rs) = reports r ∷ report_all rs

unfoldable pub run_call : Call → Module → Option Module
run_call (reports r) m = handle_errors (r ∷ []) m
run_call (nolint filename raw_line linenum) m =
    let (s, rs) = parse_nolint_suppressions filename raw_line linenum m.suppressions in
    handle_errors rs (record m { suppressions = s })

-- The calls, in order; `none` is a failed assertion.
unfoldable pub run_calls : List Call → Module → Option Module
unfolding run_call
run_calls [] m = some m
run_calls (c ∷ cs) m = elim (run_call c m) [ none ↦ none | some m' ↦ run_calls cs m' ]

run_call_total :
    (c : Call) (m : Module)
    → Signed m.state.filters
    → (m' : Module) × (run_call c m ≡ some m') × Printed m m'
unfolding run_call
run_call_total (reports r) m h = handle_errors_total (r ∷ []) m h
run_call_total (nolint filename raw_line linenum) m h =
    let parsed = parse_nolint_suppressions filename raw_line linenum m.suppressions in
    let (m', e, p) = handle_errors_total parsed.1 (record m { suppressions = parsed.0 }) h in
    (
      m',
      e,
      record {
        lines = p.lines;
        written = p.written;
        counted = p.counted;
        filters_kept = p.filters_kept;
      },
    )

-- With signed filters no sequence of reports and NOLINT comments trips the assertion, and the error
-- count grows by the number of lines that are written, all at the end of standard error.
pub run_calls_total :
    (cs : List Call) (m : Module)
    → Signed m.state.filters
    → (m' : Module) × (run_calls cs m ≡ some m') × Printed m m'
unfolding run_calls
run_calls_total [] m h = (m, refl, Printed-refl m)
run_calls_total (c ∷ cs) m h =
    let (m₁, e₁, p₁) = run_call_total c m h in
    let (m₂, e₂, p₂) = run_calls_total cs m₁ (rw p₁.filters_kept h) in
    (m₂, rw (e₁, run_calls) e₂, Printed-trans p₁ p₂)
