-- ===== src/Emit.antt =====
-- `_ShouldPrintError` and `Error` of cpplint.py: which reports are printed and counted.
pub mod Calls
pub mod Decision
pub mod Run
pub mod Silence
use dyod_ws.Base.{ℕ, Bool, true, false, Option, none, some, List, [], ◌∷◌, ◌++◌, ltb, if◌then◌else◌}
use dyod_ws.Base.Text.{Str, txt, str_eq, starts_with, show}
use dyod_ws.LintState.{LintState, increment_error_count}
use dyod_ws.Nolint.{Suppressions, is_error_suppressed_by_nolint}
use dyod_ws.Report.{Report}

-- The module's state that `Error` reads and writes, and what it has written to standard error.
pub record Module : Type 0 where
  pub state : LintState
  pub suppressions : Suppressions
  pub stderr : List Str

-- The loop over the filters, with `is_filtered` so far; `none` is the failed assertion.
unfoldable pub filter_loop : Str → List Str → Bool → Option Bool
filter_loop category [] is_filtered = some is_filtered
filter_loop category ([] ∷ fs) is_filtered = none
filter_loop category ((sign ∷ prefix) ∷ fs) is_filtered =
    let hit = starts_with prefix category in
    let minus = filter_loop category fs (if hit then true else is_filtered) in
    let plus = filter_loop category fs (if hit then false else is_filtered) in
    if starts_with (txt "-") (sign ∷ prefix)
    then minus
    else if starts_with (txt "+") (sign ∷ prefix)
    then plus
    else none

-- `none` is a failed assertion.
unfoldable pub should_print_error : Str → ℕ → ℕ → LintState → Suppressions → Option Bool
unfolding filter_loop
should_print_error category confidence linenum s suppressions =
    if is_error_suppressed_by_nolint category linenum suppressions
    then some false
    else if ltb confidence s.verbose_level
    then some false
    else elim (filter_loop category s.filters false) [
      | none ↦ none
      | some true ↦ some false
      | some false ↦ some true
    ]

-- The line that `Error` writes in each output format.
unfoldable pub format_error : Str → Report → Str
format_error output_format r =
    let tail = txt "  [" ++ (r.category ++ (txt "] [" ++ (show r.confidence ++ txt "]\n"))) in
    if str_eq output_format (txt "vs7")
    then r.filename ++ (txt "(" ++ (show r.linenum ++ (txt "):  " ++ (r.message ++ tail))))
    else if str_eq output_format (txt "eclipse")
    then r.filename ++ (txt ":" ++ (show r.linenum ++ (txt ": warning: " ++ (r.message ++ tail))))
    else r.filename ++ (txt ":" ++ (show r.linenum ++ (txt ":  " ++ (r.message ++ tail))))

unfoldable pub emit_if : Bool → Report → Module → Module
emit_if false r m = m
emit_if true r m = record m {
  state = increment_error_count r.category m.state;
  stderr = m.stderr ++ (format_error m.state.output_format r ∷ []);
}

-- `Error`; `none` is a failed assertion.
unfoldable pub handle_error : Report → Module → Option Module
unfolding emit_if
handle_error r m =
    elim (should_print_error r.category r.confidence r.linenum m.state m.suppressions) [
      | none ↦ none
      | some b ↦ some (emit_if b r m)
    ]

-- The calls of the handler, in order.
unfoldable pub handle_errors : List Report → Module → Option Module
unfolding handle_error
handle_errors [] m = some m
handle_errors (r ∷ rs) m = elim (handle_error r m) [ none ↦ none | some m' ↦ handle_errors rs m' ]
