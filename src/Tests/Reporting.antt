-- ===== src/Tests/Reporting.antt =====
-- The theorems on options, suppressions and the error handler at concrete states.
use dyod_ws.Base.{
  ℕ, ◌+◌, ◌*◌, ◌^◌, ◌≤◌, ◌<◌, Bool, true, false, ◌≡◌, ◌≢◌, refl, ◌↔◌, Option, none, some, List, [],
  ◌∷◌, ◌++◌, arith, All, if◌then◌else◌, ◌==◌,
}
use dyod_ws.Base.Text.{Str, txt, str_eq, split_on, starts_with, is_one_of}
use dyod_ws.Categories.{default_filters, error_categories}
use dyod_ws.Emit.{Module, handle_error, handle_errors, should_print_error, filter_loop}
use dyod_ws.Emit.Decision.{
  verdict, last_verdict, Unsuppressed, filter_loop-last, should_print_error_iff,
}
use dyod_ws.Emit.Calls.{reports, nolint, run_calls}
use dyod_ws.Emit.Silence.{comment_silences}
use dyod_ws.Emit.Run.{Printed, handle_errors_total}
use dyod_ws.LintState.{
  LintState, add_filters, restore_filters, backup_filters, increment_error_count,
}
use dyod_ws.LintState.Counts.{count_of, IsBalanced, increment-IsBalanced, count_of-increment}
use dyod_ws.LintState.Filters.{Accounts, pieces, add_filters-Accounts}
use dyod_ws.LintState.Store.{
  Store, adds, backs_up, restores, Separate, view, apply_all, on_values, apply_all-view,
}
use dyod_ws.Nolint.{Suppressions, parse_nolint_suppressions, is_error_suppressed_by_nolint}
use dyod_ws.Nolint.Effect.{suppression_is_local}
use dyod_ws.Nolint.Matched.{comment}
use dyod_ws.Report.{Report}

-- The state of a run with the style "detailed" and one filter.
abbrev detailed : LintState
detailed = record {
  verbose_level = 1;
  error_count = 2;
  filters = txt "-build" ∷ [];
  filters_backup = [];
  counting = txt "detailed";
  errors_by_category = (txt "build/class", 2) ∷ [];
  output_format = txt "emacs";
}

abbrev one_suppression : Suppressions
one_suppression = record { lines = (some (txt "runtime/vlog"), 3) ∷ []; globals = [] }

abbrev running : Module
running = record { state = detailed; suppressions = one_suppression; stderr = [] }

abbrev vlog : Report
vlog = record {
  filename = txt "a.cpp";
  linenum = 4;
  category = txt "runtime/vlog";
  confidence = 5;
  message = txt "VLOG()";
}

handle_errors_total_example :
    (m' : Module) × (handle_errors (vlog ∷ vlog ∷ []) running ≡ some m') × Printed running m'
unfolding dyod_ws.LintState.has_sign
handle_errors_total_example = handle_errors_total (vlog ∷ vlog ∷ []) running (refl, tt)

should_print_error_iff_example :
    (should_print_error (txt "runtime/vlog") 5 3 detailed one_suppression ≡ some true) ↔ (
      Unsuppressed (txt "runtime/vlog") 3 one_suppression
      × (1 ≤ 5)
      × (last_verdict (txt "runtime/vlog") (txt "-build" ∷ []) ≢ some true))
unfolding dyod_ws.LintState.has_sign
should_print_error_iff_example =
    should_print_error_iff (txt "runtime/vlog") 5 3 detailed one_suppression (refl, tt)

filter_loop-last_example :
    filter_loop (txt "build/class") (txt "-build" ∷ txt "+build/class" ∷ []) false
    ≡ elim (verdict (txt "build/class") (txt "+build/class")) [
      | some v ↦ some v
      | none ↦ filter_loop (txt "build/class") (txt "-build" ∷ []) false
    ]
unfolding dyod_ws.LintState.has_sign
filter_loop-last_example =
    filter_loop-last (txt "build/class") (txt "-build" ∷ []) (txt "+build/class") false (refl, tt)
      refl

increment-IsBalanced_example : IsBalanced (increment_error_count (txt "runtime/vlog") detailed)
unfolding str_eq txt
increment-IsBalanced_example = increment-IsBalanced (txt "runtime/vlog") detailed refl refl

count_of-increment_example :
    count_of
      (txt "build/class")
      (increment_error_count (txt "build/class") detailed).errors_by_category
    ≡ (if str_eq (txt "build/class") (txt "build/class")
        then count_of (txt "build/class") ((txt "build/class", 2) ∷ []) + 1
        else count_of (txt "build/class") ((txt "build/class", 2) ∷ []))
unfolding str_eq txt
count_of-increment_example =
    count_of-increment (txt "build/class") (txt "build/class") detailed refl

add_filters-Accounts_example :
    ((add_filters (txt "+build/class, legal") detailed).0 ≡ record detailed {
      filters = txt "-build" ∷ pieces (split_on b',' (txt "+build/class, legal"));
    })
    × Accounts
        (txt "-build" ∷ pieces (split_on b',' (txt "+build/class, legal")))
        (add_filters (txt "+build/class, legal") detailed).1
add_filters-Accounts_example = add_filters-Accounts (txt "+build/class, legal") detailed

abbrev lists : ℕ → List Str
lists r = if r == 0 then default_filters else txt "-build" ∷ []

abbrev two_lists : Store
two_lists = record { next = 3; cells = lists; filters = 1; filters_backup = 2 }

two_lists-Separate : Separate two_lists
two_lists-Separate = record {
  filters_given = omega arith;
  backup_given = omega arith;
  apart = omega arith;
  filters_own = omega arith;
  backup_own = omega arith;
  defaults_kept = refl;
}

apply_all-view_example :
    Separate (apply_all (backs_up ∷ adds (txt "+legal") ∷ restores ∷ []) two_lists)
    × (view detailed (apply_all (backs_up ∷ adds (txt "+legal") ∷ restores ∷ []) two_lists)
        ≡ on_values (backs_up ∷ adds (txt "+legal") ∷ restores ∷ []) (view detailed two_lists))
apply_all-view_example =
    apply_all-view detailed (backs_up ∷ adds (txt "+legal") ∷ restores ∷ []) two_lists
      two_lists-Separate

suppression_is_local_example :
    is_error_suppressed_by_nolint
      (txt "runtime/vlog")
      3
      (parse_nolint_suppressions (txt "a.cpp") (txt "int x;  // NOLINT") 7 one_suppression).0
    ≡ is_error_suppressed_by_nolint (txt "runtime/vlog") 3 one_suppression
suppression_is_local_example =
    suppression_is_local (txt "a.cpp") (txt "int x;  // NOLINT") (txt "runtime/vlog") 7 3
      one_suppression (omega arith) (omega arith)

known_vlog : is_one_of (txt "runtime/vlog") error_categories ≡ true
unfolding error_categories is_one_of txt
known_vlog = refl

comment_silences_example :
    (m' : Module) × (run_calls
        (nolint (txt "a.cpp") (txt "VLOG(n);  //" ++ comment (txt "runtime/vlog") []) 4
          ∷ reports vlog
          ∷ [])
        running
      ≡ some m')
    × (handle_error vlog m' ≡ some m')
unfolding dyod_ws.LintState.has_sign dyod_ws.Base.Text.has txt
comment_silences_example =
    comment_silences (txt "a.cpp") (txt "VLOG(n);  //") [] vlog (reports vlog ∷ []) running
      (refl, tt) refl known_vlog
