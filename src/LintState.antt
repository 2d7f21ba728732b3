-- ===== src/LintState.antt =====
-- `_CppLintState` of cpplint.py, the module-wide options and counts, with the functions that
-- forward to the one instance of it.
pub mod Filters
pub mod Counts
pub mod Store
use dyod_ws.Base.{
  ℕ, ◌+◌, Bool, true, false, not, ◌&&◌, ◌||◌, Option, none, some, List, [], ◌∷◌, ◌++◌,
  if◌then◌else◌,
}
use dyod_ws.Base.Text.{Str, txt, str_eq, starts_with, split_on, strip, show}
use dyod_ws.Categories.{default_filters}

pub record LintState : Type 0 where
  pub verbose_level : ℕ
  pub error_count : ℕ
  pub filters : List Str
  pub filters_backup : List Str
  pub counting : Str
  pub errors_by_category : List (Str × ℕ)
  pub output_format : Str

-- `__init__`
unfoldable pub init : LintState
init = record {
  verbose_level = 1;
  error_count = 0;
  filters = default_filters;
  filters_backup = default_filters;
  counting = txt "total";
  errors_by_category = [];
  output_format = txt "emacs";
}

unfoldable pub set_output_format : Str → LintState → LintState
set_output_format f s = record s { output_format = f }

-- The new state, and the previous level.
unfoldable pub set_verbose_level : ℕ → LintState → LintState × ℕ
set_verbose_level level s = (record s { verbose_level = level }, s.verbose_level)

unfoldable pub set_counting_style : Str → LintState → LintState
set_counting_style c s = record s { counting = c }

-- The first loop of `AddFilters`: the non-empty pieces, stripped, go to the end of the list.
unfoldable pub clean_filters : List Str → List Str
clean_filters [] = []
clean_filters (f ∷ fs) = elim (strip f) [
  | [] ↦ clean_filters fs
  | c ∷ w ↦ (c ∷ w) ∷ clean_filters fs
]

unfoldable pub has_sign : Str → Bool
unfolding starts_with txt
has_sign f = starts_with (txt "+") f || starts_with (txt "-") f

-- The second loop: the first filter with no sign, for which `ValueError` is raised.
unfoldable pub bad_filter : List Str → Option Str
bad_filter [] = none
bad_filter (f ∷ fs) = if not (has_sign f) then some f else bad_filter fs

-- The state is changed also where the method raises; the second part is the filter at fault.
unfoldable pub add_filters : Str → LintState → LintState × Option Str
add_filters filters s =
    let all = s.filters ++ clean_filters (split_on b',' filters) in
    (record s { filters = all }, bad_filter all)

unfoldable pub set_filters : Str → LintState → LintState × Option Str
unfolding add_filters
set_filters filters s = add_filters filters (record s { filters = default_filters })

-- Here the lists are values, and the slice `[:]`, which copies, leaves no trace; Store shares them.
unfoldable pub backup_filters : LintState → LintState
backup_filters s = record s { filters_backup = s.filters }

unfoldable pub restore_filters : LintState → LintState
restore_filters s = record s { filters = s.filters_backup }

unfoldable pub reset_error_counts : LintState → LintState
reset_error_counts s = record s { error_count = 0; errors_by_category = [] }

-- `if category not in d: d[category] = 0`, then `d[category] += 1`
unfoldable pub bump : Str → List (Str × ℕ) → List (Str × ℕ)
bump k [] = (k, 1) ∷ []
bump k ((j, n) ∷ d) = if str_eq j k then (j, n + 1) ∷ d else (j, n) ∷ bump k d

-- `category.split('/')[0]`
first_piece : List Str → Str
first_piece [] = []
first_piece (w ∷ ws) = w

unfoldable pub top_level : Str → Str
unfolding first_piece
top_level category = first_piece (split_on b'/' category)

unfoldable pub increment_error_count : Str → LintState → LintState
increment_error_count category s =
    let detailed = str_eq s.counting (txt "detailed") in
    if str_eq s.counting (txt "toplevel") || detailed
    then record s {
      error_count = s.error_count + 1;
      errors_by_category =
          bump (if not detailed then top_level category else category) s.errors_by_category;
    }
    else record s { error_count = s.error_count + 1 }

category_line : Str → ℕ → Str
category_line category count =
    txt "Category '" ++ (category ++ (txt "' errors found: " ++ (show count ++ txt "\n")))

category_lines : List (Str × ℕ) → Str
unfolding category_line
category_lines [] = []
category_lines ((category, count) ∷ d) = category_line category count ++ category_lines d

-- `PrintErrorCounts`: what is written to standard error. A dictionary has its entries in the order
-- of this list, which is one of those that Python's own may have.
unfoldable pub print_error_counts : LintState → Str
unfolding category_lines
print_error_counts s =
    category_lines s.errors_by_category
    ++ (txt "Total errors found: " ++ (show s.error_count ++ txt "\n"))
