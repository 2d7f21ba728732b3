-- ===== src/LintState/Store.antt =====
-- The filter lists of `_CppLintState` as Python's list objects: `append` changes a list in place for
-- all that refer to it, and the slices `[:]` make copies. The operations on values in LintState are
-- what these come to.
use dyod_ws.Base.{
  ℕ, ◌+◌, ◌<◌, ◌≡◌, ◌≢◌, refl, ap, ◌∙◌, Option, List, [], ◌∷◌, ◌++◌, ◌==◌, arith, if◌then◌else◌,
}
use dyod_ws.Base.Text.{Str, split_on}
use dyod_ws.Categories.{default_filters}
use dyod_ws.LintState.{LintState, clean_filters, bad_filter}
use dyod_ws.LintState

-- The lists by reference, the next reference that is free, and those of `filters` and
-- `_filters_backup`. Reference 0 is `_DEFAULT_FILTERS`.
pub record Store : Type 0 where
  pub next : ℕ
  pub cells : ℕ → List Str
  pub filters : ℕ
  pub filters_backup : ℕ

abbrev update : (ℕ → List Str) → ℕ → List Str → ℕ → List Str
update f p v q = if p == q then v else f q

-- `self.filters = a[:]`
unfoldable pub copy_to_filters : ℕ → Store → Store
copy_to_filters a s = record s {
  next = s.next + 1;
  cells = update s.cells s.next (s.cells a);
  filters = s.next;
}

-- `AddFilters`: the list that `filters` refers to grows in place.
unfoldable pub add_filters : Str → Store → Store × Option Str
add_filters filters s =
    let all = s.cells s.filters ++ clean_filters (split_on b',' filters) in
    (record s { cells = update s.cells s.filters all }, bad_filter all)

unfoldable pub set_filters : Str → Store → Store × Option Str
unfolding add_filters copy_to_filters
set_filters filters s = add_filters filters (copy_to_filters 0 s)

unfoldable pub backup_filters : Store → Store
backup_filters s = record s {
  next = s.next + 1;
  cells = update s.cells s.next (s.cells s.filters);
  filters_backup = s.next;
}

unfoldable pub restore_filters : Store → Store
unfolding copy_to_filters
restore_filters s = copy_to_filters s.filters_backup s

-- The calls of the methods.
pub data FilterCall : Type 0 where
  adds : Str → FilterCall
  sets : Str → FilterCall
  backs_up : FilterCall
  restores : FilterCall

unfoldable pub apply : FilterCall → Store → Store
unfolding add_filters set_filters backup_filters restore_filters
apply (adds filters) s = (add_filters filters s).0
apply (sets filters) s = (set_filters filters s).0
apply backs_up s = backup_filters s
apply restores s = restore_filters s

pub apply_all : List FilterCall → Store → Store
unfolding apply
apply_all [] s = s
apply_all (c ∷ cs) s = apply_all cs (apply c s)

-- The same calls on values.
pub on_value : FilterCall → LintState → LintState
on_value (adds filters) s = (LintState.add_filters filters s).0
on_value (sets filters) s = (LintState.set_filters filters s).0
on_value backs_up s = LintState.backup_filters s
on_value restores s = LintState.restore_filters s

pub on_values : List FilterCall → LintState → LintState
unfolding on_value
on_values [] s = s
on_values (c ∷ cs) s = on_values cs (on_value c s)

-- The references in use are given out, and no two of the three lists are one object; the default
-- filters are as they were.
pub record Separate (s : Store) : Type 0 where
  pub filters_given : s.filters < s.next
  pub backup_given : s.filters_backup < s.next
  pub apart : s.filters ≢ s.filters_backup
  pub filters_own : s.filters ≢ 0
  pub backup_own : s.filters_backup ≢ 0
  pub defaults_kept : s.cells 0 ≡ default_filters

-- The state with the filters that the references lead to.
pub view : LintState → Store → LintState
view base s = record base { filters = s.cells s.filters; filters_backup = s.cells s.filters_backup }

module _ (s : Store) (v : Separate s) where
  copy_to_filters-Separate : (a : ℕ) → Separate (copy_to_filters a s)
  unfolding copy_to_filters
  copy_to_filters-Separate a = record {
    filters_given = omega arith;
    backup_given = omega (arith, v.backup_given);
    apart = omega (arith, v.backup_given);
    filters_own = omega (arith, v.filters_given);
    backup_own = v.backup_own;
    defaults_kept = ground (arith, v.defaults_kept, v.filters_given);
  }

  add_filters-Separate : (filters : Str) → Separate (add_filters filters s).0
  unfolding add_filters
  add_filters-Separate filters = record {
    filters_given = v.filters_given;
    backup_given = v.backup_given;
    apart = v.apart;
    filters_own = v.filters_own;
    backup_own = v.backup_own;
    defaults_kept = ground (arith, v.defaults_kept, v.filters_own);
  }

  backup_filters-Separate : Separate (backup_filters s)
  unfolding backup_filters
  backup_filters-Separate = record {
    filters_given = omega (arith, v.filters_given);
    backup_given = omega arith;
    apart = omega (arith, v.filters_given);
    filters_own = v.filters_own;
    backup_own = omega (arith, v.filters_given);
    defaults_kept = ground (arith, v.defaults_kept, v.filters_given);
  }

  add_filters-view :
      (base : LintState) (filters : Str)
      → view base (add_filters filters s).0 ≡ (LintState.add_filters filters (view base s)).0
  unfolding add_filters view LintState.add_filters
  add_filters-view base filters = ground (arith, v.apart)

  copy_to_filters-view :
      (base : LintState) (a : ℕ)
      → view base (copy_to_filters a s) ≡ record (view base s) { filters = s.cells a }
  unfolding copy_to_filters view
  copy_to_filters-view base a = ground (arith, v.backup_given)

  backup_filters-view :
      (base : LintState) → view base (backup_filters s) ≡ LintState.backup_filters (view base s)
  unfolding backup_filters view LintState.backup_filters
  backup_filters-view base = ground (arith, v.filters_given)

apply-Separate : (s : Store) (c : FilterCall) → Separate s → Separate (apply c s)
unfolding apply set_filters restore_filters
apply-Separate s (adds filters) v = add_filters-Separate s v filters
apply-Separate s (sets filters) v =
    add_filters-Separate (copy_to_filters 0 s) (copy_to_filters-Separate s v 0) filters
apply-Separate s backs_up v = backup_filters-Separate s v
apply-Separate s restores v = copy_to_filters-Separate s v s.filters_backup

apply-view :
    (base : LintState) (s : Store) (c : FilterCall)
    → Separate s
    → view base (apply c s) ≡ on_value c (view base s)
unfolding apply on_value set_filters restore_filters view LintState.restore_filters
    LintState.set_filters
apply-view base s (adds filters) v = add_filters-view s v base filters
apply-view base s (sets filters) v =
    add_filters-view (copy_to_filters 0 s) (copy_to_filters-Separate s v 0) base filters
    ∙ ap (λ t. (LintState.add_filters filters t).0)
        (copy_to_filters-view s v base 0
          ∙ ap (λ fs. record (view base s) { filters = fs }) v.defaults_kept)
apply-view base s backs_up v = backup_filters-view s v base
apply-view base s restores v = copy_to_filters-view s v base s.filters_backup

-- From separate lists on, whatever calls are made, raising or not, the lists stay separate, and the filters and their backup are those that
-- the calls give on values: an addition in place never shows in the backup or in the default filters.
pub apply_all-view :
    (base : LintState) (cs : List FilterCall) (s : Store)
    → Separate s
    → Separate (apply_all cs s) × (view base (apply_all cs s) ≡ on_values cs (view base s))
unfolding apply_all on_values
apply_all-view base [] s v = (v, refl)
apply_all-view base (c ∷ cs) s v =
    let (w, e) = apply_all-view base cs (apply c s) (apply-Separate s c v) in
    (w, e ∙ ap (on_values cs) (apply-view base s c v))
