-- ===== src/LintState/Counts.antt =====
-- The counts of errors by category add up to the count of errors.
use dyod_ws.Base.{ℕ, ◌+◌, true, ◌||◌, ◌≡◌, refl, List, [], ◌∷◌, arith, if◌then◌else◌}
use dyod_ws.Base.Text.{Str, txt, str_eq}
use dyod_ws.Base.TextLaws.{str_eq_iff}
use dyod_ws.LintState.{LintState, bump, top_level, reset_error_counts, increment_error_count}

abbrev pub total : List (Str × ℕ) → ℕ
total [] = 0
total ((k, n) ∷ d) = n + total d

-- `d.get(k, 0)`
pub count_of : Str → List (Str × ℕ) → ℕ
count_of k [] = 0
count_of k ((j, n) ∷ d) = if str_eq j k then n else count_of k d

pub count_of-bump :
    (k j : Str) (d : List (Str × ℕ))
    → count_of k (bump j d) ≡ (if str_eq j k then count_of k d + 1 else count_of k d)
unfolding count_of bump
count_of-bump k j [] = ground arith
count_of-bump k j ((i, n) ∷ d) =
    ground (arith, count_of-bump k j d, str_eq_iff j k, str_eq_iff i j, str_eq_iff i k)

total-bump : (k : Str) (d : List (Str × ℕ)) → total (bump k d) ≡ total d + 1
unfolding bump
total-bump k [] = omega arith
total-bump k ((j, n) ∷ d) = ground (arith, total-bump k d)

-- The counting styles that count by category.
abbrev pub ByCategory : LintState → Type 0
ByCategory s = (str_eq s.counting (txt "toplevel") || str_eq s.counting (txt "detailed")) ≡ true

-- The counts by category add up to the count of all errors.
abbrev pub IsBalanced : LintState → Type 0
IsBalanced s = total s.errors_by_category ≡ s.error_count

pub reset-IsBalanced : (s : LintState) → IsBalanced (reset_error_counts s)
unfolding reset_error_counts
reset-IsBalanced s = refl

-- Where errors are counted by category, one more error keeps the counts adding up to the total.
pub increment-IsBalanced :
    (category : Str) (s : LintState)
    → ByCategory s
    → IsBalanced s
    → IsBalanced (increment_error_count category s)
unfolding increment_error_count
increment-IsBalanced category s h b = ground (
  arith,
  total-bump category s.errors_by_category,
  total-bump (top_level category) s.errors_by_category,
)

-- In the style "detailed" one error raises the count of its own category by one and no other count.
pub count_of-increment :
    (category k : Str) (s : LintState)
    → str_eq s.counting (txt "detailed") ≡ true
    → count_of k (increment_error_count category s).errors_by_category ≡ (
        if str_eq category k
        then count_of k s.errors_by_category + 1
        else count_of k s.errors_by_category)
unfolding increment_error_count
count_of-increment category k s h = ground (arith, count_of-bump k category s.errors_by_category)

pub error_count-increment :
    (category : Str) (s : LintState)
    → (increment_error_count category s).error_count ≡ s.error_count + 1
unfolding increment_error_count
error_count-increment category s = ground arith

pub filters-increment :
    (category : Str) (s : LintState) → (increment_error_count category s).filters ≡ s.filters
unfolding increment_error_count
filters-increment category s = ground arith
