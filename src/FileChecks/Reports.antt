-- ===== src/FileChecks/Reports.antt =====
-- What the whole-file checks report, and the indentation level against a direct count.
use dyod_ws.Base.{ℕ, ◌+◌, false, ◌≡◌, refl, ◌↔◌, List, [], ◌∷◌, ◌++◌, arith, All}
use dyod_ws.Base.Text.{Str, has}
use dyod_ws.FileChecks.{bad_characters_in, bad_characters_from, check_for_bad_characters}
use dyod_ws.Report.{Report}

-- Neither the replacement character nor NUL.
abbrev pub IsClean : Str → Type 0
IsClean line = (has 0xfffd line ≡ false) × (has 0 line ≡ false)

bad_characters_in_iff :
    (filename : Str) (linenum : ℕ) (line : Str)
    → (bad_characters_in filename linenum line ≡ []) ↔ IsClean line
unfolding bad_characters_in
bad_characters_in_iff filename linenum line =
    (λ e. (ground arith, ground arith), λ h. ground (arith, h.0, h.1))

append-nil_iff : (xs ys : List Report) → (xs ++ ys ≡ []) → (xs ≡ []) × (ys ≡ [])
append-nil_iff [] ys h = (refl, h)
append-nil_iff (x ∷ xs) ys h = absurd cc

bad_characters_from_iff :
    (filename : Str) (linenum : ℕ) (lines : List Str)
    → (bad_characters_from filename linenum lines ≡ []) ↔ All IsClean lines
unfolding bad_characters_from
bad_characters_from_iff filename linenum [] = (λ e. tt, λ a. refl)
bad_characters_from_iff filename linenum (line ∷ lines) =
    let here = bad_characters_in_iff filename linenum line in
    let rest = bad_characters_from_iff filename (linenum + 1) lines in
    (
      λ e. let (a, b) = append-nil_iff _ _ e in (here.0 a, rest.0 b),
      λ a. rw (here.1 a.0, rest.1 a.1),
    )

-- Bad characters are reported exactly if some line has one.
pub check_for_bad_characters_iff :
    (filename : Str) (lines : List Str)
    → (check_for_bad_characters filename lines ≡ []) ↔ All IsClean lines
unfolding check_for_bad_characters
check_for_bad_characters_iff filename lines = bad_characters_from_iff filename 0 lines
