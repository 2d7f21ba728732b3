-- ===== src/Style/Sections/Previous.antt =====
-- Which line `GetPreviousNonBlankLine` finds.
use dyod_ws.Base.{
  ℕ, zero, suc, ◌<◌, true, false, ◌≡◌, ◌⊎◌, Option, none, some, List, [], arith, get_or, Bool-cases,
  inl, inr, ◌==◌,
}
use dyod_ws.Base.Text.{Str, is_blank}
use dyod_ws.Style.Sections.{get_previous_non_blank_line}

-- The answer, when the lines from `from` up to `linenum` are known: `none` where all lines before are
-- blank, and else a line that is not blank, with only blank lines between it and line `linenum`.
pub data Finds (elided : List Str) (linenum : ℕ) : Option (Str × ℕ) → Type 0 where
  all_blank :
      ((i : ℕ) → i < linenum → is_blank (get_or elided i []) ≡ true) → Finds elided linenum none
  last_line :
      (i : ℕ)
      → i < linenum
      → is_blank (get_or elided i []) ≡ false
      → ((j : ℕ) → i < j → j < linenum → is_blank (get_or elided j []) ≡ true)
      → Finds elided linenum (some (get_or elided i [], i))

below-suc : (i n : ℕ) → i < suc n → (i ≡ n) ⊎ (i < n)
below-suc i n h = elim (Bool-cases (i == n)) [
  | inl y ↦ inl (ground arith)
  | inr k ↦ inr (ground arith)
]

-- One more blank line.
Finds-suc :
    (elided : List Str) (n : ℕ) (a : Option (Str × ℕ))
    → is_blank (get_or elided n []) ≡ true
    → Finds elided n a
    → Finds elided (suc n) a
Finds-suc elided n _ b (all_blank f) =
    all_blank (λ i h. elim (below-suc i n h) [ inl e ↦ rw e b | inr l ↦ f i l ])
Finds-suc elided n _ b (last_line i l c f) =
    last_line i (omega arith) c
      (λ j h k. elim (below-suc j n k) [ inl e ↦ rw e b | inr m ↦ f j h m ])

-- `GetPreviousNonBlankLine` gives the nearest line in front of the given one that is not blank, with its
-- number, and the answer for "none" exactly where all lines in front are blank.
pub get_previous_non_blank_line-Finds :
    (elided : List Str) (linenum : ℕ)
    → Finds elided linenum (get_previous_non_blank_line elided linenum)
unfolding get_previous_non_blank_line
get_previous_non_blank_line-Finds elided zero = all_blank (λ i h. absurd (omega arith))
get_previous_non_blank_line-Finds elided (suc n) =
    elim (Bool-cases (is_blank (get_or elided n []))) [
      | inl y ↦ rw y (Finds-suc elided n _ y (get_previous_non_blank_line-Finds elided n))
      | inr k ↦ rw k (last_line n (omega arith) k (λ j h l. absurd (omega arith)))
    ]
