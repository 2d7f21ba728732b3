-- ===== src/Emit/Decision.antt =====
-- Which reports are printed.
use dyod_ws.Base.{
  ℕ, ◌≤◌, ◌&&◌, ◌==◌, ◌≢◌, All, Option-cases, Bool, true, false, ◌≡◌, refl, ◌↔◌, Option, none, some,
  List, [], ◌∷◌, ◌++◌, arith, drop, if◌then◌else◌, Bool-cases, inl, inr,
}
use dyod_ws.Base.Text.{Str, txt, starts_with, is_one_of, str_eq}
use dyod_ws.Base.TextLaws.{str_eq_iff}
use dyod_ws.LintState.{LintState, has_sign}
use dyod_ws.LintState.Filters.{Signed}
use dyod_ws.Nolint.{Suppressions, same_key, suppressed_at, is_error_suppressed_by_nolint}
use dyod_ws.Emit.{filter_loop, should_print_error}

-- With signed filters the assertion in the loop does not fail.
pub filter_loop_total :
    (category : Str) (fs : List Str) (b : Bool)
    → Signed fs
    → (r : Bool) × (filter_loop category fs b ≡ some r)
unfolding filter_loop has_sign starts_with
filter_loop_total category [] b h = (b, refl)
filter_loop_total category ([] ∷ fs) b h = absurd (let e = h.0 in cc)
filter_loop_total category ((sign ∷ prefix) ∷ fs) b h =
    let hit = starts_with prefix category in
    let minus = filter_loop_total category fs (if hit then true else b) h.1 in
    let plus = filter_loop_total category fs (if hit then false else b) h.1 in
    elim (Bool-cases (starts_with (txt "-") (sign ∷ prefix))) [
      | inl e ↦ (minus.0, rw e minus.1)
      | inr e ↦ (plus.0, ground (arith, plus.1, h.0))
    ]

-- The verdict of one filter on a category, if it fits: `-` filters it out, `+` lets it through.
pub verdict : Str → Str → Option Bool
verdict category filter =
    if starts_with (drop 1 filter) category then some (starts_with (txt "-") filter) else none

-- The filter at the end of the list decides if it fits; where it does not, the others do.
pub filter_loop-last :
    (category : Str) (fs : List Str) (last : Str) (b : Bool)
    → Signed fs
    → has_sign last ≡ true
    → filter_loop category (fs ++ last ∷ []) b
      ≡ elim (verdict category last) [ some v ↦ some v | none ↦ filter_loop category fs b ]
unfolding filter_loop has_sign starts_with verdict
filter_loop-last category [] [] b h l = absurd cc
filter_loop-last category [] (sign ∷ prefix) b h l = ground arith
filter_loop-last category ([] ∷ fs) last b h l = absurd (let e = h.0 in cc)
filter_loop-last category ((sign ∷ prefix) ∷ fs) last b h l =
    let hit = starts_with prefix category in
    ground (
      arith,
      h.0,
      filter_loop-last category fs last (if hit then true else b) h.1 l,
      filter_loop-last category fs last (if hit then false else b) h.1 l,
    )

-- The verdict of the last filter that fits a category, if one does.
pub last_verdict : Str → List Str → Option Bool
last_verdict category [] = none
last_verdict category (f ∷ fs) = elim (last_verdict category fs) [
  | some v ↦ some v
  | none ↦ verdict category f
]

-- `b`, unless there is a verdict.
settled : Bool → Option Bool → Bool
settled b none = b
settled b (some v) = v

settled-step :
    (category f : Str) (fs : List Str) (b : Bool)
    → settled (settled b (verdict category f)) (last_verdict category fs)
      ≡ settled b (last_verdict category (f ∷ fs))
unfolding last_verdict settled
settled-step category f fs b = elim (Option-cases (last_verdict category fs)) [
  | inl e ↦ rw e refl
  | inr (v, e) ↦ rw e refl
]

filter_loop-last_verdict :
    (category : Str) (fs : List Str) (b : Bool)
    → Signed fs
    → filter_loop category fs b ≡ some (settled b (last_verdict category fs))
unfolding filter_loop has_sign starts_with verdict settled last_verdict
filter_loop-last_verdict category [] b h = refl
filter_loop-last_verdict category ([] ∷ fs) b h = absurd (let e = h.0 in cc)
filter_loop-last_verdict category ((sign ∷ prefix) ∷ fs) b h =
    let hit = starts_with prefix category in
    ground (
      arith,
      h.0,
      settled-step category (sign ∷ prefix) fs b,
      filter_loop-last_verdict category fs (if hit then true else b) h.1,
      filter_loop-last_verdict category fs (if hit then false else b) h.1,
    )

-- No directive for the whole file names the category, and no comment for the line names it or all.
pub Unsuppressed : Str → ℕ → Suppressions → Type 0
Unsuppressed category linenum s =
    All (λ g. category ≢ g) s.globals
    × All (λ e. e ≢ (some category, linenum)) s.lines
    × All (λ e. e ≢ (none, linenum)) s.lines

is_one_of_iff : (c : Str) (l : List Str) → (is_one_of c l ≡ false) ↔ All (λ g. c ≢ g) l
unfolding is_one_of
is_one_of_iff c [] = (λ h. tt, λ h. refl)
is_one_of_iff c (g ∷ l) =
    let (to, from) = is_one_of_iff c l in
    let (eq, hit) = str_eq_iff c g in
    (
      λ h. (λ e. let x = hit e in ground arith, to (ground arith)),
      λ h. elim (Bool-cases (str_eq c g)) [ inl y ↦ absurd (h.0 (eq y)) | inr n ↦ rw n (from h.1) ],
    )

same_entry_iff :
    (key a : Option Str) (n line : ℕ)
    → ((same_key a key && line == n) ≡ true) ↔ (◌≡◌ {A = Option Str × ℕ} (a, line) (key, n))
unfolding same_key
same_entry_iff none none n line = ground arith
same_entry_iff none (some a) n line = ground arith
same_entry_iff (some c) none n line = ground arith
same_entry_iff (some c) (some a) n line = ground (arith, str_eq_iff a c)

suppressed_at_iff :
    (key : Option Str) (n : ℕ) (l : List (Option Str × ℕ))
    → (suppressed_at key n l ≡ false) ↔ All (λ e. e ≢ (key, n)) l
unfolding suppressed_at
suppressed_at_iff key n [] = (λ h. tt, λ h. refl)
suppressed_at_iff key n ((a, line) ∷ l) =
    let (to, from) = suppressed_at_iff key n l in
    let (eq, hit) = same_entry_iff key a n line in
    (
      λ h. (λ e. let x = hit e in ground arith, to (ground arith)),
      λ h. elim (Bool-cases (same_key a key && line == n)) [
        | inl y ↦ absurd (h.0 (eq y))
        | inr n ↦ rw n (from h.1)
      ],
    )

Unsuppressed-iff :
    (category : Str) (linenum : ℕ) (s : Suppressions)
    → (is_error_suppressed_by_nolint category linenum s ≡ false) ↔ Unsuppressed category linenum s
unfolding is_error_suppressed_by_nolint Unsuppressed
Unsuppressed-iff category linenum s =
    let (g, g') = is_one_of_iff category s.globals in
    let (c, c') = suppressed_at_iff (some category) linenum s.lines in
    let (a, a') = suppressed_at_iff none linenum s.lines in
    (
      λ h. (g (ground arith), c (ground arith), a (ground arith)),
      λ (x, y, z). rw (g' x, c' y, a' z) refl,
    )

passes : (o : Option Bool) → (settled false o ≡ false) ↔ (o ≢ some true)
unfolding settled
passes none = (λ h e. cc, λ h. refl)
passes (some true) = (λ h. absurd cc, λ h. absurd (h refl))
passes (some false) = (λ h e. cc, λ h. refl)

-- With signed filters a report is printed exactly if no directive for the whole file names its
-- category, no comment for its line names the category or all of them, its confidence reaches the
-- verbosity, and the last filter that fits the category, if one does, does not begin with `-`.
pub should_print_error_iff :
    (category : Str) (confidence linenum : ℕ) (s : LintState) (suppressions : Suppressions)
    → Signed s.filters
    → (should_print_error category confidence linenum s suppressions ≡ some true) ↔ (
        Unsuppressed category linenum suppressions
        × (s.verbose_level ≤ confidence)
        × (last_verdict category s.filters ≢ some true))
unfolding should_print_error
should_print_error_iff category confidence linenum s suppressions h =
    let (free, free') = Unsuppressed-iff category linenum suppressions in
    let (pass, pass') = passes (last_verdict category s.filters) in
    let loop = filter_loop-last_verdict category s.filters false h in
    (
      λ p. (free (ground arith), ground arith, pass (ground (arith, loop))),
      λ (x, y, z). ground (arith, free' x, pass' z, loop),
    )
