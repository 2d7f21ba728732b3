-- ===== src/LintState/Filters.antt =====
-- The filter list: every filter that is accepted has a sign.
use dyod_ws.Base.{
  true, ◌≡◌, refl, none, List, [], ◌∷◌, ◌++◌, All, Bool-cases, inl, inr, ◌⊎◌, ◌↔◌, Option, some, ap,
  arith, ltb, length, if◌then◌else◌, ◌==◌,
}
use dyod_ws.Base.Text.{Str, split_on, strip, txt, starts_with}
use dyod_ws.Categories.{default_filters}
use dyod_ws.LintState.{
  LintState, init, has_sign, bad_filter, clean_filters, add_filters, set_filters, backup_filters,
  restore_filters,
}

-- All filters begin with `+` or `-`.
abbrev pub Signed : List Str → Type 0
Signed = All (λ f. has_sign f ≡ true)

-- The filters in use and those that a restore brings back are signed.
pub record IsSigned (s : LintState) : Type 0 where
  pub current : Signed s.filters
  pub backup : Signed s.filters_backup

bad_filter-none : (fs : List Str) → bad_filter fs ≡ none → Signed fs
unfolding bad_filter
bad_filter-none [] h = tt
bad_filter-none (f ∷ fs) h = elim (Bool-cases (has_sign f)) [
  | inl e ↦ (e, bad_filter-none fs (rw e at h))
  | inr e ↦ absurd (let h' = rw e at h in cc)
]

pub init-IsSigned : IsSigned init
unfolding init default_filters has_sign
init-IsSigned = record { current = (refl, tt); backup = (refl, tt) }

add_filters-IsSigned :
    (filters : Str) (s : LintState)
    → IsSigned s
    → (add_filters filters s).1 ≡ none
    → IsSigned (add_filters filters s).0
unfolding add_filters
add_filters-IsSigned filters s v h = record {
  current = bad_filter-none (s.filters ++ clean_filters (split_on b',' filters)) h;
  backup = v.backup;
}

pub set_filters-IsSigned :
    (filters : Str) (s : LintState)
    → IsSigned s
    → (set_filters filters s).1 ≡ none
    → IsSigned (set_filters filters s).0
unfolding set_filters
set_filters-IsSigned filters s v h = record {
  current = bad_filter-none (default_filters ++ clean_filters (split_on b',' filters)) h;
  backup = v.backup;
}

pub backup_filters-IsSigned : {s : LintState} → IsSigned s → IsSigned (backup_filters s)
unfolding backup_filters
backup_filters-IsSigned v = record { current = v.current; backup = v.current }

pub restore_filters-IsSigned : {s : LintState} → IsSigned s → IsSigned (restore_filters s)
unfolding restore_filters
restore_filters-IsSigned v = record { current = v.backup; backup = v.backup }

-- The non-empty pieces between the commas, stripped.
pub pieces : List Str → List Str
pieces [] = []
pieces (w ∷ ws) = if ltb 0 (length (strip w)) then strip w ∷ pieces ws else pieces ws

pieces-clean : (ws : List Str) → clean_filters ws ≡ pieces ws
unfolding clean_filters pieces
pieces-clean [] = refl
pieces-clean (w ∷ ws) = by_strip (pieces-clean ws) (strip w)
  where
    by_strip :
        (rest : clean_filters ws ≡ pieces ws) (p : Str)
        → elim p [ [] ↦ clean_filters ws | c ∷ q ↦ (c ∷ q) ∷ clean_filters ws ]
          ≡ (if ltb 0 (length p) then p ∷ pieces ws else pieces ws)
    by_strip rest [] = rest
    by_strip rest (c ∷ q) =
        let y : ltb 0 (length (c ∷ q)) ≡ true = ground arith in rw y (ap (λ l. (c ∷ q) ∷ l) rest)

-- Begins with a sign.
abbrev pub BeginsWithSign : Str → Type 0
BeginsWithSign f = (w : Str) × ((f ≡ b'+' ∷ w) ⊎ (f ≡ b'-' ∷ w))

has_sign_iff : (f : Str) → (has_sign f ≡ true) ↔ BeginsWithSign f
unfolding has_sign starts_with txt
has_sign_iff [] = (λ h. absurd cc, λ (w, h). absurd (ground arith))
has_sign_iff (c ∷ w) = (to, from)
  where
    to : has_sign (c ∷ w) ≡ true → BeginsWithSign (c ∷ w)
    to h = elim (Bool-cases (c == b'+')) [
      | inl y ↦ let e : c ≡ b'+' = ground arith in (w, inl (ap (λ d. d ∷ w) e))
      | inr n ↦ let e : c ≡ b'-' = ground arith in (w, inr (ap (λ d. d ∷ w) e))
    ]

    from : BeginsWithSign (c ∷ w) → has_sign (c ∷ w) ≡ true
    from (v, inl e) = ground arith
    from (v, inr e) = ground arith

-- What is said of a list of filters: nothing if all begin with a sign, and else the first that does
-- not.
abbrev pub Accounts : List Str → Option Str → Type 0
Accounts fs none = All BeginsWithSign fs
Accounts fs (some bad) =
    (before : List Str) × (after : List Str) × (fs ≡ before ++ (bad ∷ after))
    × All BeginsWithSign before
    × (¬ (BeginsWithSign bad))

bad_filter-Accounts : (fs : List Str) → Accounts fs (bad_filter fs)
unfolding bad_filter
bad_filter-Accounts [] = tt
bad_filter-Accounts (f ∷ fs) =
    let (to, from) = has_sign_iff f in
    elim (Bool-cases (has_sign f)) [
      | inl y ↦ rw y (later (bad_filter fs) (to y) (bad_filter-Accounts fs))
      | inr n ↦ rw n ([], fs, refl, tt, λ s. let h = from s in cc)
    ]
  where
    later : (o : Option Str) → BeginsWithSign f → Accounts fs o → Accounts (f ∷ fs) o
    later none s a = (s, a)
    later (some bad) s (before, after, e, a, n) = (f ∷ before, after, ap (λ l. f ∷ l) e, (s, a), n)

-- `AddFilters` puts the non-empty pieces, stripped, behind the filters there are and changes nothing
-- else, whether it raises or not; it raises exactly if one of all these filters begins with no sign,
-- and names the first that does not.
pub add_filters-Accounts :
    (filters : Str) (s : LintState)
    → ((add_filters filters s).0
        ≡ record s { filters = s.filters ++ pieces (split_on b',' filters) })
      × Accounts (s.filters ++ pieces (split_on b',' filters)) (add_filters filters s).1
unfolding add_filters
add_filters-Accounts filters s =
    rw (← pieces-clean (split_on b',' filters))
      (refl, bad_filter-Accounts (s.filters ++ clean_filters (split_on b',' filters)))
