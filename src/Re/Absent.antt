-- ===== src/Re/Absent.antt =====
-- A pattern that asks for a character matches nowhere in a text without it.
use dyod_ws.Base.{
  ℕ, suc, zero, true, false, none, [], ◌∷◌, ◌≡◌, ap, arith, Option-cases, length, inl, inr, refl,
}
use dyod_ws.Base.Text.{Str, has}
use dyod_ws.Re.{Re, match_at, search_from, re_search, re_match, Found, sub_from, re_sub}
use dyod_ws.Re.Sound.{requires, run-Sound, has-append}

module _ (c : ℕ) (r : Re) (needed : requires c r ≡ true) where
  -- Nothing matches where a required character is missing.
  match_at-none : (before after : Str) → has c after ≡ false → match_at r before after ≡ none
  unfolding match_at
  match_at-none before after h = elim (Option-cases (match_at r before after)) [
    | inl e ↦ e
    | inr (t, e) ↦
        let (u, q, _) = run-Sound r _ _ t e in
        let held = q.holds c needed in
        absurd (ground (arith, has-append c q.piece u.after, q.splits, ap (has c) q.splits))
  ]

  pub re_match-none : (s : Str) → has c s ≡ false → re_match r s ≡ none
  unfolding re_match
  re_match-none s h = rw (match_at-none [] s h, re_match)

  search_from-none : (before s : Str) → has c s ≡ false → search_from r before s ≡ none
  unfolding search_from has
  search_from-none before [] h = rw (match_at-none before [] h, search_from)
  search_from-none before (d ∷ s) h =
      rw (match_at-none before (d ∷ s) h, search_from)
        (search_from-none (d ∷ before) s (ground arith))

  pub re_search-none : (s : Str) → has c s ≡ false → re_search r s ≡ none
  unfolding re_search
  re_search-none s h = rw (search_from-none [] s h, re_search)

  sub_from-none :
      (fuel : ℕ) (rep : Found → Str) (before s : Str)
      → has c s ≡ false
      → sub_from fuel r rep before s ≡ s
  unfolding sub_from has
  sub_from-none zero rep before s h = refl
  sub_from-none (suc fuel) rep before [] h = rw (match_at-none before [] h, sub_from)
  sub_from-none (suc fuel) rep before (d ∷ s) h =
      rw (match_at-none before (d ∷ s) h, sub_from)
        (ap (λ x. d ∷ x) (sub_from-none fuel rep (d ∷ before) s (ground arith)))

  pub re_sub-none : (rep : Found → Str) (s : Str) → has c s ≡ false → re_sub r rep s ≡ s
  unfolding re_sub
  re_sub-none rep s h = sub_from-none (suc (length s)) rep [] s h
