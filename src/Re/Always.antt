-- ===== src/Re/Always.antt =====
-- Patterns that match every text without a newline.
use dyod_ws.Base.{
  ℕ, zero, suc, ◌<◌, false, ◌≡◌, refl, Option, none, some, List, [], ◌∷◌, arith, length, ◌==◌, ◌&&◌,
  leb,
}
use dyod_ws.Base.Text.{Str, has}
use dyod_ws.Re.{
  Re, seq, star, group, at_start, at_end, dot, dots, Cursor, Found, step, in_ranges, repeat, run,
  re_match, match_at, found, is_end,
}

or_else-some :
    (o p : Option Cursor) (t : Cursor)
    → p ≡ some t
    → (r : Cursor) × (elim o [ some r ↦ some r | none ↦ p ] ≡ some r)
or_else-some none p t h = (t, h)
or_else-some (some r) p t h = (r, refl)

-- A greedy star matches where what follows matches without it.
pub repeat-some :
    (m : Cursor → (Cursor → Option Cursor) → Option Cursor) (fuel : ℕ) (s t : Cursor)
    (k : Cursor → Option Cursor)
    → k s ≡ some t
    → (r : Cursor) × (repeat m fuel s k ≡ some r)
unfolding repeat
repeat-some m zero s t k h = (t, h)
repeat-some m (suc fuel) s t k h = or_else-some _ (k s) t h

-- `.*` matches where what follows matches at the end of the text.
pub dots-some :
    (fuel : ℕ) (before after : Str) (groups : List (ℕ × ℕ × ℕ)) (k : Cursor → Option Cursor)
    → has b'\n' after ≡ false
    → length after < fuel
    → ((u : Cursor) → u.after ≡ [] → (t : Cursor) × (k u ≡ some t))
    → (r : Cursor) × (repeat
          (λ t l. run dot t l)
          fuel
          (record { before = before; after = after; groups = groups })
          k
        ≡ some r)
unfolding repeat run step in_ranges has
dots-some zero before after groups k n l e = absurd (omega arith)
dots-some (suc fuel) before [] groups k n l e = e _ refl
dots-some (suc fuel) before (c ∷ after) groups k n l e =
    let (r, q) = dots-some fuel (c ∷ before) after groups k (ground arith) (omega arith) e in
    let passes : (leb 10 c && leb c 10) ≡ false = ground arith in
    let moved : (length after == suc (length after)) ≡ false = ground arith in
    (r, rw (repeat, run, step, passes, moved, q) refl)

-- `^(a*)(.*)$` matches every text without a newline.
pub star_dots-matches :
    (a : Re) (s : Str)
    → has b'\n' s ≡ false
    → (m : Found) × (re_match (seq at_start (seq (group 1 (star a)) (seq (group 2 dots) at_end))) s
        ≡ some m)
unfolding re_match match_at run found is_end
star_dots-matches a s n =
    let (t, e) =
      dots-some (suc (length s)) [] s ((1, 0, 0) ∷ [])
        (λ u. run at_end (record u { groups = (2, 0, length u.before) ∷ u.groups }) (λ v. some v)) n
        (omega arith)
        (λ u z.
          (record u { groups = (2, 0, length u.before) ∷ u.groups }, rw (run, z, is_end) refl)) in
    let (r, q) =
      repeat-some (λ u l. run a u l) (suc (length s))
        (record { before = []; after = s; groups = [] }) t
        (λ u.
          run (seq (group 2 dots) at_end) (record u { groups = (1, 0, length u.before) ∷ u.groups })
            (λ v. some v))
        e in
    (found s 0 r, rw (re_match, match_at, run, q) refl)
