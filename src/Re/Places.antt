-- ===== src/Re/Places.antt =====
-- The places in a line that a match goes through, one behind the other.
use dyod_ws.Base.{
  ℕ, zero, suc, ◌-◌, ◌≤◌, Bool, true, ◌≡◌, ◌∙◌, refl, sym, ap, Option, some, [], ◌∷◌, ◌++◌, arith,
  length, drop, inl, inr, Bool-cases,
}
use dyod_ws.Base.Text.{Str}
use dyod_ws.Re.{Re, Cursor, seq, one, group, step, run}
use dyod_ws.Re.Sound.{plain, run-Sound}

drop-nil : (n : ℕ) → drop {A = ℕ} n [] ≡ []
drop-nil zero = refl
drop-nil (suc n) = refl

pub drop-drop : (i j : ℕ) (s : Str) → i ≤ j → drop (j - i) (drop i s) ≡ drop j s
drop-drop zero j s l = ap (λ n. drop n s) (omega arith)
drop-drop (suc i) zero s l = absurd (omega arith)
drop-drop (suc i) (suc j) [] l = drop-nil (suc j - suc i)
drop-drop (suc i) (suc j) (c ∷ s) l =
    let e : suc j - suc i ≡ j - i = omega arith in rw e (drop-drop i j s (omega arith))

pub drop-append : (v w : Str) → drop (length v) (v ++ w) ≡ w
drop-append [] w = refl
drop-append (c ∷ v) w = drop-append v w

-- What a step reads, and the cursor behind it.
pub step-cursor :
    (p : ℕ → Bool) (rest : Str) (s : Cursor) (k : Cursor → Option Cursor) {t : Cursor}
    → step p rest s k ≡ some t
    → (c : ℕ) × (v : Str) × (rest ≡ c ∷ v)
      × (p c ≡ true)
      × (k (record s { before = c ∷ s.before; after = v }) ≡ some t)
unfolding step
step-cursor p [] s k h = cc
step-cursor p (c ∷ v) s k h = elim (Bool-cases (p c)) [
  | inl y ↦ (c, v, refl, y, rw y at h)
  | inr n ↦ absurd (let h' = rw n at h in cc)
]

-- A place in the line.
abbrev pub At : Str → Cursor → Type 0
At line s = s.after ≡ drop (length s.before) line

-- The place behind what a pattern reads.
pub run-At :
    (line : Str) (r : Re) (s : Cursor) (k : Cursor → Option Cursor) (t : Cursor)
    → At line s
    → run r s k ≡ some t
    → (u : Cursor) × At line u
      × (length s.before ≤ length u.before)
      × (plain r ≡ true → u.groups ≡ s.groups)
      × (k u ≡ some t)
run-At line r s k t a h =
    let (u, q, e) = run-Sound r s k t h in
    let there : drop (length q.piece) (q.piece ++ u.after) ≡ u.after =
      drop-append q.piece u.after in
    let far = drop-drop (length s.before) (length u.before) line (omega (arith, q.moved)) in
    let n : length u.before - length s.before ≡ length q.piece = omega (arith, q.moved) in
    (
      u,
      sym there ∙ ap (drop (length q.piece)) (sym q.splits ∙ a) ∙ (rw n at far),
      omega (arith, q.moved),
      q.groups_kept,
      e,
    )

-- The place behind the first of two patterns.
pub seq-At :
    (line : Str) (a b : Re) (s : Cursor) (k : Cursor → Option Cursor) (t : Cursor)
    → At line s
    → run (seq a b) s k ≡ some t
    → (u : Cursor) × At line u
      × (length s.before ≤ length u.before)
      × (plain a ≡ true → u.groups ≡ s.groups)
      × (run b u k ≡ some t)
unfolding run
seq-At line a b s k t at h = run-At line a s (λ u. run b u k) t at h

-- The place behind the first character of a text and another pattern.
pub char-At :
    (line : Str) (c : ℕ) (a b : Re) (s : Cursor) (k : Cursor → Option Cursor) (t : Cursor)
    → At line s
    → run (seq (seq (one c) a) b) s k ≡ some t
    → (u : Cursor) × At line u
      × (length s.before ≤ length u.before)
      × (u.groups ≡ s.groups)
      × (run (seq a b) u k ≡ some t)
unfolding run plain
char-At line c a b s k t at h =
    let (u, a', l, g, q) = seq-At line (one c) (seq a b) s k t at h in (u, a', l, g refl, q)

-- The run of a group with what follows.
pub group-run :
    (n : ℕ) (a b : Re) (s : Cursor) (k : Cursor → Option Cursor) (t : Cursor)
    → run (seq (group n a) b) s k ≡ some t
    → run a s
        (λ u. run b (record u { groups = (n, length s.before, length u.before) ∷ u.groups }) k)
      ≡ some t
unfolding run
group-run n a b s k t h = h
