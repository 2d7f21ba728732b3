-- ===== src/Re/Pieces.antt =====
-- The pieces that a match is cut into: the groups of a pattern that is a sequence of them, in order.
use mathlib.Core.Option.{some-injective}
use dyod_ws.Base.{
  ℕ, zero, suc, ◌+◌, ◌-◌, ◌≤◌, true, none, some, List, ◌∷◌, [], ◌≡◌, ◌∙◌, refl, ap, sym, arith,
  Option-cases, length, length-drop, take, drop, inl, inr, ◌==◌, if◌then◌else◌,
}
use dyod_ws.Base.Text.{Str}
use dyod_ws.Re.{
  Re, seq, group, Cursor, run, match_at, re_match, Found, group_in, group_of, group_text, found,
}
use dyod_ws.Re.Rest.{width, run-Beyond, length-take_le}
use dyod_ws.Re.Sound.{plain}

-- A part of a pattern: what is passed over, or a group with its number; with its least width.
pub data Part : Type 0 where
  skip : ℕ → Part
  grab : ℕ → ℕ → Part

-- The pattern is the sequence of the parts.
pub data Spine : Re → List Part → Type 0 where
  done : {r : Re} → plain r ≡ true → Spine r []
  skips :
      {b : Re} {ps : List Part} (a : Re)
      → plain a ≡ true
      → Spine b ps
      → Spine (seq a b) (skip (width a) ∷ ps)
  grabs :
      {b : Re} {ps : List Part} (n : ℕ) (a : Re)
      → plain a ≡ true
      → Spine b ps
      → Spine (seq (group n a) b) (grab n (width a) ∷ ps)

-- The places at which the parts end, from `i` on in a text of `total` characters; `gs` are the groups
-- before, and `gs'` behind.
abbrev pub Cut : List Part → ℕ → ℕ → List (ℕ × ℕ × ℕ) → List (ℕ × ℕ × ℕ) → Type 0
Cut [] total i gs gs' = gs' ≡ gs
Cut (skip w ∷ ps) total i gs gs' = (j : ℕ) × (w + i ≤ j) × (j ≤ total) × Cut ps total j gs gs'
Cut (grab n w ∷ ps) total i gs gs' =
    (j : ℕ) × (w + i ≤ j) × (j ≤ total) × Cut ps total j ((n, i, j) ∷ gs) gs'

run-Cut :
    {r : Re} {ps : List Part} (s t : Cursor)
    → Spine r ps
    → run r s (λ u. some u) ≡ some t
    → Cut ps (length s.before + length s.after) (length s.before) s.groups t.groups
unfolding run
run-Cut {r} s t (done q) h =
    let (u, l, e, g, k) = run-Beyond r s _ t h in
    sym (ap (λ (c : Cursor). c.groups) (some-injective _ _ k)) ∙ g q
run-Cut s t (skips a q z) h =
    let (u, l, e, g, k) = run-Beyond a s _ t h in
    (length u.before, l, omega (arith, e), rw (e, g q) at (run-Cut u t z k))
run-Cut s t (grabs n a q z) h =
    let (u, l, e, g, k) = run-Beyond a s _ t h in
    (
      length u.before,
      l,
      omega (arith, e),
      rw (e, g q) at
          (run-Cut (record u { groups = (n, length s.before, length u.before) ∷ u.groups }) t z k),
    )

pub re_match-Cut :
    {r : Re} {ps : List Part} (line : Str) (m : Found)
    → Spine r ps
    → re_match r line ≡ some m
    → Cut ps (length line) 0 [] m.groups × (m.text ≡ line)
unfolding re_match match_at found
re_match-Cut {r} line m z h = elim (Option-cases (match_at r [] line)) [
  | inl e ↦ absurd (let h' = rw (re_match, e) at h in cc)
  | inr (t, e) ↦
      let is_m : found line 0 t ≡ m = some-injective _ _ (rw (re_match, e) at h) in
      let zero_add : 0 + length line ≡ length line = omega arith in
      let c = rw zero_add at (run-Cut _ t z e) in
      (rw (ap (λ (x : Found). x.groups) is_m) at c, sym (ap (λ (x : Found). x.text) is_m))
]

-- The text of a group in a list of groups.
abbrev pub text_in : ℕ → Str → List (ℕ × ℕ × ℕ) → Str
text_in n text [] = []
text_in n text ((k, i, j) ∷ gs) = if k == n then take (j - i) (drop i text) else text_in n text gs

group_in-text_in :
    (n : ℕ) (text : Str) (gs : List (ℕ × ℕ × ℕ))
    → (elim (group_in n text gs) [ some s ↦ s | none ↦ [] ]) ≡ text_in n text gs
unfolding group_in
group_in-text_in n text [] = refl
group_in-text_in n text ((k, i, j) ∷ gs) = ground (arith, group_in-text_in n text gs)

pub group_text-text_in :
    (n : ℕ) (m : Found) (text : Str) (gs : List (ℕ × ℕ × ℕ))
    → m.text ≡ text
    → m.groups ≡ gs
    → group_text n m ≡ text_in n text gs
unfolding group_text group_of
group_text-text_in n m text gs e f =
    let base : group_text n m ≡ text_in n m.text m.groups = group_in-text_in n m.text m.groups in
    base ∙ (ap (λ t. text_in n t m.groups) e ∙ ap (text_in n text) f)

take-count : (n : ℕ) (v : Str) → length (take n v) ≤ n
take-count zero v = omega arith
take-count (suc n) [] = omega arith
take-count (suc n) (c ∷ v) = omega (arith, take-count n v)

-- A piece is no longer than the distance of its ends, and no longer than what is left of the text.
pub piece-le :
    (i j : ℕ) (text : Str)
    → (length (take (j - i) (drop i text)) ≤ j - i)
      × (length (take (j - i) (drop i text)) ≤ length text - i)
piece-le i j text = (
  take-count (j - i) (drop i text),
  omega (arith, length-take_le (j - i) (drop i text), length-drop i text),
)

-- The run that a match comes from.
pub re_match-run :
    (r : Re) (line : Str) (m : Found)
    → re_match r line ≡ some m
    → (t : Cursor) × (run r (record { before = []; after = line; groups = [] }) (λ u. some u)
        ≡ some t)
      × (m.text ≡ line)
      × (m.groups ≡ t.groups)
unfolding re_match match_at found
re_match-run r line m h = elim (Option-cases (match_at r [] line)) [
  | inl e ↦ absurd (let h' = rw (re_match, e) at h in cc)
  | inr (t, e) ↦
      let is_m : found line 0 t ≡ m = some-injective _ _ (rw (re_match, e) at h) in
      (t, e, sym (ap (λ (x : Found). x.text) is_m), sym (ap (λ (x : Found). x.groups) is_m))
]
