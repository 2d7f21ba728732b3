-- ===== src/Re/Rest.antt =====
-- The last group of a match: what is left of the line behind what the pattern asks for.
use mathlib.Core.Option.{some-injective}
use dyod_ws.Base.{
  ℕ, suc, ◌+◌, ◌-◌, ◌≤◌, Bool, true, Option, some, List, ◌∷◌, [], ◌≡◌, refl, ap, sym, ◌∙◌, zero,
  ◌==◌, arith, Option-cases, length, length-append, length-drop, take, drop, inl, inr, leb,
  if◌then◌else◌,
}
use dyod_ws.Base.Text.{Str}
use dyod_ws.Re.{
  Re, eps, one, set, except, seq, alt, star, lazy, group, at_start, at_end, boundary, ahead,
  not_ahead, Cursor, step, run, match_at, re_match, Found, group_of, group_in, group_text, found,
}
use dyod_ws.Re.Sound.{Ends, plain, run-Sound, step-Ends}

-- The least number of characters that the pattern reads, as far as its shape shows it.
unfoldable pub width : Re → ℕ
width (one c) = 1
width (set rs) = 1
width (except rs) = 1
width (seq a b) = width a + width b
width (alt a b) = if leb (width a) (width b) then width a else width b
width (group n a) = width a
width _ = 0

-- The result comes from a place at least `w` characters on in the same text, with the same groups if the
-- pattern is `quiet`.
abbrev pub Beyond : ℕ → Bool → Cursor → (Cursor → Option Cursor) → Cursor → Type 0
Beyond w quiet s k t =
    (u : Cursor) × (w + length s.before ≤ length u.before)
    × (length u.before + length u.after ≡ length s.before + length s.after)
    × (quiet ≡ true → u.groups ≡ s.groups)
    × (k u ≡ some t)

Ends-Beyond :
    {p : ℕ → Bool} {b : Bool} {s : Cursor} {k : Cursor → Option Cursor} {t : Cursor}
    → Ends p b s k t
    → Beyond 0 b s k t
Ends-Beyond {s = s} (u, q, e) = (
  u,
  omega (arith, q.moved),
  omega (arith, q.moved, ap length q.splits, length-append q.piece u.after),
  q.groups_kept,
  e,
)

char-Beyond :
    (p : ℕ → Bool) (s : Cursor) (k : Cursor → Option Cursor) (t : Cursor)
    → step p s.after s k ≡ some t
    → Beyond 1 true s k t
char-Beyond p s k t h =
    let (c, y, u, e, b, g, q) = step-Ends p s.after s k refl h in
    (u, omega (arith, b), omega (arith, b, ap length e), λ z. g, q)

lesser : (m n : ℕ) → ((if leb m n then m else n) ≤ m) × ((if leb m n then m else n) ≤ n)
lesser m n = (ground arith, ground arith)

pub run-Beyond :
    (r : Re) (s : Cursor) (k : Cursor → Option Cursor) (t : Cursor)
    → run r s k ≡ some t
    → Beyond (width r) (plain r) s k t
unfolding run width plain
run-Beyond (one c) s k t h = char-Beyond _ s k t h
run-Beyond (set rs) s k t h = char-Beyond _ s k t h
run-Beyond (except rs) s k t h = char-Beyond _ s k t h
run-Beyond (seq a b) s k t h =
    let (u, l, e, g, q) = run-Beyond a s _ t h in
    let (v, l', e', g', q') = run-Beyond b u k t q in
    (v, omega (arith, l, l'), omega (arith, e, e'), λ z. g' (ground arith) ∙ g (ground arith), q')
run-Beyond (group n a) s k t h =
    let (u, l, e, g, q) = run-Beyond a s _ t h in
    (record u { groups = (n, length s.before, length u.before) ∷ u.groups }, l, e, λ z. cc, q)
run-Beyond eps s k t h = Ends-Beyond (run-Sound eps s k t h)
run-Beyond (alt a b) s k t h = elim (Option-cases (run a s k)) [
  | inr (t', e) ↦
      let same : t' ≡ t = some-injective _ _ (rw e at h) in
      let (u, l, m, g, q) = run-Beyond a s k t (e ∙ ap some same) in
      (u, omega (arith, l, lesser (width a) (width b)), m, λ z. g (ground arith), q)
  | inl e ↦
      let (u, l, m, g, q) = run-Beyond b s k t (rw e at h) in
      (u, omega (arith, l, lesser (width a) (width b)), m, λ z. g (ground arith), q)
]
run-Beyond (star a) s k t h = Ends-Beyond (run-Sound (star a) s k t h)
run-Beyond (lazy a) s k t h = Ends-Beyond (run-Sound (lazy a) s k t h)
run-Beyond at_start s k t h = Ends-Beyond (run-Sound at_start s k t h)
run-Beyond at_end s k t h = Ends-Beyond (run-Sound at_end s k t h)
run-Beyond boundary s k t h = Ends-Beyond (run-Sound boundary s k t h)
run-Beyond (ahead a) s k t h = Ends-Beyond (run-Sound (ahead a) s k t h)
run-Beyond (not_ahead a) s k t h = Ends-Beyond (run-Sound (not_ahead a) s k t h)

-- The pattern ends in group `n` up to the end of the text, behind at least `w` characters.
pub data EndsIn (n : ℕ) : ℕ → Re → Type 0 where
  last : (a : Re) → EndsIn n 0 (seq (group n a) at_end)
  behind : {w : ℕ} {b : Re} (a : Re) → EndsIn n w b → EndsIn n (width a + w) (seq a b)

-- The last group of a match, with its start.
record LastGroup (n w : ℕ) (s t : Cursor) : Type 0 where
  start : ℕ
  stop : ℕ
  others : List (ℕ × ℕ × ℕ)
  groups_are : t.groups ≡ (n, start, stop) ∷ others
  not_before : w + length s.before ≤ start
  within : start ≤ length s.before + length s.after

at_end-stays : (s t : Cursor) → run at_end s (λ u. some u) ≡ some t → s ≡ t
unfolding run
at_end-stays s t h = ground arith

run-LastGroup :
    {n w : ℕ} {r : Re} (s t : Cursor)
    → EndsIn n w r
    → run r s (λ u. some u) ≡ some t
    → LastGroup n w s t
unfolding run
run-LastGroup {n} s t (last a) h =
    let (v, l, e, g, q) = run-Beyond a s _ t h in
    let x =
      at_end-stays (record v { groups = (n, length s.before, length v.before) ∷ v.groups }) t q in
    record {
      start = length s.before;
      stop = length v.before;
      others = v.groups;
      groups_are = ap (λ (c : Cursor). c.groups) (sym x);
      not_before = omega arith;
      within = omega arith;
    }
run-LastGroup {n} s t (behind a z) h =
    let (u, l, e, kept, q) = run-Beyond a s _ t h in
    let g = run-LastGroup u t z q in
    record {
      start = g.start;
      stop = g.stop;
      others = g.others;
      groups_are = g.groups_are;
      not_before = omega (arith, l, g.not_before);
      within = omega (arith, e, g.within);
    }

pub length-take_le : (n : ℕ) (v : Str) → length (take n v) ≤ length v
length-take_le zero v = omega arith
length-take_le (suc n) [] = omega arith
length-take_le (suc n) (c ∷ v) = omega (arith, length-take_le n v)

found-text :
    (n i j : ℕ) (line : Str) (t : Cursor) (gs : List (ℕ × ℕ × ℕ))
    → (n == n) ≡ true
    → t.groups ≡ (n, i, j) ∷ gs
    → group_text n (found line 0 t) ≡ take (j - i) (drop i line)
unfolding group_text found group_of group_in
found-text n i j line t gs y e = rw (e, group_text, group_of, group_in, y)

-- What is left of the line is shorter by what stands before it.
pub group_text-shorter :
    {w : ℕ} {r : Re} (n : ℕ) (line : Str) (m : Found)
    → (n == n) ≡ true
    → EndsIn n w r
    → re_match r line ≡ some m
    → length (group_text n m) + w ≤ length line
unfolding re_match match_at
group_text-shorter {w} {r} n line m y z h = elim (Option-cases (match_at r [] line)) [
  | inl e ↦ absurd (let h' = rw (re_match, e) at h in cc)
  | inr (t, e) ↦
      let is_m : found line 0 t ≡ m = some-injective _ _ (rw (re_match, e) at h) in
      let g = run-LastGroup _ t z e in
      let text = found-text n g.start g.stop line t g.others y g.groups_are in
      rw (sym is_m, text)
        (omega (
          arith,
          g.not_before,
          g.within,
          length-drop g.start line,
          length-take_le (g.stop - g.start) (drop g.start line),
        ))
]
