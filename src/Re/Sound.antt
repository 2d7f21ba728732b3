-- ===== src/Re/Sound.antt =====
-- What a match implies of the text: it reads a piece of it, and the piece holds every character that
-- the pattern asks for.
use mathlib.Core.List.{append_assoc}
use dyod_ws.Base.{
  ℕ, suc, zero, ◌+◌, Bool, true, false, ◌&&◌, ◌||◌, Option, none, some, [], ◌∷◌, ◌++◌, ◌==◌, ◌⊎◌,
  ◌≡◌, refl, sym, ap, ◌∙◌, arith, Bool-cases, Option-cases, length, length-append, if◌then◌else◌,
  inl, inr,
}
use dyod_ws.Base.Text.{Str, has}
use dyod_ws.Re.{
  Re, eps, one, set, except, seq, alt, star, lazy, group, at_start, at_end, boundary, ahead,
  not_ahead, Cursor, step, repeat, repeat_lazy, run,
}

-- Whether every text that the pattern reads holds the character `c`.
unfoldable pub requires : ℕ → Re → Bool
requires c (one d) = d == c
requires c (seq a b) = requires c a || requires c b
requires c (alt a b) = requires c a && requires c b
requires c (group n a) = requires c a
requires c _ = false

-- Whether the pattern leaves the groups alone.
unfoldable pub plain : Re → Bool
plain (group n a) = false
plain (seq a b) = plain a && plain b
plain (alt a b) = plain a && plain b
plain (star a) = plain a
plain (lazy a) = plain a
plain (ahead a) = plain a
plain _ = true

-- Between the two places stands a piece that holds the characters of `needs`. A pattern with no
-- group keeps the groups.
pub record Reads (needs : ℕ → Bool) (quiet : Bool) (s u : Cursor) : Type 0 where
  pub piece : Str
  pub splits : s.after ≡ piece ++ u.after
  pub moved : length u.before ≡ length piece + length s.before
  pub holds : (c : ℕ) → needs c ≡ true → has c piece ≡ true
  pub groups_kept : quiet ≡ true → u.groups ≡ s.groups

abbrev nothing : ℕ → Bool
nothing c = false

pub has-append : (c : ℕ) (v w : Str) → has c (v ++ w) ≡ has c v || has c w
unfolding has
has-append c [] w = refl
has-append c (d ∷ v) w = ground (arith, has-append c v w)

Reads-here : (b : Bool) (s : Cursor) → Reads nothing b s s
Reads-here b s = record {
  piece = [];
  splits = refl;
  moved = omega arith;
  holds = λ c h. cc;
  groups_kept = λ h. refl;
}

Reads-seq :
    {p q : ℕ → Bool} {a b : Bool} {s u v : Cursor}
    → Reads p a s u
    → Reads q b u v
    → Reads (λ c. p c || q c) (a && b) s v
Reads-seq {p} {q} {a} {b} {s} {u} {v} r t = record {
  piece = r.piece ++ t.piece;
  splits = r.splits ∙ ap (λ x. r.piece ++ x) t.splits ∙ sym (append_assoc r.piece t.piece v.after);
  moved = omega (arith, length-append r.piece t.piece, r.moved, t.moved);
  holds = λ c h. ground (arith, has-append c r.piece t.piece, r.holds c, t.holds c);
  groups_kept = λ h. t.groups_kept (ground arith) ∙ r.groups_kept (ground arith);
}

Reads-weaken :
    {p q : ℕ → Bool} {a b : Bool} {s u : Cursor}
    → ((c : ℕ) → q c ≡ true → p c ≡ true)
    → (b ≡ true → a ≡ true)
    → Reads p a s u
    → Reads q b s u
Reads-weaken f g r = record {
  piece = r.piece;
  splits = r.splits;
  moved = r.moved;
  holds = λ c h. r.holds c (f c h);
  groups_kept = λ h. r.groups_kept (g h);
}

-- A result of the matcher comes from a call of its continuation, at a place that is read up to.
abbrev pub Ends : (ℕ → Bool) → Bool → Cursor → (Cursor → Option Cursor) → Cursor → Type 0
Ends needs quiet s k t = (u : Cursor) × Reads needs quiet s u × (k u ≡ some t)

pub step-Ends :
    (p : ℕ → Bool) (rest : Str) (s : Cursor) (k : Cursor → Option Cursor) {t : Cursor}
    → s.after ≡ rest
    → step p rest s k ≡ some t
    → (c : ℕ) × (p c ≡ true)
      × (u : Cursor) × (s.after ≡ c ∷ u.after)
      × (length u.before ≡ 1 + length s.before)
      × (u.groups ≡ s.groups)
      × (k u ≡ some t)
unfolding step
step-Ends p [] s k e h = cc
step-Ends p (c ∷ rest) s k e h = elim (Bool-cases (p c)) [
  | inl y ↦
      (c, y, record s { before = c ∷ s.before; after = rest }, e, omega arith, refl, rw y at h)
  | inr n ↦ absurd (let h' = rw n at h in cc)
]

abbrev pub Sound : (ℕ → Bool) → Bool → (Cursor → (Cursor → Option Cursor) → Option Cursor) → Type 0
Sound needs quiet m =
    (s : Cursor) (k : Cursor → Option Cursor) (t : Cursor) → m s k ≡ some t → Ends needs quiet s k t

unless-some :
    (b : Bool) (o : Option Cursor) {t : Cursor}
    → elim b [ true ↦ none | false ↦ o ] ≡ some t
    → o ≡ some t
unless-some true o h = cc
unless-some false o h = h

or_else-some :
    (o p : Option Cursor) {t : Cursor}
    → elim o [ some r ↦ some r | none ↦ p ] ≡ some t
    → (o ≡ some t) ⊎ (p ≡ some t)
or_else-some (some r) p h = inl h
or_else-some none p h = inr h

join-Ends :
    {b : Bool} {s u : Cursor} {k : Cursor → Option Cursor} {t : Cursor}
    → Reads nothing b s u
    → Ends nothing b u k t
    → Ends nothing b s k t
join-Ends r (v, q, e) = (v, Reads-weaken (λ c h. cc) (λ h. ground arith) (Reads-seq r q), e)

module _ (m : Cursor → (Cursor → Option Cursor) → Option Cursor) {b : Bool}
    (sound : Sound nothing b m) where
  repeat-Sound : (fuel : ℕ) → Sound nothing b (repeat m fuel)
  unfolding repeat
  repeat-Sound zero s k t h = (s, Reads-here _ s, h)
  repeat-Sound (suc fuel) s k t h =
      let go : Cursor → Option Cursor =
        λ u. elim (length u.after == length s.after) [ true ↦ none | false ↦ repeat m fuel u k ] in
      elim (or_else-some (m s go) (k s) h) [
        | inr e ↦ (s, Reads-here _ s, e)
        | inl e ↦
            let (u, r, e') = sound s go t e in
            join-Ends r
              (repeat-Sound fuel u k t (unless-some (length u.after == length s.after) _ e'))
      ]

  repeat_lazy-Sound : (fuel : ℕ) → Sound nothing b (repeat_lazy m fuel)
  unfolding repeat_lazy
  repeat_lazy-Sound zero s k t h = (s, Reads-here _ s, h)
  repeat_lazy-Sound (suc fuel) s k t h =
      let go : Cursor → Option Cursor = λ u. elim (length u.after == length s.after) [
        | true ↦ none
        | false ↦ repeat_lazy m fuel u k
      ] in
      elim (or_else-some (k s) (m s go) h) [
        | inl e ↦ (s, Reads-here _ s, e)
        | inr e ↦
            let (u, r, e') = sound s go t e in
            join-Ends r
              (repeat_lazy-Sound fuel u k t (unless-some (length u.after == length s.after) _ e'))
      ]

weaken-Ends :
    {p q : ℕ → Bool} {a b : Bool} {s : Cursor} {k : Cursor → Option Cursor} {t : Cursor}
    → ((c : ℕ) → q c ≡ true → p c ≡ true)
    → (b ≡ true → a ≡ true)
    → Ends p a s k t
    → Ends q b s k t
weaken-Ends f g (u, r, e) = (u, Reads-weaken f g r, e)

if-Ends :
    (b : Bool) (s : Cursor) (k : Cursor → Option Cursor) {t : Cursor}
    → (if b then k s else none) ≡ some t
    → Ends nothing true s k t
if-Ends true s k h = (s, Reads-here true s, h)
if-Ends false s k h = cc

char-Ends :
    (p needs : ℕ → Bool)
    → ((c : ℕ) → p c ≡ true → (d : ℕ) → needs d ≡ true → has d (c ∷ []) ≡ true)
    → (s : Cursor) (k : Cursor → Option Cursor) {t : Cursor} → step p s.after s k ≡ some t
    → Ends needs true s k t
char-Ends p needs f s k h =
    let (c, y, u, e, m, g, q) = step-Ends p s.after s k refl h in
    (
      u,
      record {
        piece = c ∷ [];
        splits = e;
        moved = omega arith;
        holds = λ d x. f c y d x;
        groups_kept = λ x. g;
      },
      q,
    )

one-holds : (d c : ℕ) → (c == d) ≡ true → (e : ℕ) → (d == e) ≡ true → has e (c ∷ []) ≡ true
unfolding has
one-holds d c h e x = ground arith

-- A match of `r` reads a piece of the text that holds what `r` requires.
pub run-Sound : (r : Re) → Sound (λ c. requires c r) (plain r) (run r)
unfolding run requires plain
run-Sound eps s k t h = (s, Reads-here true s, h)
run-Sound (one d) s k t h = char-Ends (λ x. x == d) (λ c. d == c) (one-holds d) s k h
run-Sound (set rs) s k t h = char-Ends _ nothing (λ c y d x. cc) s k h
run-Sound (except rs) s k t h = char-Ends _ nothing (λ c y d x. cc) s k h
run-Sound (seq a b) s k t h =
    let (u, r, e) = run-Sound a s _ t h in
    let (v, r', e') = run-Sound b u k t e in (v, Reads-seq r r', e')
run-Sound (alt a b) s k t h = elim (or_else-some (run a s k) (run b s k) h) [
  | inl e ↦ weaken-Ends (λ c x. ground arith) (λ x. ground arith) (run-Sound a s k t e)
  | inr e ↦ weaken-Ends (λ c x. ground arith) (λ x. ground arith) (run-Sound b s k t e)
]
run-Sound (star a) s k t h =
    repeat-Sound (λ s' k'. run a s' k')
      (λ s' k' t' e. weaken-Ends (λ c x. cc) (λ x. x) (run-Sound a s' k' t' e))
      (suc (length s.after)) s k t h
run-Sound (lazy a) s k t h =
    repeat_lazy-Sound (λ s' k'. run a s' k')
      (λ s' k' t' e. weaken-Ends (λ c x. cc) (λ x. x) (run-Sound a s' k' t' e))
      (suc (length s.after)) s k t h
run-Sound (group n a) s k t h =
    let (u, r, e) = run-Sound a s _ t h in
    (
      record u { groups = (n, length s.before, length u.before) ∷ u.groups },
      record {
        piece = r.piece;
        splits = r.splits;
        moved = r.moved;
        holds = r.holds;
        groups_kept = λ x. cc;
      },
      e,
    )
run-Sound at_start s k t h = if-Ends _ s k h
run-Sound at_end s k t h = if-Ends _ s k h
run-Sound boundary s k t h = if-Ends _ s k h
run-Sound (ahead a) s k t h = elim (Option-cases (run a s (λ t. some t))) [
  | inl e ↦ absurd (let h' = rw e at h in cc)
  | inr (u, e) ↦
      let (v, r, e') = run-Sound a s (λ t. some t) u e in
      (
        record s { groups = u.groups },
        record {
          piece = [];
          splits = refl;
          moved = omega arith;
          holds = λ c x. cc;
          groups_kept = λ x. cc (r.groups_kept x, e');
        },
        rw e at h,
      )
]
run-Sound (not_ahead a) s k t h = elim (Option-cases (run a s (λ t. some t))) [
  | inl e ↦ (s, Reads-here true s, rw e at h)
  | inr (u, e) ↦ absurd (let h' = rw e at h in cc)
]
