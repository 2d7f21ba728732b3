-- ===== src/Style/Width.antt =====
-- `GetLineWidth` of cpplint.py. What it asks of Python's `unicodedata` is a parameter.
use dyod_ws.Base.{
  ℕ, ◌+◌, ◌<◌, ◌≤◌, ◌*◌, Bool, false, ◌≡◌, refl, [], ◌∷◌, arith, length, All, if◌then◌else◌,
}
use dyod_ws.Base.Text.{Str}

-- `normalize('NFC', s)`, `east_asian_width(c) in ('W', 'F')` and `combining(c)`
pub record UnicodeData : Type 0 where
  pub normalize : Str → Str
  pub is_wide : ℕ → Bool
  pub is_combining : ℕ → Bool

width_of : UnicodeData → Str → ℕ
width_of u [] = 0
width_of u (c ∷ s) = (if u.is_wide c then 2 else if u.is_combining c then 0 else 1) + width_of u s

-- `GetLineWidth`, of a Unicode text.
unfoldable pub get_line_width : UnicodeData → Str → ℕ
unfolding width_of
get_line_width u line = width_of u (u.normalize line)

-- What Unicode says of ASCII: it is in normal form, narrow, and combines with nothing.
pub record IsUnicode (u : UnicodeData) : Type 0 where
  pub normal : (s : Str) → All (λ c. c < 128) s → u.normalize s ≡ s
  pub narrow : (c : ℕ) → c < 128 → u.is_wide c ≡ false
  pub separate : (c : ℕ) → c < 128 → u.is_combining c ≡ false

width_of-ascii :
    (u : UnicodeData) → IsUnicode u → (s : Str) → All (λ c. c < 128) s → width_of u s ≡ length s
unfolding width_of
width_of-ascii u v [] h = refl
width_of-ascii u v (c ∷ s) h =
    rw (v.narrow c h.0, v.separate c h.0) (omega (arith, width_of-ascii u v s h.1))

width_of-le : (u : UnicodeData) (s : Str) → width_of u s ≤ 2 * length s
unfolding width_of
width_of-le u [] = omega arith
width_of-le u (c ∷ s) = ground (arith, width_of-le u s)

-- The width of an ASCII line is its length, and no line is wider than two columns for each character of
-- its normal form.
pub get_line_width_bounds :
    (u : UnicodeData) (line : Str)
    → IsUnicode u
    → (All (λ c. c < 128) line → get_line_width u line ≡ length line)
      × (get_line_width u line ≤ 2 * length (u.normalize line))
unfolding get_line_width
get_line_width_bounds u line v =
    (λ h. rw (v.normal line h) (width_of-ascii u v line h), width_of-le u (u.normalize line))
