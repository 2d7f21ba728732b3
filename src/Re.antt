-- ===== src/Re.antt =====
-- Regular expressions as Python's `re` runs them: a backtracking matcher over the constructs that
-- the program's patterns use. `match`, `search` and `sub` are those of a compiled pattern, which
-- `Match`, `Search` and `ReplaceAll` of cpplint.py call.
pub mod Absent
pub mod Always
pub mod Lacks
pub mod Pieces
pub mod Places
pub mod Rest
pub mod Sound
use dyod_ws.Base.{
  ℕ, zero, suc, ◌+◌, ◌-◌, Bool, true, false, not, ◌&&◌, ◌||◌, Option, none, some, List, [], ◌∷◌,
  ◌++◌, reverse, leb, ◌==◌, if◌then◌else◌, length, take, drop, String,
}
use dyod_ws.Base.Text.{Str, txt, str_eq}

-- The ranges of a bracket expression.
pub record Range : Type 0 where
  pub lo : ℕ
  pub hi : ℕ

pub data Re : Type 0 where
  eps : Re
  one : ℕ → Re
  set : List Range → Re
  except : List Range → Re
  seq : Re → Re → Re
  alt : Re → Re → Re
  star : Re → Re
  lazy : Re → Re
  group : ℕ → Re → Re
  at_start at_end boundary : Re
  ahead not_ahead : Re → Re

-- A place in the text: what is before it, read backwards, what is behind it, and the groups that
-- are matched, each with its start and its end.
pub record Cursor : Type 0 where
  pub before : Str
  pub after : Str
  pub groups : List (ℕ × ℕ × ℕ)

-- The range of one character.
abbrev pub single : ℕ → Range
single c = record { lo = c; hi = c }

unfoldable pub in_ranges : ℕ → List Range → Bool
in_ranges c [] = false
in_ranges c (r ∷ rs) = (leb r.lo c && leb c r.hi) || in_ranges c rs

-- `\w`
abbrev pub word_ranges : List Range
word_ranges =
    record { lo = b'a'; hi = b'z' }
    ∷ record { lo = b'A'; hi = b'Z' }
    ∷ record { lo = b'0'; hi = b'9' }
    ∷ record { lo = b'_'; hi = b'_' }
    ∷ []

-- `\s`
abbrev pub space_ranges : List Range
space_ranges = record { lo = 9; hi = 13 } ∷ record { lo = 32; hi = 32 } ∷ []

unfoldable pub starts_word : Str → Bool
unfolding in_ranges
starts_word [] = false
starts_word (c ∷ s) = in_ranges c word_ranges

unfoldable pub is_boundary : Cursor → Bool
unfolding starts_word
is_boundary s =
    (starts_word s.before && not (starts_word s.after))
    || (not (starts_word s.before) && starts_word s.after)

is_empty : Str → Bool
is_empty [] = true
is_empty (c ∷ s) = false

-- `$`: the end, or the newline that ends the text
is_end : Str → Bool
is_end [] = true
is_end (c ∷ []) = c == b'\n'
is_end (c ∷ d ∷ s) = false

-- Reads one character that passes the test.
unfoldable pub step : (ℕ → Bool) → Str → Cursor → (Cursor → Option Cursor) → Option Cursor
step p [] s k = none
step p (c ∷ rest) s k = if p c then k (record s { before = c ∷ s.before; after = rest }) else none

-- The rounds of a greedy star. A round that reads nothing ends the star, so the length of the text
-- is fuel enough.
unfoldable pub repeat :
    (Cursor → (Cursor → Option Cursor) → Option Cursor)
    → ℕ
    → Cursor
    → (Cursor → Option Cursor)
    → Option Cursor
repeat m zero s k = k s
repeat m (suc fuel) s k =
    elim (m s
      (λ t. elim (length t.after == length s.after) [ true ↦ none | false ↦ repeat m fuel t k ])) [
        | some r ↦ some r
        | none ↦ k s
      ]

-- The rounds of a lazy star.
unfoldable pub repeat_lazy :
    (Cursor → (Cursor → Option Cursor) → Option Cursor)
    → ℕ
    → Cursor
    → (Cursor → Option Cursor)
    → Option Cursor
repeat_lazy m zero s k = k s
repeat_lazy m (suc fuel) s k = elim (k s) [
  | some r ↦ some r
  | none ↦ m s (λ t. elim (length t.after == length s.after) [
    | true ↦ none
    | false ↦ repeat_lazy m fuel t k
  ])
]

unfoldable pub run : Re → Cursor → (Cursor → Option Cursor) → Option Cursor
unfolding step in_ranges is_boundary is_empty is_end repeat repeat_lazy
run eps s k = k s
run (one c) s k = step (λ d. d == c) s.after s k
run (set rs) s k = step (λ d. in_ranges d rs) s.after s k
run (except rs) s k = step (λ d. not (in_ranges d rs)) s.after s k
run (seq a b) s k = run a s (λ t. run b t k)
run (alt a b) s k = elim (run a s k) [ some r ↦ some r | none ↦ run b s k ]
run (star a) s k = repeat (λ t l. run a t l) (suc (length s.after)) s k
run (lazy a) s k = repeat_lazy (λ t l. run a t l) (suc (length s.after)) s k
run (group n a) s k =
    run a s (λ t. k (record t { groups = (n, length s.before, length t.before) ∷ t.groups }))
run at_start s k = if is_empty s.before then k s else none
run at_end s k = if is_end s.after then k s else none
run boundary s k = if is_boundary s then k s else none
run (ahead a) s k = elim (run a s (λ t. some t)) [
  | some t ↦ k (record s { groups = t.groups })
  | none ↦ none
]
run (not_ahead a) s k = elim (run a s (λ t. some t)) [ some t ↦ none | none ↦ k s ]

-- A match object: the text, and the groups by number; group 0 is the whole match.
pub record Found : Type 0 where
  pub text : Str
  pub start : ℕ
  pub stop : ℕ
  pub groups : List (ℕ × ℕ × ℕ)

unfoldable pub match_at : Re → Str → Str → Option Cursor
unfolding run
match_at r before after =
    run r (record { before = before; after = after; groups = [] }) (λ t. some t)

found : Str → ℕ → Cursor → Found
found s start t = record { text = s; start = start; stop = length t.before; groups = t.groups }

-- `pattern.match(s)`
unfoldable pub re_match : Re → Str → Option Found
unfolding match_at found
re_match r s = elim (match_at r [] s) [ some t ↦ some (found s 0 t) | none ↦ none ]

-- The first place from which the pattern matches.
unfoldable pub search_from : Re → Str → Str → Option (ℕ × Cursor)
unfolding match_at
search_from r before [] = elim (match_at r before []) [
  | some t ↦ some (length before, t)
  | none ↦ none
]
search_from r before (c ∷ rest) = elim (match_at r before (c ∷ rest)) [
  | some t ↦ some (length before, t)
  | none ↦ search_from r (c ∷ before) rest
]

-- `pattern.search(s)`
unfoldable pub re_search : Re → Str → Option Found
unfolding search_from found
re_search r s = elim (search_from r [] s) [ some (i, t) ↦ some (found s i t) | none ↦ none ]

group_in : ℕ → Str → List (ℕ × ℕ × ℕ) → Option Str
group_in n s [] = none
group_in n s ((m, i, j) ∷ gs) = if m == n then some (take (j - i) (drop i s)) else group_in n s gs

-- `m.group(n)` for n ≥ 1; `none` for a group that took no part in the match
unfoldable pub group_of : ℕ → Found → Option Str
unfolding group_in
group_of n m = group_in n m.text m.groups

-- `m.group(n)` of a group that takes part in every match of its pattern
unfoldable pub group_text : ℕ → Found → Str
unfolding group_of
group_text n m = elim (group_of n m) [ some s ↦ s | none ↦ [] ]

is_some {ℓ} : {A : Type ℓ} → Option A → Bool
is_some none = false
is_some (some a) = true

unfoldable pub matches : Re → Str → Bool
unfolding re_match is_some
matches r s = is_some (re_match r s)

unfoldable pub searches : Re → Str → Bool
unfolding re_search is_some
searches r s = is_some (re_search r s)

-- `pattern.sub(rep, s)`, with `rep` a function of the match; an empty match is replaced, and the
-- character behind it copied. Each round reads a character, so the length of the text is fuel enough.
unfoldable pub sub_from : ℕ → Re → (Found → Str) → Str → Str → Str
unfolding match_at found
sub_from zero r rep before after = after
sub_from (suc fuel) r rep before [] = elim (match_at r before []) [
  | some t ↦ rep (found (reverse before) (length before) t)
  | none ↦ []
]
sub_from (suc fuel) r rep before (c ∷ rest) = elim (match_at r before (c ∷ rest)) [
  | some t ↦
      let new = rep (found (reverse before ++ (c ∷ rest)) (length before) t) in
      elim (length t.before == length before) [
        | true ↦ new ++ (c ∷ sub_from fuel r rep (c ∷ before) rest)
        | false ↦ new ++ sub_from fuel r rep t.before t.after
      ]
  | none ↦ c ∷ sub_from fuel r rep (c ∷ before) rest
]

-- `pattern.finditer(s)`, on fuel as above.
unfoldable pub find_all_from : ℕ → Re → Str → Str → List Found
unfolding match_at found
find_all_from zero r before after = []
find_all_from (suc fuel) r before [] = elim (match_at r before []) [
  | some t ↦ found (reverse before) (length before) t ∷ []
  | none ↦ []
]
find_all_from (suc fuel) r before (c ∷ rest) = elim (match_at r before (c ∷ rest)) [
  | some t ↦
      found (reverse before ++ (c ∷ rest)) (length before) t
      ∷ elim (length t.before == length before) [
        | true ↦ find_all_from fuel r (c ∷ before) rest
        | false ↦ find_all_from fuel r t.before t.after
      ]
  | none ↦ find_all_from fuel r (c ∷ before) rest
]

unfoldable pub find_all : Re → Str → List Found
unfolding find_all_from
find_all r s = find_all_from (suc (length s)) r [] s

unfoldable pub re_sub : Re → (Found → Str) → Str → Str
unfolding sub_from
re_sub r rep s = sub_from (suc (length s)) r rep [] s

-- Patterns.

infixr 60 ◌▹◌
abbrev pub ◌▹◌ : Re → Re → Re
a ▹ b = seq a b

infixr 40 ◌∣∣◌
abbrev pub ◌∣∣◌ : Re → Re → Re
a ∣∣ b = alt a b

-- a literal text
unfoldable pub lit_codes : Str → Re
lit_codes [] = eps
lit_codes (c ∷ []) = one c
lit_codes (c ∷ d ∷ s) = seq (one c) (lit_codes (d ∷ s))

unfoldable pub lit : String → Re
unfolding lit_codes txt
lit s = lit_codes (txt s)

-- `x+`, `x?`
unfoldable pub plus : Re → Re
plus r = seq r (star r)

unfoldable pub opt : Re → Re
opt r = alt r eps

-- `[abc]` and `[^abc]`
singles : Str → List Range
singles [] = []
singles (c ∷ s) = single c ∷ singles s

unfoldable pub one_of : String → Re
unfolding singles txt
one_of s = set (singles (txt s))

unfoldable pub none_of : String → Re
unfolding singles txt
none_of s = except (singles (txt s))

abbrev pub space : Re
space = set space_ranges

abbrev pub non_space : Re
non_space = except space_ranges

abbrev pub word : Re
word = set word_ranges

-- `\W`
abbrev pub non_word : Re
non_word = except word_ranges

-- `\s*`, `.`, `.*`
abbrev pub spaces : Re
spaces = star space

abbrev pub dot : Re
dot = except (record { lo = 10; hi = 10 } ∷ [])

abbrev pub dots : Re
dots = star dot

-- `a|b|…` over literal texts
unfoldable pub words : List String → Re
unfolding lit
words [] = not_ahead eps
words (w ∷ []) = lit w
words (w ∷ v ∷ ws) = alt (lit w) (words (v ∷ ws))

-- `\d` and `\d*`
abbrev pub digit : Re
digit = set (record { lo = b'0'; hi = b'9' } ∷ [])

abbrev pub digits : Re
digits = star digit
