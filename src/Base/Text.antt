-- ===== src/Base/Text.antt =====
-- Text as the program handles it, a list of code points, with the methods of Python's strings that
-- the source calls.
use Prim.Native.Char.{code}
use Prim.Native.Nat.{ℕ, zero, suc, ◌+◌, ◌-◌, ◌/◌, ◌%◌}
use Prim.Native.String.{String}
use mathlib.Core.Bool.{Bool, true, false, ◌&&◌, ◌||◌}
use mathlib.Core.Option.{Option, none, some}
use mathlib.Core.Option
use mathlib.Core.List.{List, [], ◌∷◌, ◌++◌}
use dyod_ws.Base.Lists.{length, drop}
use dyod_ws.Base.Tests.{ltb, leb, ◌==◌, if◌then◌else◌}

abbrev pub Str : Type 0
Str = List ℕ

-- The code points of a literal. It is shut, so that a proof about a program does not open its
-- messages; a test unfolds it.
unfoldable pub txt : String → Str
txt String.[] = []
txt (String.◌∷◌ c s) = code c ∷ txt s

-- `a == b`
unfoldable pub str_eq : Str → Str → Bool
str_eq [] [] = true
str_eq (x ∷ xs) (y ∷ ys) = x == y && str_eq xs ys
str_eq _ _ = false

-- `a < b`, by code points
unfoldable pub str_lt : Str → Str → Bool
str_lt [] [] = false
str_lt [] (y ∷ ys) = true
str_lt (x ∷ xs) [] = false
str_lt (x ∷ xs) (y ∷ ys) = ltb x y || (x == y && str_lt xs ys)

-- `x in (a, b, …)`, for texts
unfoldable pub is_one_of : Str → List Str → Bool
unfolding str_eq
is_one_of s [] = false
is_one_of s (t ∷ ts) = str_eq s t || is_one_of s ts

-- `c in s`, for a character
unfoldable pub has : ℕ → Str → Bool
has c [] = false
has c (d ∷ s) = d == c || has c s

-- `s.startswith(p)`
unfoldable pub starts_with : Str → Str → Bool
starts_with [] s = true
starts_with (p ∷ ps) [] = false
starts_with (p ∷ ps) (c ∷ s) = c == p && starts_with ps s

-- `s.endswith(p)`
unfoldable pub ends_with : Str → Str → Bool
unfolding str_eq
ends_with p s = leb (length p) (length s) && str_eq (drop (length s - length p) s) p

-- `s.find(p)`, `none` for -1
unfoldable pub find : Str → Str → Option ℕ
unfolding starts_with
find p [] = if starts_with p [] then some 0 else none
find p (c ∷ s) =
    let later = Option.map suc (find p s) in if starts_with p (c ∷ s) then some 0 else later

-- `p in s`, for texts
unfoldable pub contains : Str → Str → Bool
unfolding find
contains p s = elim (find p s) [ none ↦ false | some i ↦ true ]

-- `s.count(p)` for a non-empty `p`: `skip` characters still belong to the last occurrence.
unfoldable pub count_from : Str → ℕ → Str → ℕ
unfolding starts_with
count_from p skip [] = 0
count_from p zero (c ∷ s) =
    let hit = starts_with p (c ∷ s) in
    (if hit then 1 else 0) + count_from p (if hit then length p - 1 else 0) s
count_from p (suc skip) (c ∷ s) = count_from p skip s

unfoldable pub count : Str → Str → ℕ
unfolding count_from
count p s = count_from p 0 s

-- `s.replace(p, r)` for a non-empty `p`
unfoldable pub replace_from : Str → Str → ℕ → Str → Str
unfolding starts_with
replace_from p r skip [] = []
replace_from p r zero (c ∷ s) =
    let hit = starts_with p (c ∷ s) in
    (if hit then r else c ∷ []) ++ replace_from p r (if hit then length p - 1 else 0) s
replace_from p r (suc skip) (c ∷ s) = replace_from p r skip s

unfoldable pub replace : Str → Str → Str → Str
unfolding replace_from
replace p r s = replace_from p r 0 s

unfoldable pub is_space : ℕ → Bool
is_space c = c == 32 || (leb 9 c && leb c 13)

unfoldable pub lstrip : Str → Str
unfolding is_space
lstrip [] = []
lstrip (c ∷ s) = let rest = lstrip s in if is_space c then rest else c ∷ s

unfoldable pub rstrip : Str → Str
unfolding is_space
rstrip [] = []
rstrip (c ∷ s) = elim (rstrip s) [ [] ↦ if is_space c then [] else c ∷ [] | d ∷ t ↦ c ∷ d ∷ t ]

unfoldable pub strip : Str → Str
unfolding lstrip rstrip
strip s = lstrip (rstrip s)

unfoldable pub cons_head : ℕ → List Str → List Str
cons_head c [] = (c ∷ []) ∷ []
cons_head c (w ∷ ws) = (c ∷ w) ∷ ws

-- `s.split(sep)`, for a separator of one character
unfoldable pub split_on : ℕ → Str → List Str
unfolding cons_head
split_on sep [] = [] ∷ []
split_on sep (c ∷ s) = let rest = split_on sep s in if c == sep then [] ∷ rest else cons_head c rest

-- the pieces between blanks, the empty ones among them
split_blank : Str → List Str
unfolding cons_head is_space
split_blank [] = [] ∷ []
split_blank (c ∷ s) = let rest = split_blank s in if is_space c then [] ∷ rest else cons_head c rest

drop_empty : List Str → List Str
drop_empty [] = []
drop_empty ([] ∷ ws) = drop_empty ws
drop_empty ((c ∷ w) ∷ ws) = (c ∷ w) ∷ drop_empty ws

-- `s.split()`
unfoldable pub split_words : Str → List Str
unfolding split_blank drop_empty
split_words s = drop_empty (split_blank s)

-- `sep.join(parts)`
unfoldable pub join : Str → List Str → Str
join sep [] = []
join sep (w ∷ []) = w
join sep (w ∷ v ∷ ws) = w ++ (sep ++ join sep (v ∷ ws))

unfoldable pub to_lower : ℕ → ℕ
to_lower c = if leb 65 c && leb c 90 then c + 32 else c

unfoldable pub to_upper : ℕ → ℕ
to_upper c = if leb 97 c && leb c 122 then c - 32 else c

-- the decimal digits, on fuel: a number has at most as many digits as its value plus one
digits : ℕ → ℕ → Str → Str
digits zero n acc = acc
digits (suc f) n acc =
    let rest = digits f (n / 10) ((48 + n % 10) ∷ acc) in if ltb n 10 then (48 + n) ∷ acc else rest

-- `'%d' % n`, for n ≥ 0
unfoldable pub show : ℕ → Str
unfolding digits
show n = digits (suc n) n []

-- `s.rfind(c)` for a character, `none` for -1
unfoldable pub rfind : ℕ → Str → Option ℕ
rfind c [] = none
rfind c (d ∷ s) = elim (rfind c s) [
  | some i ↦ some (suc i)
  | none ↦ if d == c then some 0 else none
]

-- `not s or s.isspace()`
unfoldable pub is_blank : Str → Bool
unfolding is_space
is_blank [] = true
is_blank (c ∷ s) = is_space c && is_blank s
