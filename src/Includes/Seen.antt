-- ===== src/Includes/Seen.antt =====
-- `FindHeader` and the list that it searches.
use dyod_ws.Base.{ℕ, ◌≡◌, ◌≢◌, refl, Option, none, some, List, [], ◌∷◌, ◌++◌, arith, if◌then◌else◌}
use dyod_ws.Base.Text.{Str, str_eq}
use dyod_ws.Includes.{find_in_section, find_header, append_include}

-- The first of two answers, if there is one.
abbrev pub first_of_two : Option ℕ → Option ℕ → Option ℕ
first_of_two none o = o
first_of_two (some n) o = some n

find_in_section-append :
    (header name : Str) (line : ℕ) (fs : List (Str × ℕ))
    → find_in_section header (fs ++ (name, line) ∷ [])
      ≡ first_of_two (find_in_section header fs) (if str_eq name header then some line else none)
unfolding find_in_section
find_in_section-append header name line [] = refl
find_in_section-append header name line ((n, l) ∷ fs) =
    ground (arith, find_in_section-append header name line fs)

-- After a header is recorded, a search finds what it found before, and where it found nothing, the
-- new line exactly for the new header.
pub find_header-append_include :
    (header name : Str) (line : ℕ) (lists : List (List (Str × ℕ)))
    → lists ≢ []
    → find_header header (append_include (name, line) lists)
      ≡ first_of_two (find_header header lists) (if str_eq name header then some line else none)
unfolding find_header append_include
find_header-append_include header name line [] h = absurd (h refl)
find_header-append_include header name line (l ∷ []) h =
    ground (arith, find_in_section-append header name line l)
find_header-append_include header name line (l ∷ k ∷ ls) h =
    ground (arith, find_header-append_include header name line (k ∷ ls) (λ e. cc))
