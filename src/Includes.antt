-- ===== src/Includes.antt =====
-- `_IncludeState` of cpplint.py: the headers included so far, and the section that the file is in.
pub mod Order
pub mod Layout
pub mod Line
pub mod Sections
pub mod Seen
use dyod_ws.Base.{
  ℕ, ◌-◌, Bool, true, false, not, ◌&&◌, Option, none, some, List, [], ◌∷◌, ◌++◌, leb, map, get_or,
  ◌==◌, if◌then◌else◌, String,
}
use dyod_ws.Base.Text.{Str, txt, str_eq, str_lt, is_one_of, replace, to_lower}
use dyod_ws.Re.{Re, at_start, boundary, lit, one, spaces, matches, ◌▹◌, seq}

-- The constants `_C_SYS_HEADER` to `_OTHER_HEADER`.
pub data HeaderType : Type 0 where
  c_sys_header cpp_sys_header likely_my_header possible_my_header other_header : HeaderType

-- The sections, by their numbers in the source.
abbrev pub initial_section : ℕ
initial_section = 0

abbrev pub my_h_section : ℕ
my_h_section = 1

abbrev pub c_section : ℕ
c_section = 2

abbrev pub cpp_section : ℕ
cpp_section = 3

abbrev pub other_h_section : ℕ
other_h_section = 4

pub record IncludeState : Type 0 where
  pub include_list : List (List (Str × ℕ))
  pub section : ℕ
  pub last_header : Str

-- `_TYPE_NAMES`
unfoldable pub type_names : HeaderType → Str
type_names c_sys_header = txt "C system header"
type_names cpp_sys_header = txt "C++ system header"
type_names likely_my_header = txt "header this file implements"
type_names possible_my_header = txt "header this file may implement"
type_names other_header = txt "other header"

-- `_SECTION_NAMES`
unfoldable pub section_names : ℕ → Str
section_names section =
    get_or
      (txt "... nothing. (This can't be an error.)"
        ∷ txt "a header this file implements"
        ∷ txt "C system header"
        ∷ txt "C++ system header"
        ∷ txt "other header"
        ∷ [])
      section []

-- `include_list[-1] = []`
set_last : List (List (Str × ℕ)) → List (List (Str × ℕ))
set_last [] = []
set_last (x ∷ []) = [] ∷ []
set_last (x ∷ y ∷ xs) = x ∷ set_last (y ∷ xs)

unfoldable pub reset_section : Str → IncludeState → IncludeState
unfolding set_last
reset_section directive s =
    let included =
      if is_one_of directive (txt "if" ∷ txt "ifdef" ∷ txt "ifndef" ∷ [])
      then s.include_list ++ [] ∷ []
      else if is_one_of directive (txt "else" ∷ txt "elif" ∷ [])
      then set_last s.include_list
      else s.include_list in
    record { include_list = included; section = initial_section; last_header = [] }

-- `__init__`
unfoldable pub init : IncludeState
unfolding reset_section
init =
    reset_section []
      (record { include_list = [] ∷ []; section = initial_section; last_header = [] })

-- The first entry of one section list for the header.
find_in_section : Str → List (Str × ℕ) → Option ℕ
find_in_section header [] = none
find_in_section header ((name, line) ∷ fs) =
    if str_eq name header then some line else find_in_section header fs

-- `FindHeader`; `none` stands for -1.
unfoldable pub find_header : Str → List (List (Str × ℕ)) → Option ℕ
unfolding find_in_section
find_header header [] = none
find_header header (section_list ∷ rest) = elim (find_in_section header section_list) [
  | some line ↦ some line
  | none ↦ find_header header rest
]

-- `include_list[-1].append((include, linenum))`
unfoldable pub append_include : Str × ℕ → List (List (Str × ℕ)) → List (List (Str × ℕ))
append_include f [] = []
append_include f (l ∷ []) = (l ++ f ∷ []) ∷ []
append_include f (l ∷ k ∷ ls) = l ∷ append_include f (k ∷ ls)

unfoldable pub set_last_header : Str → IncludeState → IncludeState
set_last_header header_path s = record s { last_header = header_path }

unfoldable pub canonicalize_alphabetical_order : Str → Str
canonicalize_alphabetical_order header_path =
    map to_lower (replace (txt "-") (txt "_") (replace (txt "-inl.h") (txt ".h") header_path))

unfoldable pub include_line : Re
unfolding lit
include_line = at_start ▹ spaces ▹ one b'#' ▹ spaces ▹ lit "include" ▹ boundary

-- `IsInAlphabeticalOrder`, on the cleansed line before the include.
unfoldable pub is_in_alphabetical_order : Str → Str → IncludeState → Bool
is_in_alphabetical_order previous_line header_path s =
    not (str_lt header_path s.last_header && matches include_line previous_line)

order_message : HeaderType → ℕ → Str
order_message header_type section =
    txt "Found " ++ (type_names header_type ++ (txt " after " ++ section_names section))

-- The section that a header leads to from a section, or `none` where it is out of order.
unfoldable pub next_section : HeaderType → ℕ → Option ℕ
next_section c_sys_header section = if leb section c_section then some c_section else none
next_section cpp_sys_header section = if leb section cpp_section then some cpp_section else none
next_section likely_my_header section =
    if leb section my_h_section then some my_h_section else some other_h_section
next_section possible_my_header section =
    if leb section my_h_section then some my_h_section else some other_h_section
next_section other_header section = some other_h_section

enter : Option ℕ → Str → IncludeState → IncludeState × Option Str
enter none message s = (record s { last_header = [] }, some message)
enter (some section) message s = (
  record s {
    section = section;
    last_header = if not (section == s.section) then [] else s.last_header;
  },
  none,
)

-- `CheckNextIncludeOrder`: the new state, and the message if the header is out of order.
unfoldable pub check_next_include_order : HeaderType → IncludeState → IncludeState × Option Str
unfolding enter order_message next_section
check_next_include_order header_type s =
    enter (next_section header_type s.section) (order_message header_type s.section) s
