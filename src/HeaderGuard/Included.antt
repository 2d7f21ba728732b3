-- ===== src/HeaderGuard/Included.antt =====
-- `CheckHeaderFileIncluded` of cpplint.py.
use dyod_ws.Base.{
  ℕ, ◌-◌, Bool, not, ◌||◌, Option, none, some, List, [], ◌∷◌, ◌++◌, length, take, ◌==◌,
  if◌then◌else◌,
}
use dyod_ws.Base.Text.{Str, txt, contains}
use dyod_ws.FileNames.{Os, repository_name, base_name, extension}
use dyod_ws.Re.{Re, group, at_end, words, searches, ◌▹◌}
use dyod_ws.Report.{Report, error}

-- `_TEST_FILE_SUFFIX`
unfoldable pub test_file_suffix : Re
unfolding words
test_file_suffix = group 1 (words ("_test" ∷ "_unittest" ∷ "_regtest" ∷ [])) ▹ at_end

-- The loops over the headers: whether one of them fits, and else the line of the first.
pub data Included : Type 0 where
  fits : Included
  first_include : ℕ → Included

fits_name : Str → Str → Bool
fits_name headername header = contains headername header || contains header headername

unfoldable pub find_included : Str → List (Str × ℕ) → ℕ → Included
unfolding fits_name
find_included headername [] first = first_include first
find_included headername ((header, line) ∷ fs) first =
    let later = find_included headername fs (if first == 0 then line else first) in
    if fits_name headername header then fits else later

flat : List (List (Str × ℕ)) → List (Str × ℕ)
flat [] = []
flat (l ∷ ls) = l ++ flat ls

included_message : Str → Str → Str
included_message name headername = name ++ (txt " should include its header file " ++ headername)

-- The part behind the two early returns.
included_reports : Os → Str → Str → List (List (Str × ℕ)) → Option (List Report)
unfolding included_message flat
included_reports os filename headername include_list =
    elim (find_included headername (flat include_list) 0) [
      | fits ↦ some []
      | first_include line ↦ elim (repository_name os filename) [
        | none ↦ none
        | some name ↦
            some (error filename line "build/include" 5 (included_message name headername))
      ]
    ]

-- The header of a source file: its name with another extension.
unfoldable pub header_of : Str → Str → Str
header_of filename ext = take (length filename - length ext) filename ++ txt ".h"

with_header : Os → Str → Str → List (List (Str × ℕ)) → Option (List Report)
unfolding included_reports
with_header os filename headerfile include_list =
    if not (os.exists headerfile) then some [] else elim (repository_name os headerfile) [
      | none ↦ none
      | some headername ↦ included_reports os filename headername include_list
    ]

-- `CheckHeaderFileIncluded`; `none` where a search for the root of the repository does not end.
unfoldable pub check_header_file_included : Os → Str → List (List (Str × ℕ)) → Option (List Report)
unfolding with_header
check_header_file_included os filename include_list = elim (base_name os filename) [
  | none ↦ none
  | some base ↦ if searches test_file_suffix base then some [] else elim (extension os filename) [
    | none ↦ none
    | some ext ↦ with_header os filename (header_of filename ext) include_list
  ]
]
