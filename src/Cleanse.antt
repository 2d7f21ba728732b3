-- ===== src/Cleanse.antt =====
-- `CleansedLines` of cpplint.py: the lines of a file, with several kinds of text taken out.
pub mod Aligned
pub mod RawStrings
pub mod Comments
pub mod Collapse
use Collapse.{collapse_strings}
use Comments.{cleanse_comments}
use RawStrings.{cleanse_raw_strings}
use dyod_ws.Base.{ℕ, Option, none, some, List, [], ◌∷◌, length, map}
use dyod_ws.Base.Text.{Str}

pub record CleansedLines : Type 0 where
  pub elided : List Str
  pub lines : List Str
  pub raw_lines : List Str
  pub num_lines : ℕ
  pub lines_without_raw_strings : List Str

elide : List Str → Option (List Str)
elide [] = some []
elide (line ∷ rest) = elim (collapse_strings line) [
  | none ↦ none
  | some collapsed ↦ elim (elide rest) [
    | none ↦ none
    | some elided ↦ some (cleanse_comments collapsed ∷ elided)
  ]
]

build : List Str → List Str → Option CleansedLines
unfolding elide
build lines without_raw = elim (elide without_raw) [
  | none ↦ none
  | some elided ↦ some (record {
    elided = elided;
    lines = map cleanse_comments without_raw;
    raw_lines = lines;
    num_lines = length lines;
    lines_without_raw_strings = without_raw;
  })
]

-- `__init__`; `none` where a line cannot be collapsed.
unfoldable pub cleansed_lines : List Str → Option CleansedLines
unfolding build
cleansed_lines lines = elim (cleanse_raw_strings lines) [
  | none ↦ none
  | some without_raw ↦ build lines without_raw
]
