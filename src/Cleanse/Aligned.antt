-- ===== src/Cleanse/Aligned.antt =====
-- That `CleansedLines` is made for every file, with its lists of lines in step.
use dyod_ws.Base.{suc, ◌≡◌, refl, ap, some, List, [], ◌∷◌, arith, length, All, map}
use dyod_ws.Base.Text.{Str}
use dyod_ws.Cleanse.{CleansedLines, cleansed_lines, elide, build}
use dyod_ws.Cleanse.Collapse.Ends.{collapse_strings_total}
use dyod_ws.Cleanse.Comments.{cleanse_comments}
use dyod_ws.Cleanse.RawStrings.Ends.{cleanse_raw_strings_total}
use dyod_ws.Re.Lacks.{Lacks}

length-map : (f : Str → Str) (lines : List Str) → length (map f lines) ≡ length lines
length-map f [] = refl
length-map f (line ∷ lines) = ap suc (length-map f lines)

elide_total :
    (lines : List Str)
    → All (Lacks b'\n') lines
    → (elided : List Str) × (elide lines ≡ some elided) × (length elided ≡ length lines)
unfolding elide
elide_total [] h = ([], refl, refl)
elide_total (line ∷ lines) h =
    let (collapsed, e) = collapse_strings_total line h.0 in
    let (elided, f, l) = elide_total lines h.1 in
    (cleanse_comments collapsed ∷ elided, rw (elide, e, f), omega (arith, l))

-- All four lists have as many lines as the file, and the raw one is the file.
pub record IsAligned (file : List Str) (c : CleansedLines) : Type 0 where
  pub raw : c.raw_lines ≡ file
  pub counted : c.num_lines ≡ length file
  pub without_raw_strings : length c.lines_without_raw_strings ≡ length file
  pub without_comments : length c.lines ≡ length file
  pub without_strings : length c.elided ≡ length file

-- A file whose lines have no newline in them is cleansed: no loop goes on for ever, no pattern fails to
-- match, and line for line the lists are in step with the file.
pub cleansed_lines_total :
    (file : List Str)
    → All (Lacks b'\n') file
    → (c : CleansedLines) × (cleansed_lines file ≡ some c) × IsAligned file c
unfolding cleansed_lines build
cleansed_lines_total file h =
    let (without_raw, e, l, k) = cleanse_raw_strings_total file in
    let (elided, f, l') = elide_total without_raw (k h) in
    (
      record {
        elided = elided;
        lines = map cleanse_comments without_raw;
        raw_lines = file;
        num_lines = length file;
        lines_without_raw_strings = without_raw;
      },
      rw (cleansed_lines, e, build, f),
      record {
        raw = refl;
        counted = refl;
        without_raw_strings = l;
        without_comments = omega (arith, l, length-map cleanse_comments without_raw);
        without_strings = omega (arith, l, l');
      },
    )
