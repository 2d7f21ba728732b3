-- ===== src/Nesting/Blocks.antt =====
-- The blocks of cpplint.py: `_BlockInfo` and its subclasses, with their checks.
use dyod_ws.Base.{
  ℕ, ◌+◌, ◌-◌, Bool, true, false, not, ◌&&◌, ◌||◌, Option, none, some, List, [], ◌∷◌, ◌++◌, length,
  get_or, take, drop, reverse, ltb, ◌==◌, if◌then◌else◌,
}
use dyod_ws.Base.Int.{ℤ, pos}
use dyod_ws.Base.Text.{Str, txt, str_eq, count}
use dyod_ws.Cleanse.{CleansedLines}
use dyod_ws.FileChecks.{get_indent_level}
use dyod_ws.Re.{
  Re, star, group, at_start, at_end, boundary, set, one, lit, lit_codes, plus, words, none_of,
  single, space, spaces, dots, space_ranges, re_match, re_search, matches, searches, group_text,
  ◌▹◌, ◌∣∣◌,
}
use dyod_ws.Report.{Report, error}

-- `_NO_ASM` to `_BLOCK_ASM`
pub data InlineAsm : Type 0 where
  no_asm inside_asm end_asm block_asm : InlineAsm

-- What `_ClassInfo` adds to a block.
pub record ClassInfo : Type 0 where
  pub name : Str
  pub is_derived : Bool
  pub access : Str
  pub is_struct : Bool
  pub class_indent : ℕ
  pub last_line : ℕ

-- The class of a block.
pub data Kind : Type 0 where
  plain_block : Kind
  extern_c : Kind
  class_info : ClassInfo → Kind
  namespace_info : Str → Kind

pub record Block : Type 0 where
  pub starting_linenum : ℕ
  pub seen_open_brace : Bool
  pub open_parentheses : ℤ
  pub inline_asm : InlineAsm
  pub check_namespace_indentation : Bool
  pub kind : Kind

-- `_BlockInfo.__init__`
unfoldable pub block_info : ℕ → Bool → Block
block_info linenum seen_open_brace = record {
  starting_linenum = linenum;
  seen_open_brace = seen_open_brace;
  open_parentheses = pos 0;
  inline_asm = no_asm;
  check_namespace_indentation = false;
  kind = plain_block;
}

-- `_ExternCInfo.__init__`
unfoldable pub extern_c_info : ℕ → Block
unfolding block_info
extern_c_info linenum = record (block_info linenum true) { kind = extern_c }

-- `_NamespaceInfo.__init__`; `none` is a namespace with no name.
unfoldable pub new_namespace_info : Option Str → ℕ → Block
unfolding block_info
new_namespace_info name linenum = record (block_info linenum false) {
  check_namespace_indentation = true;
  kind = namespace_info (elim name [ none ↦ [] | some n ↦ n ]);
}

-- The loop for the last line of a class: the depth is `opened - closed`.
last_line_from : ℕ → ℕ → ℕ → List Str → ℕ
last_line_from i opened closed [] = 0
last_line_from i opened closed (line ∷ rest) =
    let opened' = opened + count (txt "{") line in
    let closed' = closed + count (txt "}") line in
    let later = last_line_from (i + 1) opened' closed' rest in
    if opened' == closed' then i else later

-- `_ClassInfo.__init__`
unfoldable pub new_class_info : Str → Str → CleansedLines → ℕ → Block
unfolding block_info last_line_from
new_class_info name class_or_struct clean_lines linenum =
    let is_struct = str_eq class_or_struct (txt "struct") in
    record (block_info linenum false) {
      check_namespace_indentation = true;
      kind = class_info (record {
        name = name;
        is_derived = false;
        access = if is_struct then txt "public" else txt "private";
        is_struct = is_struct;
        class_indent = get_indent_level (get_or clean_lines.raw_lines linenum []);
        last_line = last_line_from linenum 0 0 (drop linenum clean_lines.elided);
      });
    }

-- `(^|[^:]):($|[^:])`
unfoldable pub bare_colon : Re
unfolding none_of
bare_colon = group 1 (at_start ∣∣ none_of ":") ▹ one b':' ▹ group 2 (at_end ∣∣ none_of ":")

begin_class : Bool → ClassInfo → ClassInfo
begin_class colon c = if colon then record c { is_derived = true } else c

-- `CheckBegin`, on the elided line.
unfoldable pub check_begin : Str → Block → Block
unfolding begin_class
check_begin line b = elim b.kind [
  | class_info c ↦ record b { kind = class_info (begin_class (searches bare_colon line) c) }
  | _ ↦ b
]

-- `\b(DISALLOW_COPY_AND_ASSIGN|DISALLOW_IMPLICIT_CONSTRUCTORS)\(name\)`
unfoldable pub disallow : Str → Re
unfolding words lit_codes
disallow name =
    boundary
    ▹ group 1 (words ("DISALLOW_COPY_AND_ASSIGN" ∷ "DISALLOW_IMPLICIT_CONSTRUCTORS" ∷ []))
    ▹ one b'('
    ▹ lit_codes name
    ▹ one b')'

-- `^\s*$`
unfoldable pub blank : Re
blank = at_start ▹ spaces ▹ at_end

-- The loop over the lines of a class from its end; the first of them is number `i`.
disallow_from : Str → Str → ℕ → Bool → List Str → List Report
disallow_from filename name i seen_last_thing_in_class [] = []
disallow_from filename name i seen_last_thing_in_class (line ∷ rest) =
    elim (re_search (disallow name) line) [
      | some m ↦
          if seen_last_thing_in_class
          then error filename i "readability/constructors" 3
              (group_text 1 m ++ txt " should be the last thing in the class")
          else []
      | none ↦
          disallow_from filename name (i - 1) (seen_last_thing_in_class || not (matches blank line))
            rest
    ]

-- `^( *)\}`
unfoldable pub closing_brace : Re
closing_brace = at_start ▹ group 1 (star (one b' ')) ▹ one b'}'

unfoldable pub parent_name : ClassInfo → Str
parent_name c = (if c.is_struct then txt "struct " else txt "class ") ++ c.name

indent_reports : Str → ℕ → ClassInfo → Str → List Report
indent_reports filename linenum c line = elim (re_match closing_brace line) [
  | none ↦ []
  | some indent ↦
      if not (length (group_text 1 indent) == c.class_indent)
      then error filename linenum "whitespace/indent" 3
          (txt "Closing brace should be aligned with beginning of " ++ parent_name c)
      else []
]

-- `_ClassInfo.CheckEnd`
unfoldable pub check_end_class : Str → CleansedLines → ℕ → ℕ → ClassInfo → List Report
unfolding disallow_from indent_reports
check_end_class filename clean_lines linenum starting_linenum c =
    let between =
      take (linenum - starting_linenum - 1) (drop (starting_linenum + 1) clean_lines.elided) in
    disallow_from filename c.name (linenum - 1) false (reverse between)
    ++ indent_reports filename linenum c (get_or clean_lines.elided linenum [])

-- `^\s*};*\s*(//|/\*).*\bnamespace`, which three patterns begin with.
unfoldable pub namespace_comment : Re
unfolding lit
namespace_comment =
    at_start
    ▹ spaces
    ▹ one b'}'
    ▹ star (one b';')
    ▹ spaces
    ▹ group 1 (lit "//" ∣∣ lit "/*")
    ▹ dots
    ▹ boundary
    ▹ lit "namespace"

-- `[\*/\.\\\s]*$`
unfoldable pub comment_tail : Re
comment_tail =
    star (set (single b'*' ∷ single b'/' ∷ single b'.' ∷ single b'\\' ∷ space_ranges)) ▹ at_end

-- `^\s*}.*\b(namespace anonymous|anonymous namespace)\b`
unfoldable pub anonymous_comment : Re
unfolding words
anonymous_comment =
    at_start
    ▹ spaces
    ▹ one b'}'
    ▹ dots
    ▹ boundary
    ▹ group 1 (words ("namespace anonymous" ∷ "anonymous namespace" ∷ []))
    ▹ boundary

namespace_reports : Str → ℕ → Str → Str → List Report
namespace_reports filename linenum [] line =
    if not (matches (namespace_comment ▹ comment_tail) line)
    then (if matches anonymous_comment line
        then error filename linenum "readability/namespace" 5 (
            txt "Anonymous namespace should be terminated with \"// namespace\""
            ++ txt " or \"// anonymous namespace\"")
        else error filename linenum "readability/namespace" 5
            (txt "Anonymous namespace should be terminated with \"// namespace\""))
    else []
namespace_reports filename linenum (c ∷ name) line =
    if not (matches (namespace_comment ▹ plus space ▹ lit_codes (c ∷ name) ▹ comment_tail) line)
    then error filename linenum "readability/namespace" 5
        (txt "Namespace should be terminated with \"// namespace " ++ ((c ∷ name) ++ txt "\""))
    else []

-- `_NamespaceInfo.CheckEnd`
unfoldable pub check_end_namespace : Str → CleansedLines → ℕ → ℕ → Str → List Report
unfolding namespace_reports
check_end_namespace filename clean_lines linenum starting_linenum name =
    let line = get_or clean_lines.raw_lines linenum [] in
    if ltb (linenum - starting_linenum) 10 && not (matches (namespace_comment ▹ boundary) line)
    then []
    else namespace_reports filename linenum name line

-- `CheckEnd`
unfoldable pub check_end : Str → CleansedLines → ℕ → Block → List Report
unfolding check_end_class check_end_namespace
check_end filename clean_lines linenum b = elim b.kind [
  | class_info c ↦ check_end_class filename clean_lines linenum b.starting_linenum c
  | namespace_info name ↦ check_end_namespace filename clean_lines linenum b.starting_linenum name
  | _ ↦ []
]

-- `IsBlockInfo`
unfoldable pub is_block_info : Block → Bool
is_block_info b = elim b.kind [ plain_block ↦ true | _ ↦ false ]
