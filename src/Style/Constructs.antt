-- ===== src/Style/Constructs.antt =====
-- The first half of `CheckForNonStandardConstructs` of cpplint.py: constructs of old compilers.
use dyod_ws.Base.{ℕ, List, [], ◌∷◌, ◌++◌}
use dyod_ws.Base.Text.{Str, txt, replace}
use dyod_ws.Re.{
  Re, group, at_start, boundary, except, one, lit, one_of, plus, opt, words, space, spaces, word,
  space_ranges, single, dots, digit, digits, matches, searches, ◌▹◌, ◌∣∣◌,
}
use dyod_ws.Report.{Report, error, report_if}

-- `printf\s*\(.*".*%[-+ ]?\d*q` and `printf\s*\(.*".*%\d+\$`
unfoldable pub printf_q : Re
unfolding lit one_of opt
printf_q =
    lit "printf"
    ▹ spaces
    ▹ one b'('
    ▹ dots
    ▹ one b'"'
    ▹ dots
    ▹ one b'%'
    ▹ opt (one_of "-+ ")
    ▹ digits
    ▹ one b'q'

unfoldable pub printf_position : Re
unfolding lit plus
printf_position =
    lit "printf" ▹ spaces ▹ one b'(' ▹ dots ▹ one b'"' ▹ dots ▹ one b'%' ▹ plus digit ▹ one b'$'

-- `("|\').*\\(%|\[|\(|{)`
unfoldable pub undefined_escape : Re
undefined_escape =
    group 1 (one b'"' ∣∣ one b'\'')
    ▹ dots
    ▹ one b'\\'
    ▹ group 2 (one b'%' ∣∣ (one b'[' ∣∣ (one b'(' ∣∣ one b'{')))

-- The types of which the storage class is looked at, with `u?` written out.
sized : Re
unfolding words opt
sized =
    opt (one b'u') ▹ words ("int8" ∷ [])
    ∣∣ (opt (one b'u') ▹ words ("int16" ∷ [])
        ∣∣ (opt (one b'u') ▹ words ("int32" ∷ []) ∣∣ opt (one b'u') ▹ words ("int64" ∷ [])))

unfoldable pub storage_class : Re
unfolding words plus sized
storage_class =
    boundary
    ▹ group 1 (
        words (
          "const" ∷ "volatile" ∷ "void" ∷ "char" ∷ "short" ∷ "int" ∷ "long" ∷ "float" ∷ "double"
          ∷ "signed" ∷ "unsigned" ∷ "schar" ∷ [])
        ∣∣ sized)
    ▹ plus space
    ▹ group 2 (words ("register" ∷ "static" ∷ "extern" ∷ "typedef" ∷ []))
    ▹ boundary

-- `\s*#\s*endif\s*[^/\s]+`
unfoldable pub endif_text : Re
unfolding lit plus
endif_text =
    spaces ▹ one b'#' ▹ spaces ▹ lit "endif" ▹ spaces ▹ plus (except (single b'/' ∷ space_ranges))

-- `\s*class\s+(\w+\s*::\s*)+\w+\s*;`
unfoldable pub inner_forward : Re
unfolding lit plus
inner_forward =
    spaces
    ▹ lit "class"
    ▹ plus space
    ▹ plus (group 1 (plus word ▹ spaces ▹ lit "::" ▹ spaces))
    ▹ plus word
    ▹ spaces
    ▹ one b';'

-- `(\w+|[+-]?\d+(\.\d*)?)\s*(<|>)\?=?\s*(\w+|[+-]?\d+)(\.\d*)?`
unfoldable pub max_operator : Re
unfolding plus opt one_of
max_operator =
    group 1 (plus word ∣∣ (opt (one_of "+-") ▹ plus digit ▹ opt (group 2 (one b'.' ▹ digits))))
    ▹ spaces
    ▹ group 3 (one b'<' ∣∣ one b'>')
    ▹ one b'?'
    ▹ opt (one b'=')
    ▹ spaces
    ▹ group 4 (plus word ∣∣ (opt (one_of "+-") ▹ plus digit))
    ▹ opt (group 5 (one b'.' ▹ digits))

-- `^\s*const\s*string\s*&\s*\w+\s*;`
unfoldable pub string_member : Re
unfolding lit plus
string_member =
    at_start
    ▹ spaces
    ▹ lit "const"
    ▹ spaces
    ▹ lit "string"
    ▹ spaces
    ▹ one b'&'
    ▹ spaces
    ▹ plus word
    ▹ spaces
    ▹ one b';'

-- The checks on the line with its strings.
unfoldable pub format_reports : Str → Str → ℕ → List Report
format_reports filename line linenum =
    report_if (searches printf_q line) (
      error filename linenum "runtime/printf_format" 3
        (txt "%q in format strings is deprecated.  Use %ll instead."))
    ++ (report_if (searches printf_position line) (
          error filename linenum "runtime/printf_format" 2
            (txt "%N$ formats are unconventional.  Try rewriting to avoid them."))
        ++ report_if (searches undefined_escape (replace (txt "\\\\") [] line)) (
            error filename linenum "build/printf_format" 3
              (txt "%, [, (, and { are undefined character escapes.  Unescape them.")))

-- The checks on the line with its strings collapsed.
unfoldable pub dialect_reports : Str → Str → ℕ → List Report
dialect_reports filename line linenum =
    report_if (searches storage_class line) (
      error filename linenum "build/storage_class" 5 (
        txt
          "Storage-class specifier (static, extern, typedef, etc) should be at the beginning of the declaration."))
    ++ (report_if (matches endif_text line) (
          error filename linenum "build/endif_comment" 5
            (txt "Uncommented text after #endif is non-standard.  Use a comment."))
        ++ (report_if (matches inner_forward line) (
              error filename linenum "build/forward_decl" 5
                (txt "Inner-style forward declarations are invalid.  Remove this line."))
            ++ (report_if (searches max_operator line) (
                  error filename linenum "build/deprecated" 3
                    (txt ">? and <? (max and min) operators are non-standard and deprecated."))
                ++ report_if (searches string_member line) (
                    error filename linenum "runtime/member_string_references" 2 (
                      txt "const string& members are dangerous. It is much better to use "
                      ++ txt "alternatives, such as pointers or simple constants.")))))
