-- ===== src/Style/AltTokens.antt =====
-- `CheckAltTokens` of cpplint.py.
use dyod_ws.Base.{ℕ, ◌||◌, List, [], ◌∷◌, ◌++◌, if◌then◌else◌}
use dyod_ws.Base.Text.{Str, txt, str_eq, contains}
use dyod_ws.Re.{
  Re, group, at_start, at_end, ahead, one, one_of, words, spaces, Found, group_text, matches,
  find_all, ◌▹◌, ◌∣∣◌,
}
use dyod_ws.Report.{Report, error}

-- `_ALT_TOKEN_REPLACEMENT`
abbrev pub alt_tokens : List (Str × Str)
alt_tokens =
    (txt "and", txt "&&")
    ∷ (txt "bitor", txt "|")
    ∷ (txt "or", txt "||")
    ∷ (txt "xor", txt "^")
    ∷ (txt "compl", txt "~")
    ∷ (txt "bitand", txt "&")
    ∷ (txt "and_eq", txt "&=")
    ∷ (txt "or_eq", txt "|=")
    ∷ (txt "xor_eq", txt "^=")
    ∷ (txt "not", txt "!")
    ∷ (txt "not_eq", txt "!=")
    ∷ []

alt_token_in : List (Str × Str) → Str → Str
alt_token_in [] token = []
alt_token_in ((name, symbol) ∷ ts) token =
    let later = alt_token_in ts token in if str_eq name token then symbol else later

-- `[ =()](and|…)(?=[ (]|$)`; what must follow a name leaves one of them at most, in whatever order
-- they are tried.
unfoldable pub alt_token_pattern : Re
unfolding one_of words
alt_token_pattern =
    one_of " =()"
    ▹ group 1 (
        words (
          "and" ∷ "bitor" ∷ "or" ∷ "xor" ∷ "compl" ∷ "bitand" ∷ "and_eq" ∷ "or_eq" ∷ "xor_eq"
          ∷ "not" ∷ "not_eq" ∷ []))
    ▹ ahead (one_of " (" ∣∣ at_end)

token_reports : Str → ℕ → List Found → List Report
unfolding alt_token_in
token_reports filename linenum [] = []
token_reports filename linenum (m ∷ ms) =
    error filename linenum "readability/alt_tokens" 2 (
      txt "Use operator "
      ++ (alt_token_in alt_tokens (group_text 1 m) ++ (txt " instead of " ++ group_text 1 m)))
    ++ token_reports filename linenum ms

-- `CheckAltTokens`, on the elided line.
unfoldable pub check_alt_tokens : Str → Str → ℕ → List Report
unfolding token_reports
check_alt_tokens filename line linenum =
    if matches (at_start ▹ spaces ▹ one b'#') line
    then []
    else if contains (txt "/*") line || contains (txt "*/") line
    then []
    else token_reports filename linenum (find_all alt_token_pattern line)
