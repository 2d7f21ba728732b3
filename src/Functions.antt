-- ===== src/Functions.antt =====
-- `_FunctionState` of cpplint.py: the function that is being read, and its length.
pub mod Lengths
pub mod Size
use dyod_ws.Base.{
  ℕ, zero, suc, ◌+◌, ◌*◌, ◌/◌, ◌^◌, Bool, true, false, not, List, [], ◌∷◌, ◌++◌, ltb, if◌then◌else◌,
}
use dyod_ws.Base.Text.{Str, txt, show}
use dyod_ws.Re.{Re, seq, alt, one, lit, matches, ◌▹◌, ◌∣∣◌}
use dyod_ws.Report.{Report, error}

abbrev pub normal_trigger : ℕ
normal_trigger = 250

abbrev pub test_trigger : ℕ
test_trigger = 400

pub record FunctionState : Type 0 where
  pub in_a_function : Bool
  pub lines_in_function : ℕ
  pub current_function : Str

-- `__init__`
abbrev pub init : FunctionState
init = record { in_a_function = false; lines_in_function = 0; current_function = [] }

unfoldable pub begin : Str → FunctionState → FunctionState
begin function_name s = record {
  in_a_function = true;
  lines_in_function = 0;
  current_function = function_name;
}

unfoldable pub count : FunctionState → FunctionState
count s = if s.in_a_function then record s { lines_in_function = s.lines_in_function + 1 } else s

-- `T(EST|est)`
unfoldable pub test_name : Re
unfolding lit
test_name = one b'T' ▹ (lit "EST" ∣∣ lit "est")

-- The integer part of the logarithm to base 2 of the integer quotient, for n ≥ 1; fuel n is enough.
unfoldable pub log2 : ℕ → ℕ → ℕ
log2 zero n = 0
log2 (suc fuel) n = let rest = suc (log2 fuel (n / 2)) in if ltb n 2 then 0 else rest

unfoldable pub base_trigger : Str → ℕ
base_trigger current_function =
    if matches test_name current_function then test_trigger else normal_trigger

-- `trigger`, at a level of verbosity.
unfoldable pub trigger : ℕ → FunctionState → ℕ
trigger verbose_level s = base_trigger s.current_function * 2 ^ verbose_level

error_level : ℕ → ℕ → ℕ
error_level lines base =
    let level = log2 (lines / base) (lines / base) in if ltb 5 level then 5 else level

size_message : ℕ → FunctionState → Str
size_message verbose_level s =
    txt "Small and focused functions are preferred: "
    ++ (s.current_function
        ++ (txt " has "
            ++ (show s.lines_in_function
                ++ (txt " non-comment lines (error triggered by exceeding "
                    ++ (show (trigger verbose_level s) ++ txt " lines).")))))

unfoldable pub check : Str → ℕ → ℕ → FunctionState → List Report
unfolding error_level size_message
check filename linenum verbose_level s =
    if not s.in_a_function
    then []
    else if ltb (trigger verbose_level s) s.lines_in_function
    then error filename linenum "readability/fn_size"
        (error_level s.lines_in_function (base_trigger s.current_function))
        (size_message verbose_level s)
    else []

unfoldable pub end_function : FunctionState → FunctionState
end_function s = record s { in_a_function = false }
