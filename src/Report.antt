-- ===== src/Report.antt =====
-- A call of the error handler of cpplint.py, as a value: the checks return the list of their calls,
-- in order, and none of them reads anything back from the handler.
use dyod_ws.Base.{ℕ, Bool, true, false, String, List, [], ◌∷◌}
use dyod_ws.Base.Text.{Str, txt}

pub record Report : Type 0 where
  pub filename : Str
  pub linenum : ℕ
  pub category : Str
  pub confidence : ℕ
  pub message : Str

-- `error(filename, linenum, category, confidence, message)`
abbrev pub error : Str → ℕ → String → ℕ → Str → List Report
error filename linenum category confidence message =
    record {
      filename = filename;
      linenum = linenum;
      category = txt category;
      confidence = confidence;
      message = message;
    }
    ∷ []

-- The calls under a condition.
abbrev pub report_if : Bool → List Report → List Report
report_if true rs = rs
report_if false rs = []
