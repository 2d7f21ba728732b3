-- ===== src/Functions/Size.antt =====
-- When the size of a function is reported, and how sure the report is.
use native.Mathlib.Nat.{pow-suc}
use dyod_ws.Base.{
  ℕ, zero, suc, ◌+◌, ◌*◌, ◌/◌, ◌^◌, ◌≤◌, ◌<◌, true, not, ◌≡◌, ◌≢◌, refl, ◌↔◌, [], arith, ltb, All,
  inl, inr, ◌⊎◌, if_both, ltb→lt, ◌||◌, if◌then◌else◌, ◌∷◌,
}
use dyod_ws.Base.Text.{Str, txt, starts_with}
use dyod_ws.Functions.{
  FunctionState, begin, count, base_trigger, test_name, trigger, error_level, log2, check,
  end_function,
}
use dyod_ws.Re.{re_match}
use dyod_ws.Report.{Report}

-- `n` lines are counted.
pub count_lines : ℕ → FunctionState → FunctionState
count_lines zero s = s
count_lines (suc n) s = count_lines n (count s)

count_lines-inside :
    (n : ℕ) (s : FunctionState) → s.in_a_function ≡ true → (count_lines n s).in_a_function ≡ true
unfolding count_lines count
count_lines-inside zero s h = h
count_lines-inside (suc n) s h = count_lines-inside n (count s) (ground arith)

count_lines-lines :
    (n : ℕ) (s : FunctionState)
    → s.in_a_function ≡ true
    → (count_lines n s).lines_in_function ≡ s.lines_in_function + n
unfolding count_lines count
count_lines-lines zero s h = omega arith
count_lines-lines (suc n) s h = ground (arith, count_lines-lines n (count s) (ground arith))

count_lines-name :
    (n : ℕ) (s : FunctionState) → (count_lines n s).current_function ≡ s.current_function
unfolding count_lines count
count_lines-name zero s = refl
count_lines-name (suc n) s = ground (arith, count_lines-name n (count s))

check_iff :
    (filename : Str) (linenum verbose_level : ℕ) (s : FunctionState)
    → s.in_a_function ≡ true
    → (check filename linenum verbose_level s ≢ [])
      ↔ (trigger verbose_level s < s.lines_in_function)
unfolding check
check_iff filename linenum verbose_level s h = (λ e. ground arith, λ e f. ground arith)

-- "TEST" or "Test" at the start of a name makes it the name of a test.
base_trigger-is :
    (name : Str)
    → base_trigger name
      ≡ (if starts_with (txt "TEST") name || starts_with (txt "Test") name then 400 else 250)
unfolding base_trigger test_name re_match txt starts_with dyod_ws.Re.matches
base_trigger-is [] = refl
base_trigger-is (a ∷ []) = ground arith
base_trigger-is (a ∷ b ∷ []) = ground arith
base_trigger-is (a ∷ b ∷ c ∷ []) = ground arith
base_trigger-is (a ∷ b ∷ c ∷ d ∷ name) = ground arith

-- A function of `n` counted lines is reported exactly if `n` is more than its trigger, which is 400
-- lines for a name that begins with "TEST" or "Test" and 250 for any other, doubled for each level of verbosity.
pub check-begin_iff :
    (filename name : Str) (linenum verbose_level n : ℕ) (s : FunctionState)
    → (check filename linenum verbose_level (count_lines n (begin name s)) ≢ []) ↔ (
        (if starts_with (txt "TEST") name || starts_with (txt "Test") name then 400 else 250)
          * 2 ^ verbose_level
        < n)
unfolding begin trigger
check-begin_iff filename name linenum verbose_level n s = rw (← base_trigger-is name) (
    let t = begin name s in
    let e = count_lines-lines n t refl in
    let k = count_lines-name n t in
    let (f, g) =
      check_iff filename linenum verbose_level (count_lines n t) (count_lines-inside n t refl) in
    (λ h. ground (arith, f h, e, k), λ h. g (ground (arith, h, e, k))))

-- Behind the end of a function nothing is reported, however many lines are counted.
pub check-end :
    (filename : Str) (linenum verbose_level n : ℕ) (s : FunctionState)
    → check filename linenum verbose_level (count_lines n (end_function s)) ≡ []
unfolding end_function check count_lines count
check-end filename linenum verbose_level zero s = refl
check-end filename linenum verbose_level (suc n) s = check-end filename linenum verbose_level n s

pow-pos : (v : ℕ) → 0 < 2 ^ v
pow-pos zero = omega arith
pow-pos (suc v) = omega (arith, pow-pos v, pow-suc 2 v)

le-log2 : (v fuel n : ℕ) → 2 ^ v ≤ n → n ≤ fuel → v ≤ log2 fuel n
unfolding log2
le-log2 zero fuel n h b = omega arith
le-log2 (suc v) zero n h b = absurd (omega (arith, pow-pos v, pow-suc 2 v))
le-log2 (suc v) (suc fuel) n h b = ground (arith, pow-pos v, pow-suc 2 v, le-log2 v fuel (n / 2))

base_trigger-cases : (name : Str) → (base_trigger name ≡ 400) ⊎ (base_trigger name ≡ 250)
unfolding base_trigger
base_trigger-cases name = ground arith

le-div : (a b n : ℕ) → (b ≡ 400) ⊎ (b ≡ 250) → b * a < n → a ≤ n / b
le-div a b n (inl e) h = rw e (let h' = rw e at h in omega arith)
le-div a b n (inr e) h = rw e (let h' = rw e at h in omega arith)

error_level_bounds :
    (v lines base : ℕ)
    → v ≤ 5
    → 2 ^ v ≤ lines / base
    → (v ≤ error_level lines base) × (error_level lines base ≤ 5)
unfolding error_level
error_level_bounds v lines base h b = ground (arith, le-log2 v (lines / base) (lines / base) b)

-- At a verbosity of at most 5, a report on the size of a function is never below the verbosity, so
-- that the confidence does not keep it from being printed; and it is never above 5.
pub check_confidence :
    (filename : Str) (linenum verbose_level : ℕ) (s : FunctionState)
    → verbose_level ≤ 5
    → All
        (λ (r : Report). (verbose_level ≤ r.confidence) × (r.confidence ≤ 5))
        (check filename linenum verbose_level s)
unfolding check trigger
check_confidence filename linenum verbose_level s h =
    let P = All (λ (r : Report). (verbose_level ≤ r.confidence) × (r.confidence ≤ 5)) in
    let base = base_trigger s.current_function in
    if_both P (not s.in_a_function) (λ _. tt)
      λ _.
        if_both P (ltb (base * 2 ^ verbose_level) s.lines_in_function)
          (λ m.
            let over : base * 2 ^ verbose_level < s.lines_in_function = ltb→lt _ _ m in
            (
              error_level_bounds verbose_level s.lines_in_function base h (
                  le-div (2 ^ verbose_level) base s.lines_in_function
                    (base_trigger-cases s.current_function) over),
              tt,
            ))
          (λ _. tt)
