-- ===== src/Style/Explicit/Raises.antt =====
-- A constructor on which `CheckForNonStandardConstructs` raises.
use dyod_ws.Base.{
  ℕ, true, ◌≡◌, refl, sym, ap, none, some, List, [], ◌∷◌, arith, get_or, Bool-cases, inl, inr, ◌==◌,
}
use dyod_ws.Base.Text.{Str, txt, split_on, cons_head, join}
use dyod_ws.Cleanse.{CleansedLines}
use dyod_ws.Nesting.Blocks.{Block, ClassInfo}
use dyod_ws.Nesting.Preprocessor.{NestingState}
use dyod_ws.Re.{Found, re_match, group_of}
use dyod_ws.Style.Explicit.{
  constructor_args, split_args, constructor_pattern, base_classname, innermost_block,
  constructor_reports, on_constructor, check_for_non_standard_constructs,
}
use dyod_ws.Style.Explicit.Arguments.{Excess, join_args-Excess}

split_on-cons : (sep : ℕ) (s : Str) → (w : Str) × (ws : List Str) × (split_on sep s ≡ w ∷ ws)
unfolding split_on cons_head
split_on-cons sep [] = ([], [], refl)
split_on-cons sep (c ∷ s) =
    let (w, ws, e) = split_on-cons sep s in
    elim (Bool-cases (c == sep)) [
      | inl y ↦ ([], split_on sep s, rw y)
      | inr n ↦ (c ∷ w, ws, rw (n, e))
    ]

join-cons_head :
    (sep c : ℕ) (w s : Str) (ws : List Str)
    → join (sep ∷ []) (w ∷ ws) ≡ s
    → join (sep ∷ []) ((c ∷ w) ∷ ws) ≡ c ∷ s
unfolding join
join-cons_head sep c w s [] e = ap (λ x. c ∷ x) e
join-cons_head sep c w s (v ∷ ws) e = ap (λ x. c ∷ x) e

-- Splitting at a character and joining with it gives the text back.
join-split_on : (sep : ℕ) (s : Str) → join (sep ∷ []) (split_on sep s) ≡ s
unfolding split_on join cons_head
join-split_on sep [] = refl
join-split_on sep (c ∷ s) =
    let (w, ws, e) = split_on-cons sep s in
    let ih = rw e at (join-split_on sep s) in
    elim (Bool-cases (c == sep)) [
      | inl y ↦ rw (y, e) (ground (arith, ih))
      | inr n ↦ rw (n, e) (join-cons_head sep c w s ws ih)
    ]

-- Arguments with more `<` than `>`: the loops raise.
constructor_args-Excess :
    (c : ℕ) (s : Str) → Excess (c ∷ s) → constructor_args (some (c ∷ s)) ≡ none
unfolding constructor_args split_args txt
constructor_args-Excess c s x =
    let (w, ws, e) = split_on-cons b',' (c ∷ s) in
    let whole : join (b',' ∷ []) (w ∷ ws) ≡ c ∷ s = rw e at (join-split_on b',' (c ∷ s)) in
    rw (constructor_args, split_args, e) (join_args-Excess w ws (rw (sym whole) at x))

-- On a line in a class, the check raises where the arguments of what looks like a constructor of that
-- class have more `<` than `>`.
pub check-raises :
    (filename : Str) (clean_lines : CleansedLines) (linenum c : ℕ) (text : Str) (s : NestingState)
    (b : Block) (info : ClassInfo) (m : Found)
    → innermost_block s.stack ≡ some (b, info)
    → b.seen_open_brace ≡ true
    → re_match
        (constructor_pattern (base_classname info.name))
        (get_or clean_lines.elided linenum [])
      ≡ some m
    → group_of 2 m ≡ some (c ∷ text)
    → Excess (c ∷ text)
    → check_for_non_standard_constructs filename clean_lines linenum s ≡ none
unfolding check_for_non_standard_constructs constructor_reports on_constructor
check-raises filename clean_lines linenum c text s b info m i o h g x =
    let raised = constructor_args-Excess c text x in
    rw (i, check_for_non_standard_constructs, constructor_reports, o, h, on_constructor, g, raised)
