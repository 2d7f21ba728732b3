-- ===== src/Nesting/Preprocessor/Restore.antt =====
-- What a conditional of the preprocessor does to the stack of blocks.
use dyod_ws.Base.{true, false, not, ◌≡◌, refl, ◌∙◌, List, [], ◌∷◌, arith, All, if◌then◌else◌}
use dyod_ws.Base.Text.{Str}
use dyod_ws.Nesting.Blocks.{Block}
use dyod_ws.Nesting.Preprocessor.{
  PreprocessorInfo, NestingState, if_pattern, else_pattern, endif_pattern, begin_else, end_if,
  update_preprocessor,
}
use dyod_ws.Re.{matches}

-- A directive, and the stack that the lines behind it leave. These lines do not touch `pp_stack`.
pub record Branch : Type 0 where
  pub directive : Str
  pub leaves : List Block

abbrev pub IsIf : Str → Type 0
IsIf line = matches if_pattern line ≡ true

abbrev pub IsElse : Str → Type 0
IsElse line = (matches if_pattern line ≡ false) × (matches else_pattern line ≡ true)

abbrev pub IsEndif : Str → Type 0
IsEndif line =
    (matches if_pattern line ≡ false)
    × (matches else_pattern line ≡ false)
    × (matches endif_pattern line ≡ true)

pub run_branch : NestingState → Branch → NestingState
run_branch s b = record (update_preprocessor b.directive s) { stack = b.leaves }

pub run_branches : NestingState → List Branch → NestingState
run_branches s [] = s
run_branches s (b ∷ bs) = run_branches (run_branch s b) bs

-- The stack at the start of each branch.
pub branch_starts : NestingState → List Branch → List (List Block)
branch_starts s [] = []
branch_starts s (b ∷ bs) =
    (update_preprocessor b.directive s).stack ∷ branch_starts (run_branch s b) bs

-- A whole conditional: the `#if` branch, the `#else` and `#elif` branches, and the `#endif`.
pub conditional : NestingState → Branch → List Branch → Str → NestingState
conditional s first others endif =
    update_preprocessor endif (run_branches (run_branch s first) others)

-- In the branches: the entry of the conditional is on the top of `pp_stack`, it holds the stack of
-- before, and what is kept for the end is what the first branch left.
record InBranches (before first : List Block) (outer : List PreprocessorInfo) (s : NestingState)
    : Type 0 where
  entry : PreprocessorInfo
  on_top : s.pp_stack ≡ entry ∷ outer
  restores : entry.stack_before_if ≡ before
  keeps : (if entry.seen_else then entry.stack_before_else else s.stack) ≡ first

if-InBranches :
    (s : NestingState) (b : Branch)
    → IsIf b.directive
    → InBranches s.stack b.leaves s.pp_stack (run_branch s b)
unfolding run_branch update_preprocessor
if-InBranches s b h = record {
  entry = record { stack_before_if = s.stack; stack_before_else = []; seen_else = false };
  on_top = rw (h, update_preprocessor);
  restores = refl;
  keeps = refl;
}

after_else : PreprocessorInfo → List Block → PreprocessorInfo
after_else pp stack =
    if not pp.seen_else then record pp { seen_else = true; stack_before_else = stack } else pp

else_starts :
    (s : NestingState) (line : Str) (pp : PreprocessorInfo) (outer : List PreprocessorInfo)
    → IsElse line
    → s.pp_stack ≡ pp ∷ outer
    → (update_preprocessor line s).stack ≡ pp.stack_before_if
unfolding update_preprocessor
else_starts s line pp outer h e = rw (h.0, h.1, update_preprocessor, e, begin_else)

else-InBranches :
    {before first : List Block} {outer : List PreprocessorInfo} {s : NestingState} (b : Branch)
    → IsElse b.directive
    → InBranches before first outer s
    → InBranches before first outer (run_branch s b)
unfolding run_branch update_preprocessor after_else
else-InBranches {s = s} b h i = record {
  entry = after_else i.entry s.stack;
  on_top = rw (h.0, h.1, update_preprocessor, i.on_top, begin_else);
  restores = ground (arith, i.restores);
  keeps = ground (arith, i.keeps);
}

branches-InBranches :
    {before first : List Block} {outer : List PreprocessorInfo} (bs : List Branch)
    (s : NestingState)
    → All (λ b. IsElse b.directive) bs
    → InBranches before first outer s
    → InBranches before first outer (run_branches s bs)
unfolding run_branches
branches-InBranches [] s a i = i
branches-InBranches (b ∷ bs) s a i =
    branches-InBranches bs (run_branch s b) a.1 (else-InBranches b a.0 i)

endif-InBranches :
    {before first : List Block} {outer : List PreprocessorInfo} (s : NestingState) (line : Str)
    → IsEndif line
    → InBranches before first outer s
    → ((update_preprocessor line s).stack ≡ first) × ((update_preprocessor line s).pp_stack ≡ outer)
unfolding update_preprocessor
endif-InBranches s line h i = (
  rw (h.0, h.1, h.2, update_preprocessor, i.on_top, end_if) i.keeps,
  rw (h.0, h.1, h.2, update_preprocessor, i.on_top, end_if) refl,
)

-- After a whole conditional the stack of blocks is what the first branch left, whatever stands in
-- the other branches, and the stack of conditionals is as before.
pub conditional-stack :
    (s : NestingState) (first : Branch) (others : List Branch) (endif : Str)
    → IsIf first.directive
    → All (λ b. IsElse b.directive) others
    → IsEndif endif
    → ((conditional s first others endif).stack ≡ first.leaves)
      × ((conditional s first others endif).pp_stack ≡ s.pp_stack)
unfolding conditional
conditional-stack s first others endif hi he hf =
    endif-InBranches (run_branches (run_branch s first) others) endif hf
      (branches-InBranches others (run_branch s first) he (if-InBranches s first hi))

starts-InBranches :
    {before first : List Block} {outer : List PreprocessorInfo} (bs : List Branch)
    (s : NestingState)
    → All (λ b. IsElse b.directive) bs
    → InBranches before first outer s
    → All (λ stack. stack ≡ before) (branch_starts s bs)
unfolding branch_starts
starts-InBranches [] s a i = tt
starts-InBranches {outer = outer} (b ∷ bs) s a i = (
  else_starts s b.directive i.entry outer a.0 i.on_top ∙ i.restores,
  starts-InBranches bs (run_branch s b) a.1 (else-InBranches b a.0 i),
)

-- Each `#else` and `#elif` branch starts from the stack of blocks of the `#if`.
pub branch_starts-stack :
    (s : NestingState) (first : Branch) (others : List Branch)
    → IsIf first.directive
    → All (λ b. IsElse b.directive) others
    → All (λ stack. stack ≡ s.stack) (branch_starts (run_branch s first) others)
branch_starts-stack s first others hi he =
    starts-InBranches others (run_branch s first) he (if-InBranches s first hi)
