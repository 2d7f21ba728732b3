-- ===== src/Nesting/Declarations/Ends.antt =====
-- The loop over namespaces comes to its end.
use dyod_ws.Base.{
  ℕ, suc, ◌+◌, ◌≤◌, ◌<◌, Option, none, some, List, ◌≡◌, ◌∙◌, refl, sym, ap, arith, length,
  length-drop, inl, inr, Option-cases,
}
use dyod_ws.Base.Loop.{again, stop, iterate_total, again-injective, stop-injective}
use dyod_ws.Base.Text.{Str, txt, find}
use dyod_ws.Nesting.Blocks.{Block}
use dyod_ws.Nesting.Declarations.{
  Rest, namespace_decl, push_namespace, namespace_round, consume_namespaces,
}
use dyod_ws.Re.{re_match, group_of, group_text, lit}
use dyod_ws.Re.Rest.{EndsIn, last, behind, width, group_text-shorter}

namespace_decl-EndsIn : EndsIn 2 9 namespace_decl
unfolding namespace_decl width lit
namespace_decl-EndsIn = behind _ (behind _ (behind _ (behind _ (behind _ (behind _ (last _))))))

push_namespace-line :
    (linenum : ℕ) (stack : List Block) (name : Option Str) (line : Str)
    → length (push_namespace linenum stack name line).line ≤ length line
unfolding push_namespace
push_namespace-line linenum stack name line = elim (Option-cases (find (txt "{") line)) [
  | inl e ↦ rw (push_namespace, e) (omega arith)
  | inr (i, e) ↦ rw (push_namespace, e) (omega (arith, length-drop (i + 1) line))
]

module _ (linenum : ℕ) where
  -- A round takes at least the word `namespace` off the line.
  round-shorter :
      (s s' : Rest) → namespace_round linenum s ≡ again s' → length s'.line < length s.line
  unfolding namespace_round
  round-shorter s s' h = elim (Option-cases (re_match namespace_decl s.line)) [
    | inl e ↦ absurd (let h' = rw (namespace_round, e) at h in cc)
    | inr (m, e) ↦
        let is_s' = again-injective _ _ (rw (namespace_round, e) at h) in
        omega (
          arith,
          group_text-shorter 2 s.line m refl namespace_decl-EndsIn e,
          push_namespace-line linenum s.stack (group_of 1 m) (group_text 2 m),
          ap (λ (x : Rest). length x.line) is_s',
        )
  ]

  round-end :
      (s a : Rest) → namespace_round linenum s ≡ stop a → re_match namespace_decl a.line ≡ none
  unfolding namespace_round
  round-end s a h = elim (Option-cases (re_match namespace_decl s.line)) [
    | inl e ↦
        let is_a : s ≡ a = stop-injective s a (rw (namespace_round, e) at h) in
        ap (λ (x : Rest). re_match namespace_decl x.line) (sym is_a) ∙ e
    | inr (m, e) ↦ absurd (let h' = rw (namespace_round, e) at h in cc)
  ]

-- The loop over namespaces ends on every line, with what is left of the line no namespace.
pub consume_namespaces_total :
    (linenum : ℕ) (s : Rest)
    → (r : Rest) × (consume_namespaces linenum s ≡ some r) × (re_match namespace_decl r.line ≡ none)
unfolding consume_namespaces
consume_namespaces_total linenum s =
    iterate_total (λ x. Unit) (λ a. re_match namespace_decl a.line ≡ none) (λ x. length x.line)
      (namespace_round linenum) (λ x x' k e. (tt, round-shorter linenum x x' e))
      (λ x a k e. round-end linenum x a e) (suc (length s.line)) s (omega arith) tt
