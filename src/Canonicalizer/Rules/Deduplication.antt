-- ===== src/Canonicalizer/Rules/Deduplication.antt =====
-- The deduplication of lib/canonicalizer/rules/structural.cpp keeps values.
use sivra.Prelude.{
  ◌≡◌, ap, sym, ◌∙◌, Bool, Bool-cases, true, inl, inr, List, [], ◌∷◌, ◌++◌, map, some, length, any,
  push_back, arith, ◌==◌, nat_eq,
}
use mathlib.Core.List.{append_assoc, map-append, append-nil, Memᴰ}
use sivra.Ir.Ids.{NodeId}
use sivra.Ir.Trait.{idempotent}
use sivra.Ir.Operation.{OperationDef}
use sivra.Ir.Graph.{ExpressionGraph}
use sivra.Ir.Structural.{equal_nodes}
use sivra.Ir.Structural.Meaning.{Meaning, IsModel, GraphFits}
use sivra.Ir.Structural.Equality.{equal_nodes-same}
use sivra.Canonicalizer.Rewrite.{RewriteSubject, RewriteResult, no_match, RewriteContext, operation}
use sivra.Canonicalizer.Rules.Structural.{
  trait_applies, deduplicate, unique_result, apply_idempotent_deduplication,
}
use sivra.Canonicalizer.Rules.Meaning.{IsIdempotent, HonoursTraits, HasValue, ResultHasValue}

module _ {D : Type 0} (values : NodeId → D) (same : NodeId → NodeId → Bool) where
  any-Memᴰ :
      ((a b : NodeId) → same a b ≡ true → values a ≡ values b)
      → (os : List NodeId) (o : NodeId) → any (λ existing. same existing o) os ≡ true
      → Memᴰ (values o) (map values os)
  any-Memᴰ sound [] o h = absurd (ground arith)
  any-Memᴰ sound (p ∷ os) o h = elim (Bool-cases (same p o)) [
    | inl here ↦ Memᴰ.head (sym (sound p o here))
    | inr other ↦ Memᴰ.tail (any-Memᴰ sound os o (ground arith))
  ]

module _ {D : Type 0} (g : ExpressionGraph) (values : NodeId → D) (f : List D → D) where
  -- The loop keeps the value of an idempotent function.
  deduplicate-same :
      ((a b : NodeId) → equal_nodes g a g b ≡ true → values a ≡ values b)
      → IsIdempotent f
      → (unique os : List NodeId)
      → f (map values (deduplicate g unique os)) ≡ f (map values unique ++ map values os)
  unfolding deduplicate
  deduplicate-same sound law unique [] = ap f (sym (append-nil (map values unique)))
  deduplicate-same sound law unique (o ∷ os) =
      elim (Bool-cases (any (λ existing. equal_nodes g existing g o) unique)) [
        | inl known ↦
            rw known (deduplicate-same sound law unique os)
            ∙ sym (
                law.1 (map values unique) (map values os) (values o)
                  (any-Memᴰ values (λ a b. equal_nodes g a g b) sound unique o known))
        | inr new ↦
            rw new (deduplicate-same sound law (push_back unique o) os)
            ∙ ap (λ vs. f (vs ++ map values os)) (map-append values unique (o ∷ []))
            ∙ ap f (append_assoc (map values unique) (values o ∷ []) (map values os))
      ]

-- What the rule makes of the operands that are left.
unique_result-value :
    {D : Type 0} (m : Meaning D) (values : NodeId → D) (c : RewriteContext) (s : RewriteSubject)
    (d : OperationDef) (v : D) (os : List NodeId)
    → operation c s.operation ≡ some d
    → ((x : D) → m.of_operation s.result_type d.stable_key s.attributes (x ∷ []) ≡ x)
    → m.of_operation s.result_type d.stable_key s.attributes (map values os) ≡ v
    → ResultHasValue m values c v (unique_result s os)
unique_result-value m values c s d v [] found law e = elim (Bool-cases (0 == length s.operands)) [
  | inl same ↦ rw same tt
  | inr fewer ↦ rw fewer (d, found, e)
]
unique_result-value m values c s d v (o ∷ []) found law e =
    elim (Bool-cases (1 == length s.operands)) [
      | inl same ↦ rw same tt
      | inr fewer ↦ rw fewer (sym (law (values o)) ∙ e)
    ]
unique_result-value m values c s d v (o ∷ p ∷ os) found law e =
    elim (Bool-cases (length (o ∷ p ∷ os) == length s.operands)) [
      | inl same ↦ rw same tt
      | inr fewer ↦ rw fewer (d, found, e)
    ]

deduplication-same :
    {D : Type 0} (m : Meaning D) (values : NodeId → D) (c : RewriteContext) (s : RewriteSubject)
    (d : OperationDef) (v : D) (r : RewriteResult)
    → ((a b : NodeId) → equal_nodes c.graph a c.graph b ≡ true → values a ≡ values b)
    → HonoursTraits m c
    → operation c s.operation ≡ some d
    → m.of_operation s.result_type d.stable_key s.attributes (map values s.operands) ≡ v
    → apply_idempotent_deduplication c s ≡ some r
    → ResultHasValue m values c v r
unfolding apply_idempotent_deduplication
deduplication-same m values c s d v r sound honours found e h =
    elim (Bool-cases (trait_applies c s d idempotent)) [
      | inr other ↦ let made : r ≡ no_match = ground arith in rw made tt
      | inl applies ↦
          let made : r ≡ unique_result s (deduplicate c.graph [] s.operands) = ground arith in
          let law = (honours s.operation d s.result_type s.attributes found).2 (ground arith) in
          rw made (
            unique_result-value m values c s d v (deduplicate c.graph [] s.operands) found law.0 (
              deduplicate-same c.graph values
                (m.of_operation s.result_type d.stable_key s.attributes) sound law [] s.operands
              ∙ e))
    ]

-- Where a meaning is as the traits of the operations say, the deduplication of idempotent operands
-- keeps the value of its subject: so for a graph with a value for each node and numbers of the widths
-- of the program.
pub apply_idempotent_deduplication-same :
    {D : Type 0} (m : Meaning D) (values : NodeId → D) (c : RewriteContext) (s : RewriteSubject)
    (v : D) (r : RewriteResult)
    → IsModel m c.graph values
    → GraphFits c.graph
    → HonoursTraits m c
    → HasValue m values c s.operation s.operands s.attributes s.result_type v
    → apply_idempotent_deduplication c s ≡ some r
    → ResultHasValue m values c v r
apply_idempotent_deduplication-same m values c s v r model fits honours (d, found, e) h =
    deduplication-same m values c s d v r
      (λ a b. equal_nodes-same m values values c.graph c.graph a b model model fits fits) honours
      found e h
