-- ===== src/Canonicalizer/Rules/Constants.antt =====
-- Operands that lib/canonicalizer/detail/match.cpp finds to be a declared constant.
use sivra.Prelude.{
  ◌+◌, ◌≡◌, refl, ap, sym, subst, ◌∙◌, map, Bool, Bool-cases, true, if◌then◌else◌, ◌⊎◌, inl, inr,
  List, [], ◌∷◌, ◌++◌, Option, none, some, Option-cases, length, length-append, all, any, arith,
  ◌==◌, nat_eq, ==→≡,
}
use sivra.Ir.ValueType.{ValueType, kind_eq, value_type_eq, category_eq}
use sivra.Ir.Constant.{ScalarConstant, ConstantValue, element_count, scalar_constant_eq}
use sivra.Ir.Ids.{NodeId}
use sivra.Ir.Operation.{OperationConstant}
use sivra.Ir.Graph.{ExpressionNode, ExpressionPayload, get_if_constant}
use sivra.Ir.Structural.{elements_of}
use sivra.Ir.Structural.Encoding.{length-elements_from}
use sivra.Ir.Structural.Meaning.{Meaning, payload_value, payload_value-constant}
use sivra.Canonicalizer.Rewrite.{RewriteSubject, RewriteContext, node}
use sivra.Canonicalizer.Rules.Match.{
  matches_operation_constant, constant_operand_matches, present, operand_matches,
}
use sivra.Canonicalizer.Rules.Denotes.{lanes, IsConstant, without_sign, Reads, matching-Denotes}

lanes-elements_of :
    (v : ConstantValue) (t : ValueType) (es : List ScalarConstant)
    → v.result_type ≡ t
    → elements_of v ≡ some es
    → length es ≡ lanes t
unfolding element_count
lanes-elements_of v t es own read =
    length-elements_from v (element_count v) 0 es read ∙ ap lanes own

present-any :
    (p : OperationConstant → Bool) (a : Option OperationConstant) (es : List OperationConstant)
    → any p (present a es) ≡ true
    → ((e : OperationConstant) × (a ≡ some e) × (p e ≡ true)) ⊎ (any p es ≡ true)
present-any p none es h = inr h
present-any p (some e) es h = elim (Bool-cases (p e)) [
  | inl here ↦ inl (e, refl, here)
  | inr other ↦ inr (ground arith)
]

child-constant :
    (s : RewriteSubject) (child : ExpressionNode) (k : OperationConstant)
    → constant_operand_matches s child k ≡ true
    → (v : ConstantValue) × (es : List ScalarConstant) × (child.payload
        ≡ ExpressionPayload.constant v)
      × (s.result_type ≡ child.result_type)
      × (v.result_type ≡ s.result_type)
      × (elements_of v ≡ some es)
      × (all (λ e. matches_operation_constant e k s.result_type) es ≡ true)
unfolding constant_operand_matches
child-constant s child k h = elim (Option-cases (get_if_constant child)) [
  | inl other ↦ absurd (ground arith)
  | inr (v, found) ↦ elim (Option-cases (elements_of v)) [
    | inl unread ↦ absurd (ground arith)
    | inr (es, read) ↦ (
      v,
      es,
      ground arith,
      ==→≡ s.result_type child.result_type (ground arith),
      ==→≡ v.result_type s.result_type (ground arith),
      read,
      ground arith,
    )
  ]
]

operand_matches-true :
    (s : RewriteSubject) (c : RewriteContext) (o : NodeId) (es : List OperationConstant)
    → operand_matches s c o es ≡ some true
    → (child : ExpressionNode) × (node c o ≡ some child)
      × (any (constant_operand_matches s child) es ≡ true)
unfolding operand_matches
operand_matches-true s c o [] h = absurd (ground arith)
operand_matches-true s c o (e ∷ es) h = elim (Option-cases (node c o)) [
  | inl absent ↦ absurd (ground arith)
  | inr (child, here) ↦ (child, here, ground arith)
]

pub at_front :
    (before : List NodeId) (k : OperationConstant) (left : Option OperationConstant)
    → (if length before == 0 then left else none) ≡ some k
    → before ≡ []
at_front [] k left h = refl
at_front (o ∷ before) k left h = absurd (ground arith)

pub at_back :
    (before after : List NodeId) (o : NodeId) (k : OperationConstant)
    (right : Option OperationConstant)
    → (if length before + 1 == length (before ++ o ∷ after) then right else none) ≡ some k
    → after ≡ []
at_back before [] o k right h = refl
at_back before (p ∷ after) o k right h =
    absurd (ground (arith, length-append before (o ∷ p ∷ after)))

module _ {D : Type 0} (m : Meaning D) (values : NodeId → D) (c : RewriteContext)
    (s : RewriteSubject) where
  matching-IsConstant :
      (o : NodeId) (child : ExpressionNode) (k : OperationConstant)
      → Reads m c.graph values
      → node c o ≡ some child
      → constant_operand_matches s child k ≡ true
      → IsConstant m s.result_type k (values o)
  matching-IsConstant o child k model here h =
      let (v, es, payload, same, own, read, matched) = child-constant s child k h in
      let value =
        ap (payload_value m values c.graph child.result_type) payload
        ∙ payload_value-constant m values c.graph child.result_type v es read in
      let known : values o ≡ m.of_constant s.result_type es =
        cc (model.0 o child (m.of_constant child.result_type es) here value, same) in
      let signless =
        subst (λ t. m.of_constant t es ≡ m.of_constant t (map without_sign es)) (sym same)
          (model.1 o child v es here payload read) in
      matching-Denotes m k s.result_type es (values o) matched
        (lanes-elements_of v s.result_type es own read) signless known

  -- Which of the three constants an operand matches.
  pub operand_matches-cases :
      (o : NodeId) (anywhere left right : Option OperationConstant)
      → Reads m c.graph values
      → operand_matches s c o (present anywhere (present left (present right []))) ≡ some true
      → ((k : OperationConstant) × (anywhere ≡ some k) × IsConstant m s.result_type k (values o))
        ⊎ (((k : OperationConstant) × (left ≡ some k) × IsConstant m s.result_type k (values o))
            ⊎ ((k : OperationConstant) × (right ≡ some k)
                × IsConstant m s.result_type k (values o)))
  operand_matches-cases o anywhere left right model h =
      let (child, here, found) =
        operand_matches-true s c o (present anywhere (present left (present right []))) h in
      let test = constant_operand_matches s child in
      let value =
        λ (k : OperationConstant) (e : test k ≡ true). matching-IsConstant o child k model here e in
      elim (present-any test anywhere (present left (present right [])) found) [
        | inl (k, given, e) ↦ inl (k, given, value k e)
        | inr found ↦ elim (present-any test left (present right []) found) [
          | inl (k, given, e) ↦ inr (inl (k, given, value k e))
          | inr found ↦ elim (present-any test right [] found) [
            | inl (k, given, e) ↦ inr (inr (k, given, value k e))
            | inr found ↦ absurd (ground arith)
          ]
        ]
      ]
