-- ===== src/Canonicalizer/Rules/Flattening.antt =====
-- The flattening of lib/canonicalizer/rules/structural.cpp keeps values.
use sivra.Prelude.{
  ℕ, ◌≤◌, ◌≡◌, ap, sym, ◌∙◌, Bool-cases, false, if◌then◌else◌, inl, inr, List, [], ◌∷◌, ◌++◌, map,
  Option, none, some, Option-cases, length, length-map, push_back, arith, list_eq, ==→≡,
}
use mathlib.Core.List.{append_assoc, map-append, append-nil}
use sivra.Ir.ValueType.{value_type_eq}
use sivra.Ir.Ids.{NodeId, operation_id_eq}
use sivra.Ir.Attribute.{attribute_eq}
use sivra.Ir.Trait.{associative}
use sivra.Ir.Operation.{OperationDef}
use sivra.Ir.Graph.{ExpressionNode, ExpressionPayload, OperationApplication, get_if_operation}
use sivra.Ir.Structural.Meaning.{Meaning, IsModel, payload_value, payload_value-operation}
use sivra.Canonicalizer.Rewrite.{
  RewriteSubject, RewriteResult, no_match, RewriteContext, operation, node,
}
use sivra.Canonicalizer.Rules.Structural.{
  trait_applies, with_operands, flattens, flatten_operand, Flattened, on_child, flatten_operands,
  apply_associative_flattening,
}
use sivra.Canonicalizer.Rules.Meaning.{IsAssociative, HonoursTraits, HasValue, ResultHasValue}

-- A child that is put in place is an application like the subject, of two operands at least.
abbrev IsLike : RewriteSubject → ExpressionNode → List NodeId → Type 0
IsLike s child os =
    (a : OperationApplication) × (child.payload ≡ ExpressionPayload.operation a)
    × (a.operation ≡ s.operation)
    × (child.result_type ≡ s.result_type)
    × (a.attributes ≡ s.attributes)
    × (a.operands ≡ os)
    × (2 ≤ length os)

flattens-IsLike :
    (s : RewriteSubject) (count : ℕ) (child : ExpressionNode) (os : List NodeId)
    → flattens s count child ≡ some os
    → IsLike s child os
flattens-IsLike s count child os h = elim (Option-cases (get_if_operation child)) [
  | inl none' ↦ absurd (ground arith)
  | inr (a, e) ↦ (
    a,
    ground arith,
    ==→≡ a.operation s.operation (ground arith),
    ==→≡ child.result_type s.result_type (ground arith),
    ==→≡ a.attributes s.attributes (ground arith),
    ground arith,
    ground arith,
  )
]

-- The rest of the loop behind one operand.
flatten_operands-next :
    (c : RewriteContext) (s : RewriteSubject) (f f' : Flattened) (o : NodeId) (os : List NodeId)
    (child : ExpressionNode) (inner : Option (List NodeId))
    → node c o ≡ some child
    → flattens s (length f.operands) child ≡ inner
    → flatten_operands c s f (o ∷ os) ≡ some f'
    → flatten_operands c s (flatten_operand f o inner) os ≡ some f'
unfolding flatten_operands
flatten_operands-next c s f f' o os child inner here taken h =
    let go : Option (List NodeId) → Option Flattened =
      λ x. flatten_operands c s (flatten_operand f o x) os in
    sym (ap (on_child go s (length f.operands)) here ∙ ap go taken) ∙ h

module _ {D : Type 0} (m : Meaning D) (values : NodeId → D) (c : RewriteContext)
    (s : RewriteSubject) (d : OperationDef) where
  -- The value of operands under the subject's operation.
  abbrev value_of : List D → D
  value_of vs = m.of_operation s.result_type d.stable_key s.attributes vs

  child-value :
      (o : NodeId) (child : ExpressionNode) (os : List NodeId)
      → IsModel m c.graph values
      → operation c s.operation ≡ some d
      → node c o ≡ some child
      → IsLike s child os
      → values o ≡ value_of (map values os)
  child-value o child os model found here
        (a, payload, same_operation, same_type, same_attributes, same_operands, _) =
      let known : operation c a.operation ≡ some d = ap (operation c) same_operation ∙ found in
      let read =
        ap (payload_value m values c.graph child.result_type) payload
        ∙ payload_value-operation m values c.graph child.result_type a d known in
      cc (
        model o child
            (m.of_operation child.result_type d.stable_key a.attributes (map values a.operands))
            here read,
        same_type,
        same_attributes,
        same_operands,
      )

  kept :
      (f : Flattened) (o : NodeId) (os : List NodeId)
      → value_of (map values (push_back f.operands o) ++ map values os)
        ≡ value_of (map values f.operands ++ map values (o ∷ os))
  kept f o os =
      ap (λ vs. value_of (vs ++ map values os)) (map-append values f.operands (o ∷ []))
      ∙ ap value_of (append_assoc (map values f.operands) (values o ∷ []) (map values os))

  put_in_place :
      (f : Flattened) (o : NodeId) (inner os : List NodeId)
      → IsAssociative value_of
      → values o ≡ value_of (map values inner)
      → 2 ≤ length inner
      → value_of (map values (f.operands ++ inner) ++ map values os)
        ≡ value_of (map values f.operands ++ map values (o ∷ os))
  put_in_place f o inner os law value two =
      let enough : 2 ≤ length (map values inner) = omega (arith, two, length-map inner values) in
      ap (λ vs. value_of (vs ++ map values os)) (map-append values f.operands inner)
      ∙ ap value_of (append_assoc (map values f.operands) (map values inner) (map values os))
      ∙ sym (law (map values f.operands) (map values inner) (map values os) enough)
      ∙ ap (λ v. value_of (map values f.operands ++ v ∷ map values os)) (sym value)

  flatten_operands-same :
      IsModel m c.graph values
      → operation c s.operation ≡ some d
      → IsAssociative value_of
      → (f f' : Flattened) (os : List NodeId) → flatten_operands c s f os ≡ some f'
      → value_of (map values f'.operands) ≡ value_of (map values f.operands ++ map values os)
  unfolding flatten_operands
  flatten_operands-same model found law f f' [] h =
      let same : f ≡ f' = ground arith in
      rw (← same) (ap value_of (sym (append-nil (map values f.operands))))
  flatten_operands-same model found law f f' (o ∷ os) h = elim (Option-cases (node c o)) [
    | inl absent ↦ absurd (ground arith)
    | inr (child, here) ↦ elim (Option-cases (flattens s (length f.operands) child)) [
      | inl stays ↦
          flatten_operands-same model found law (flatten_operand f o none) f' os
            (flatten_operands-next c s f f' o os child none here stays h)
          ∙ kept f o os
      | inr (inner, taken) ↦
          let like = flattens-IsLike s (length f.operands) child inner taken in
          flatten_operands-same model found law (flatten_operand f o (some inner)) f' os
            (flatten_operands-next c s f f' o os child (some inner) here taken h)
          ∙ put_in_place f o inner os law (child-value o child inner model found here like) like.6
    ]
  ]

  flattened_result-value :
      (f : Flattened) (v : D)
      → operation c s.operation ≡ some d
      → value_of (map values f.operands) ≡ v
      → ResultHasValue m values c v (if f.changed then with_operands s f.operands else no_match)
  flattened_result-value f v found e = elim (Bool-cases f.changed) [
    | inl changed ↦ rw changed (d, found, e)
    | inr same ↦ rw same tt
  ]

-- Where a meaning is as the traits of the operations say, and the values are those of the graph's
-- nodes, putting the operands of like children in the children's places keeps the value of the subject.
pub apply_associative_flattening-same :
    {D : Type 0} (m : Meaning D) (values : NodeId → D) (c : RewriteContext) (s : RewriteSubject)
    (v : D) (r : RewriteResult)
    → IsModel m c.graph values
    → HonoursTraits m c
    → HasValue m values c s.operation s.operands s.attributes s.result_type v
    → apply_associative_flattening c s ≡ some r
    → ResultHasValue m values c v r
unfolding apply_associative_flattening
apply_associative_flattening-same m values c s v r model honours (d, found, e) h =
    let start : Flattened = record { operands = []; changed = false } in
    elim (Bool-cases (trait_applies c s d associative)) [
      | inr other ↦ let made : r ≡ no_match = ground arith in rw made tt
      | inl applies ↦
          let law = (honours s.operation d s.result_type s.attributes found).0 (ground arith) in
          elim (Option-cases (flatten_operands c s start s.operands)) [
            | inl failed ↦ absurd (ground arith)
            | inr (f, went) ↦
                let made : r ≡ (if f.changed then with_operands s f.operands else no_match) =
                  ground arith in
                rw made (
                  flattened_result-value m values c s d f v found (
                    flatten_operands-same m values c s d model found law start f s.operands went
                    ∙ e))
          ]
    ]
