-- ===== src/Ir/Builder/Inputs.antt =====
-- What the checks of lib/ir/graph_builder.cpp say of the operands, in the terms of lib/ir/validation.cpp.
use sivra.Prelude.{
  ◌≡◌, refl, true, List, [], ◌∷◌, some, length, Option-cases, inl, inr, arith, ◌==◌, nat_eq,
}
use sivra.Core.Result.{ok, Result-cases}
use sivra.Ir.ValueType.{ValueType, value_type_eq}
use sivra.Ir.Ids.{NodeId, OperationId}
use sivra.Ir.Attribute.{OperationAttributes}
use sivra.Ir.Graph.{ExpressionGraph, ExpressionNode, operation, at, append_validated, contains}
use sivra.Ir.Signature.{validate_application}
use sivra.Ir.Catalogue as Catalogue
use sivra.Ir.Operation.{OperationDef}
use sivra.Ir.Schema.{validate_attributes}
use sivra.Ir.Validation.{
  is_earlier, check_merge_inputs, check_operands, earlier_types, check_application,
}
use sivra.Ir.Builder.{apply, validate_operands, operand_types, check_merge_types}

module _ (g : ExpressionGraph) where
  check_operands-eq-nil :
      (os : List NodeId)
      → validate_operands g os ≡ ok tt
      → check_operands g (length g.nodes) os ≡ []
  unfolding validate_operands check_operands contains is_earlier
  check_operands-eq-nil [] h = refl
  check_operands-eq-nil (o ∷ os) h = ground (arith, check_operands-eq-nil os)

  operand_types-cons :
      (o : NodeId) (os : List NodeId) (ts : List ValueType)
      → operand_types g (o ∷ os) ≡ some ts
      → (n : ExpressionNode) × (us : List ValueType) × (at g o ≡ some n)
        × (operand_types g os ≡ some us)
        × (ts ≡ n.result_type ∷ us)
  unfolding operand_types
  operand_types-cons o os ts e = elim (Option-cases (at g o)) [
    | inl absent ↦ ground arith
    | inr (n, here) ↦ elim (Option-cases (operand_types g os)) [
      | inl absent ↦ ground arith
      | inr (us, rest) ↦ (n, us, here, rest, ground arith)
    ]
  ]

  earlier_types-eq :
      (os : List NodeId) (ts : List ValueType)
      → validate_operands g os ≡ ok tt
      → operand_types g os ≡ some ts
      → (earlier_types g (length g.nodes) os ≡ ts) × (length ts ≡ length os)
  unfolding validate_operands contains is_earlier earlier_types
  earlier_types-eq [] ts h e = unfold operand_types in ground arith
  earlier_types-eq (o ∷ os) ts h e =
      let (n, us, here, rest, whole) = operand_types-cons o os ts e in
      ground (arith, earlier_types-eq os us)

  pub check_merge_inputs-eq-nil :
      (t : ValueType) (os : List NodeId)
      → validate_operands g os ≡ ok tt
      → check_merge_types g os t ≡ ok tt
      → check_merge_inputs g (length g.nodes) t os ≡ []
  unfolding validate_operands check_merge_types contains is_earlier check_merge_inputs
  check_merge_inputs-eq-nil t [] h e = refl
  check_merge_inputs-eq-nil t (o ∷ os) h e = ground (arith, check_merge_inputs-eq-nil t os)

module _ (g : ExpressionGraph) (op : OperationId) (os : List NodeId) (as' : OperationAttributes)
    (t : ValueType) where
  -- What a successful `apply` has passed on its way.
  pub record Applied (g' : ExpressionGraph) (id : NodeId) : Type 0 where
    pub definition : OperationDef
    pub types : List ValueType
    pub attributes : OperationAttributes
    pub own_catalogue : (op.owner == g.catalogue.owner) ≡ true
    pub defined : Catalogue.operation g.catalogue op ≡ some definition
    pub operands_valid : validate_operands g os ≡ ok tt
    pub typed : operand_types g os ≡ some types
    pub normalized : validate_attributes definition.attribute_schema as' ≡ ok attributes
    pub accepted :
        validate_application definition.signature t types attributes definition.attribute_schema
        ≡ ok tt
    pub result :
        (g', id)
        ≡ append_validated g t
            (operation (record { operation = op; operands = os; attributes = attributes }))

  pub apply-Applied :
      {g' : ExpressionGraph} {id : NodeId} → apply g op os as' t ≡ ok (g', id) → Applied g' id
  unfolding apply
  apply-Applied {g'} {id} h = elim (Option-cases (Catalogue.operation g.catalogue op)) [
    | inl absent ↦ ground arith
    | inr (d, found) ↦ elim (Option-cases (operand_types g os)) [
      | inl absent ↦ ground arith
      | inr (ts, typed) ↦ elim (Result-cases (validate_attributes d.attribute_schema as')) [
        | inr (e, refused) ↦ ground arith
        | inl (vs, normal) ↦ record {
          definition = d;
          types = ts;
          attributes = vs;
          own_catalogue = ground arith;
          defined = found;
          operands_valid = ground arith;
          typed = typed;
          normalized = normal;
          accepted = ground arith;
          result = ground arith;
        }
      ]
    ]
  ]

-- The application that `apply` adds passes the check of `validate_graph`.
pub check_application-eq-nil :
    (g : ExpressionGraph) (op : OperationId) (os : List NodeId) (as' : OperationAttributes)
    (t : ValueType) (g' : ExpressionGraph) (id : NodeId) (a : Applied g op os as' t g' id)
    → check_application g
        (length g.nodes)
        t
        (record { operation = op; operands = os; attributes = a.attributes })
        a.definition
      ≡ []
unfolding check_application
check_application-eq-nil g op os as' t g' id a =
    let (types, counted) = earlier_types-eq g os a.types a.operands_valid a.typed in
    let passed = a.accepted in
    rw (check_operands-eq-nil g os a.operands_valid, types) (ground arith)
