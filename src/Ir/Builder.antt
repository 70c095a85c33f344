-- ===== src/Ir/Builder.antt =====
-- lib/ir/graph_builder.cpp: the only way to add nodes to a graph. A failure leaves the graph alone.
pub mod Inputs
pub mod Validity
pub mod Calls
pub mod Effects
pub mod Extension
pub mod Values
use sivra.Prelude.{
  ℕ, ◌≡◌, Bool, true, false, not, ltb, List, [], ◌∷◌, Option, none, some, length, is_empty,
  traverse, Text, ◌==◌, nat_eq,
}
use mathlib.Core.Option
use sivra.Core.Result.{Result, ok, err, fail, require, or_fail, ◌>>=◌, ◌>>◌}
use sivra.Ir.ValueType.{ValueType, value_type_eq}
use sivra.Ir.Constant.{ConstantValue}
use sivra.Ir.Ids.{OperationId, NodeId, ExternalValueId}
use sivra.Ir.Attribute.{OperationAttributes}
use sivra.Ir.Schema.{validate_attributes}
use sivra.Ir.Signature.{validate_application, check_operand_types}
use sivra.Ir.Catalogue as Catalogue
use sivra.Ir.Graph.{
  ExpressionGraph, ExpressionPayload, constant, symbol, external_value, unknown, operation, merge,
  at, contains, can_append_node, can_allocate_external_value, can_allocate_symbol, append_validated,
  allocate_external_value_id, allocate_symbol_id,
}

unfoldable pub make_constant : ExpressionGraph → ConstantValue → Result (ExpressionGraph × NodeId)
make_constant g value = do
  can_append_node g
  ok (append_validated g value.result_type (constant value))

unfoldable pub make_symbol : ExpressionGraph → Text → ValueType → Result (ExpressionGraph × NodeId)
make_symbol g name result_type = do
  require (not (is_empty name)) "ir.graph.empty_symbol"
  can_append_node g
  can_allocate_symbol g
  let (g', s) = allocate_symbol_id g name
  ok (append_validated g' result_type (symbol s))

-- The overload that is given the value's id.
unfoldable pub make_known_external_value :
    ExpressionGraph → ExternalValueId → ValueType → Result (ExpressionGraph × NodeId)
make_known_external_value g value result_type = do
  require (value.owner == g.external_value_owner) "ir.graph.foreign_external_value"
  can_append_node g
  ok (append_validated g result_type (external_value value))

unfoldable pub make_external_value : ExpressionGraph → ValueType → Result (ExpressionGraph × NodeId)
make_external_value g result_type = do
  can_append_node g
  can_allocate_external_value g
  let (g', v) = allocate_external_value_id g
  make_known_external_value g' v result_type

unfoldable pub make_unknown : ExpressionGraph → Text → ValueType → Result (ExpressionGraph × NodeId)
make_unknown g reason result_type = do
  require (not (is_empty reason)) "ir.graph.empty_unknown_reason"
  can_append_node g
  ok (append_validated g result_type (unknown reason))

unfoldable pub validate_operands : ExpressionGraph → List NodeId → Result (Unit {0})
validate_operands g [] = ok tt
validate_operands g (o ∷ os) = do
  require (contains g o) "ir.graph.invalid_operand"
  validate_operands g os

-- The types of the operands; `none` is the exception of `at`.
unfoldable pub operand_types : ExpressionGraph → List NodeId → Option (List ValueType)
operand_types g = traverse (λ o. Option.map (λ n. n.result_type) (at g o))

-- The failure of `operand_types` stands for the exception of `at`.
unfoldable pub apply :
    ExpressionGraph
    → OperationId
    → List NodeId
    → OperationAttributes
    → ValueType
    → Result (ExpressionGraph × NodeId)
apply g op operands attributes result_type = do
  require (op.owner == g.catalogue.owner) "ir.graph.foreign_operation"
  definition ← or_fail (Catalogue.operation g.catalogue op) "ir.graph.invalid_operation"
  validate_operands g operands
  types ← or_fail (operand_types g operands) "std::out_of_range"
  validated ← validate_attributes definition.attribute_schema attributes
  validate_application definition.signature result_type types validated definition.attribute_schema
  can_append_node g
  ok (
      append_validated g result_type
        (operation (record { operation = op; operands = operands; attributes = validated })))

unfoldable pub check_merge_types : ExpressionGraph → List NodeId → ValueType → Result (Unit {0})
check_merge_types g [] result_type = ok tt
check_merge_types g (o ∷ os) result_type = do
  node ← or_fail (at g o) "std::out_of_range"
  require (node.result_type == result_type) "ir.graph.merge_type_mismatch"
  check_merge_types g os result_type

unfoldable pub make_merge :
    ExpressionGraph → List NodeId → ValueType → Result (ExpressionGraph × NodeId)
make_merge g incoming result_type = do
  require (not (ltb (length incoming) 2)) "ir.graph.invalid_merge_arity"
  validate_operands g incoming
  check_merge_types g incoming result_type
  can_append_node g
  ok (append_validated g result_type (merge incoming))
