-- ===== src/Ir/Validation.antt =====
-- lib/ir/validation.cpp: what a graph must satisfy, checked node by node with every error kept.
pub mod Frame
pub mod Order
use sivra.Prelude.{
  ℕ, suc, ◌+◌, ◌≡◌, Bool, true, false, ◌&&◌, ◌||◌, not, if◌then◌else◌, ltb, leb, List, [], ◌∷◌,
  ◌++◌, Option, none, some, length, is_empty, String, ◌==◌, nat_eq,
}
use sivra.Core.Result.{Result, ok, err, DiagnosticBundle, make_error}
use sivra.Ir.ValueType.{
  ValueType, ValueTypeKind, ScalarCategory, scalar, vector, value_type_eq, category_eq,
}
use sivra.Ir.Ids.{NodeId, node_id_eq}
use sivra.Ir.Signature.{validate_application}
use sivra.Ir.Catalogue as Catalogue
use sivra.Ir.Operation.{OperationDef}
use sivra.Ir.Graph.{
  ExpressionGraph, ExpressionNode, ExpressionPayload, OperationApplication, constant, symbol,
  external_value, unknown, operation, merge, at, symbol_name,
}

-- `if (!test) add_error(diagnostics, code);`
abbrev pub expect : Bool → String → DiagnosticBundle
expect true code = []
expect false code = make_error code

abbrev kind_shape : ValueTypeKind → ValueType → Bool
kind_shape ValueTypeKind.unknown t = t.category == ScalarCategory.unknown && t.lane_count == 0
kind_shape scalar t =
    not (t.category == ScalarCategory.unknown)
    && not (t.element_bit_width == 0)
    && t.lane_count == 1
kind_shape vector t =
    not (t.category == ScalarCategory.unknown)
    && not (t.element_bit_width == 0)
    && not (t.lane_count == 0)

unfoldable pub type_is_valid : ValueType → Bool
type_is_valid t = kind_shape t.kind t

-- An operand is an earlier node of the same graph.
unfoldable pub is_earlier : ExpressionGraph → ℕ → NodeId → Bool
is_earlier g index o = o.owner == g.owner && ltb o.index index

-- The type of a node that is known to be there; the source reads it by `at`.
abbrev pub type_at : ExpressionGraph → NodeId → Option ValueType
type_at g o = elim (at g o) [ none ↦ none | some n ↦ some n.result_type ]

abbrev type_matches : Option ValueType → ValueType → Bool
type_matches none t = false
type_matches (some u) t = u == t

unfoldable pub check_merge_inputs : ExpressionGraph → ℕ → ValueType → List NodeId → DiagnosticBundle
check_merge_inputs g index t [] = []
check_merge_inputs g index t (o ∷ os) =
    (if is_earlier g index o
      then expect (type_matches (type_at g o) t) "ir.validation.merge_type"
      else make_error "ir.validation.merge_input")
    ++ check_merge_inputs g index t os

unfoldable pub check_operands : ExpressionGraph → ℕ → List NodeId → DiagnosticBundle
check_operands g index [] = []
check_operands g index (o ∷ os) =
    expect (is_earlier g index o) "ir.validation.operand" ++ check_operands g index os

-- The types of the operands that pass, those that fail left out.
unfoldable pub earlier_types : ExpressionGraph → ℕ → List NodeId → List ValueType
earlier_types g index [] = []
earlier_types g index (o ∷ os) =
    let rest = earlier_types g index os in
    if is_earlier g index o then elim (type_at g o) [ none ↦ rest | some t ↦ t ∷ rest ] else rest

abbrev errors_of : Result (Unit {0}) → DiagnosticBundle
errors_of (ok _) = []
errors_of (err e) = e

unfoldable pub check_application :
    ExpressionGraph → ℕ → ValueType → OperationApplication → OperationDef → DiagnosticBundle
check_application g index t a d =
    check_operands g index a.operands
    ++ (if length (earlier_types g index a.operands) == length a.operands
        then errors_of (
            validate_application d.signature t (earlier_types g index a.operands) a.attributes
              d.attribute_schema)
        else [])

-- An id of the catalogue that is out of range makes the source throw; here it is an error.
abbrev pub check_payload : ExpressionGraph → ℕ → ValueType → ExpressionPayload → DiagnosticBundle
check_payload g index t (constant c) = expect (c.result_type == t) "ir.validation.constant_type"
check_payload g index t (symbol s) =
    if s.owner == g.owner
    then elim (symbol_name g s) [
      | none ↦ make_error "ir.validation.symbol"
      | some name ↦ expect (not (is_empty name)) "ir.validation.symbol"
    ]
    else make_error "ir.validation.symbol_owner"
check_payload g index t (external_value v) =
    expect (v.owner == g.external_value_owner) "ir.validation.external_owner"
check_payload g index t (unknown reason) =
    expect (not (is_empty reason)) "ir.validation.unknown_reason"
check_payload g index t (merge incoming) =
    expect (leb 2 (length incoming)) "ir.validation.merge_arity"
    ++ check_merge_inputs g index t incoming
check_payload g index t (operation a) =
    if a.operation.owner == g.catalogue.owner
    then elim (Catalogue.operation g.catalogue a.operation) [
      | none ↦ make_error "std::out_of_range"
      | some d ↦ check_application g index t a d
    ]
    else make_error "ir.validation.operation_owner"

unfoldable pub check_node : ExpressionGraph → ℕ → ExpressionNode → DiagnosticBundle
check_node g index n =
    expect (n.id == record { index = index; owner = g.owner }) "ir.validation.node_id"
    ++ (expect (type_is_valid n.result_type) "ir.validation.value_type"
        ++ check_payload g index n.result_type n.payload)

unfoldable pub check_nodes : ExpressionGraph → ℕ → List ExpressionNode → DiagnosticBundle
check_nodes g index [] = []
check_nodes g index (n ∷ ns) = check_node g index n ++ check_nodes g (suc index) ns

unfoldable pub validate_graph : ExpressionGraph → Result (Unit {0})
validate_graph g = elim (check_nodes g 0 g.nodes) [ [] ↦ ok tt | d ∷ ds ↦ err (d ∷ ds) ]
