-- ===== src/Tests/Graphs.antt =====
-- lib/ir/graph_builder.cpp and lib/ir/validation.cpp on a graph with two symbols.
use sivra.Prelude.{ℕ, ◌+◌, ◌<◌, ◌≡◌, refl, true, codes, List, [], ◌∷◌, some, length, get_elem?, All}
use sivra.Core.Result.{ok}
use sivra.Ir.Ids.{NodeId}
use sivra.Ir.ValueType.{ValueType, i32}
use sivra.Ir.Catalogue.{
  add_registrations, add_registration, catalogue_builder, make_definition, operation,
}
use sivra.Prelude.Sort.{stable_sort}
use sivra.Ir.Attribute.{create}
use sivra.Ir.Schema.{validate_attributes, missing_defaults, check_attributes}
use sivra.Ir.Signature.{validate_application, accepts, check_operand_types, validate_arity}
use sivra.Ir.Graph.{
  ExpressionGraph, ExpressionNode, ExpressionPayload, expression_graph, at, contains, symbol_name,
  can_append_node, append_validated,
}
use sivra.Ir.Validation.{type_is_valid, check_node, check_nodes, validate_graph}
use sivra.Ir.Validation.Order.{Earlier, validate_graph-Earlier}
use sivra.Ir.Builder.{apply, validate_operands, operand_types}
use sivra.Ir.Builder.Calls.{
  BuildCall, symbol_call, apply_call, merge_call, perform, perform_all, perform-valid,
  perform_all-valid,
}
use sivra.Ir.Builder.Effects.{operand_types-total, perform-appends}
use sivra.Tests.Catalogue.{catalogue, subtract_id}

abbrev node_id : ℕ → NodeId
node_id index = record { index = index; owner = 3 }

abbrev symbol_node : ℕ → ExpressionNode
symbol_node index = record {
  id = node_id index;
  result_type = i32;
  payload = ExpressionPayload.symbol (record { index = index; owner = 3 });
}

abbrev empty_graph : ExpressionGraph
empty_graph = record {
  owner = 3;
  external_value_owner = 5;
  catalogue = catalogue;
  nodes = [];
  symbol_names = [];
  next_external_value = 0;
}

abbrev two_symbols : ExpressionGraph
two_symbols = record empty_graph {
  nodes = symbol_node 0 ∷ symbol_node 1 ∷ [];
  symbol_names = codes "x" ∷ codes "y" ∷ [];
}

abbrev operands : List NodeId
operands = node_id 0 ∷ node_id 1 ∷ []

abbrev difference_node : ExpressionNode
difference_node = record {
  id = node_id 2;
  result_type = i32;
  payload =
      ExpressionPayload.operation
        (record { operation = subtract_id; operands = operands; attributes = [] });
}

abbrev with_difference : ExpressionGraph
with_difference = record two_symbols {
  nodes = symbol_node 0 ∷ symbol_node 1 ∷ difference_node ∷ [];
}

abbrev subtract_call : BuildCall
subtract_call = apply_call subtract_id operands [] i32

two_symbols-valid : validate_graph two_symbols ≡ ok tt
unfolding validate_graph check_nodes check_node type_is_valid symbol_name
two_symbols-valid = refl

i32-valid : type_is_valid i32 ≡ true
unfolding type_is_valid
i32-valid = refl

subtracts : perform two_symbols subtract_call ≡ ok (with_difference, node_id 2)
unfolding apply operation add_registrations add_registration catalogue_builder make_definition
    validate_operands contains operand_types at validate_attributes missing_defaults
    check_attributes validate_application accepts check_operand_types validate_arity can_append_node
    append_validated create stable_sort
subtracts = refl

perform-valid_example : validate_graph with_difference ≡ ok tt
perform-valid_example =
    perform-valid two_symbols subtract_call with_difference (node_id 2) two_symbols-valid i32-valid
      subtracts

perform-appends_example :
    (length with_difference.nodes ≡ length two_symbols.nodes + 1)
    × ((n : ExpressionNode) × (at with_difference (node_id 2) ≡ some n)
        × (n.id ≡ node_id 2)
        × (n.result_type ≡ i32))
    × ((i : ℕ)
        → i < length two_symbols.nodes
        → get_elem? with_difference.nodes i ≡ get_elem? two_symbols.nodes i)
perform-appends_example =
    perform-appends two_symbols subtract_call with_difference (node_id 2) subtracts

abbrev calls : List BuildCall
calls =
    symbol_call (codes "x") i32
    ∷ symbol_call [] i32
    ∷ symbol_call (codes "y") i32
    ∷ subtract_call
    ∷ merge_call (node_id 9 ∷ node_id 0 ∷ []) i32
    ∷ []

constructed : expression_graph 3 catalogue 5 ≡ some empty_graph
unfolding expression_graph
constructed = refl

perform_all-valid_example : validate_graph (perform_all empty_graph calls) ≡ ok tt
perform_all-valid_example =
    perform_all-valid 3 5 catalogue empty_graph calls constructed
      (i32-valid, (i32-valid, (i32-valid, (i32-valid, (i32-valid, tt)))))

operands-valid : validate_operands two_symbols operands ≡ ok tt
unfolding validate_operands contains
operands-valid = refl

operands_typed :
    (ts : List ValueType) × (operand_types two_symbols operands ≡ some ts) × (length ts ≡ 2)
operands_typed = operand_types-total two_symbols operands operands-valid

validate_graph-Earlier_example :
    (difference_node.id ≡ node_id 2) × All (Earlier with_difference 2) operands
validate_graph-Earlier_example =
    validate_graph-Earlier with_difference 2 difference_node perform-valid_fact refl
  where
    perform-valid_fact : validate_graph with_difference ≡ ok tt
    perform-valid_fact =
        perform-valid two_symbols subtract_call with_difference (node_id 2) two_symbols-valid
          i32-valid subtracts
