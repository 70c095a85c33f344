-- ===== src/Ir/Graph.antt =====
-- lib/ir/expression_graph.cpp and lib/ir/expression_node.cpp: nodes and the graph that holds them.
use sivra.Prelude.{
  ℕ, ◌+◌, Bool, ◌&&◌, if◌then◌else◌, ltb, List, [], Option, none, some, length, get_elem?,
  push_back, is_empty, Text, ◌==◌, nat_eq,
}
use sivra.Core.Result.{Result, ok, fail}
use sivra.Ir.ValueType.{ValueType, u32_max}
use sivra.Ir.Constant.{ConstantValue}
use sivra.Ir.Ids.{OperationId, NodeId, SymbolId, ExternalValueId, OwnerToken}
use sivra.Ir.Attribute.{OperationAttributes}
use sivra.Ir.Catalogue.{OperationCatalogue}

pub record OperationApplication : Type 0 where
  pub operation : OperationId
  pub operands : List NodeId
  pub attributes : OperationAttributes

-- `expression_payload_t`.
pub data ExpressionPayload : Type 0 where
  constant : ConstantValue → ExpressionPayload
  symbol : SymbolId → ExpressionPayload
  external_value : ExternalValueId → ExpressionPayload
  unknown : Text → ExpressionPayload
  operation : OperationApplication → ExpressionPayload
  merge : List NodeId → ExpressionPayload

pub record ExpressionNode : Type 0 where
  pub id : NodeId
  pub result_type : ValueType
  pub payload : ExpressionPayload

-- The value of `expression_node_kind`, in the order of the declaration.
abbrev pub payload_kind : ExpressionPayload → ℕ
payload_kind (constant _) = 0
payload_kind (symbol _) = 1
payload_kind (external_value _) = 2
payload_kind (unknown _) = 3
payload_kind (operation _) = 4
payload_kind (merge _) = 5

abbrev pub payload_operands : ExpressionPayload → List NodeId
payload_operands (operation a) = a.operands
payload_operands (merge incoming) = incoming
payload_operands _ = []

unfoldable pub is_leaf : ExpressionNode → Bool
is_leaf n = is_empty (payload_operands n.payload)

abbrev pub get_if_constant : ExpressionNode → Option ConstantValue
get_if_constant n = elim n.payload [ constant c ↦ some c | _ ↦ none ]

abbrev pub get_if_operation : ExpressionNode → Option OperationApplication
get_if_operation n = elim n.payload [ operation a ↦ some a | _ ↦ none ]

pub record ExpressionGraph : Type 0 where
  pub owner : OwnerToken
  pub external_value_owner : OwnerToken
  pub catalogue : OperationCatalogue
  pub nodes : List ExpressionNode
  pub symbol_names : List Text
  pub next_external_value : ℕ

-- The constructor, its own token given. `none` is `std::invalid_argument`; a null catalogue has no
-- counterpart.
unfoldable pub expression_graph :
    OwnerToken → OperationCatalogue → OwnerToken → Option ExpressionGraph
expression_graph owner catalogue external_value_owner =
    if external_value_owner == 0
    then none
    else some (record {
      owner = owner;
      external_value_owner = external_value_owner;
      catalogue = catalogue;
      nodes = [];
      symbol_names = [];
      next_external_value = 0;
    })

-- `none` is an exception: the id is another graph's, or out of range.
unfoldable pub at : ExpressionGraph → NodeId → Option ExpressionNode
at g id = if id.owner == g.owner then get_elem? g.nodes id.index else none

unfoldable pub size : ExpressionGraph → ℕ
size g = length g.nodes

unfoldable pub contains : ExpressionGraph → NodeId → Bool
contains g id = id.owner == g.owner && ltb id.index (length g.nodes)

unfoldable pub symbol_name : ExpressionGraph → SymbolId → Option Text
symbol_name g s = if s.owner == g.owner then get_elem? g.symbol_names s.index else none

unfoldable pub can_append_node : ExpressionGraph → Result (Unit {0})
can_append_node g = if ltb u32_max (length g.nodes) then fail "ir.graph.capacity" else ok tt

unfoldable pub can_allocate_external_value : ExpressionGraph → Result (Unit {0})
can_allocate_external_value g =
    if g.next_external_value == u32_max then fail "ir.graph.external_value_capacity" else ok tt

unfoldable pub can_allocate_symbol : ExpressionGraph → Result (Unit {0})
can_allocate_symbol g =
    if ltb u32_max (length g.symbol_names) then fail "ir.graph.symbol_capacity" else ok tt

-- The three that change the graph. Each throws at the limit that the test before it, in every
-- caller, has ruled out; that throw has no counterpart.
unfoldable pub append_validated :
    ExpressionGraph → ValueType → ExpressionPayload → ExpressionGraph × NodeId
append_validated g result_type payload =
    let id : NodeId = record { index = length g.nodes; owner = g.owner } in
    let node : ExpressionNode = record { id = id; result_type = result_type; payload = payload } in
    (record g { nodes = push_back g.nodes node }, id)

unfoldable pub allocate_external_value_id : ExpressionGraph → ExpressionGraph × ExternalValueId
allocate_external_value_id g = (
  record g { next_external_value = g.next_external_value + 1 },
  record { index = g.next_external_value; owner = g.external_value_owner },
)

unfoldable pub allocate_symbol_id : ExpressionGraph → Text → ExpressionGraph × SymbolId
allocate_symbol_id g name = (
  record g { symbol_names = push_back g.symbol_names name },
  record { index = length g.symbol_names; owner = g.owner },
)
