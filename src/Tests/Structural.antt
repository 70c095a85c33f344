-- ===== src/Tests/Structural.antt =====
-- lib/ir/structural.cpp on a merge built twice, its symbols in either order.
use sivra.Prelude.{
  ℕ, ◌+◌, ◌*◌, ◌≡◌, ◌⊎◌, inl, inr, refl, true, codes, List, [], ◌∷◌, none, some, length, get_elem?,
  Text, arith,
}
use sivra.Core.Result.{ok}
use sivra.Ir.Ids.{NodeId}
use sivra.Ir.ValueType.{i32}
use sivra.Ir.Graph.{
  ExpressionGraph, ExpressionNode, ExpressionPayload, at, size, contains, symbol_name,
}
use sivra.Ir.Validation.{
  type_is_valid, check_merge_inputs, is_earlier, check_node, check_nodes, validate_graph,
}
use sivra.Ir.Structural.{
  Ordering, compare, compare_records, record_of, node_records, node_record, payload_data, append_u8,
  append_u32, append_u64, append_string, append_type, compare_bytes, equal_nodes,
}
use sivra.Ir.Structural.Meaning.{Meaning, IsModel, GraphFits}
use sivra.Ir.Structural.Equality.{equal_nodes-same}
use sivra.Ir.Structural.Readable.{ConstantsMade}
use sivra.Ir.Structural.Comparison.{compare-returns, equal_nodes_self}
use sivra.Tests.Catalogue.{catalogue}

abbrev node_id : ℕ → ℕ → NodeId
node_id owner index = record { index = index; owner = owner }

abbrev symbol_node : ℕ → ℕ → ExpressionNode
symbol_node owner index = record {
  id = node_id owner index;
  result_type = i32;
  payload = ExpressionPayload.symbol (record { index = index; owner = owner });
}

abbrev merge_node : ℕ → ℕ → ℕ → ExpressionNode
merge_node owner first second = record {
  id = node_id owner 2;
  result_type = i32;
  payload = ExpressionPayload.merge (node_id owner first ∷ node_id owner second ∷ []);
}

abbrev merged : ℕ → List Text → ℕ → ℕ → ExpressionGraph
merged owner names first second = record {
  owner = owner;
  external_value_owner = 5;
  catalogue = catalogue;
  nodes = symbol_node owner 0 ∷ symbol_node owner 1 ∷ merge_node owner first second ∷ [];
  symbol_names = names;
  next_external_value = 0;
}

abbrev in_order : ExpressionGraph
in_order = merged 3 (codes "x" ∷ codes "y" ∷ []) 0 1

abbrev swapped : ExpressionGraph
swapped = merged 4 (codes "y" ∷ codes "x" ∷ []) 1 0

abbrev meaning : Meaning ℕ
meaning = record {
  of_constant = λ t es. length es;
  of_symbol = λ t name. elim name [ [] ↦ 0 | c ∷ cs ↦ c ];
  of_external_value = λ t v. v.index;
  of_unknown = λ t reason. length reason;
  of_operation = λ t key attributes values. length values;
  of_merge = λ t values. elim values [ x ∷ y ∷ [] ↦ x * 256 + y | _ ↦ 0 ];
}

abbrev value_at : List ℕ → NodeId → ℕ
value_at vs o = elim (get_elem? vs o.index) [ none ↦ 0 | some v ↦ v ]

abbrev in_order_values : NodeId → ℕ
in_order_values = value_at (120 ∷ 121 ∷ 30841 ∷ [])

abbrev swapped_values : NodeId → ℕ
swapped_values = value_at (121 ∷ 120 ∷ 30841 ∷ [])

in_order-IsModel : IsModel meaning in_order in_order_values
unfolding at symbol_name
in_order-IsModel id n d here read = ground arith

swapped-IsModel : IsModel meaning swapped swapped_values
unfolding at symbol_name
swapped-IsModel id n d here read = ground arith

node-cases :
    (owner first second : ℕ) (names : List Text) (id : NodeId) (n : ExpressionNode)
    → at (merged owner names first second) id ≡ some n
    → (n ≡ symbol_node owner 0) ⊎ ((n ≡ symbol_node owner 1) ⊎ (n ≡ merge_node owner first second))
unfolding at
node-cases owner first second names id n here = ground arith

merged-GraphFits :
    (owner first second x y : ℕ) → GraphFits (merged owner ((x ∷ []) ∷ (y ∷ []) ∷ []) first second)
unfolding symbol_name
merged-GraphFits owner first second x y id n here =
    elim (node-cases owner first second ((x ∷ []) ∷ (y ∷ []) ∷ []) id n here) [
      | inl here ↦ rw here ((omega arith, omega arith), λ name e. ground arith)
      | inr (inl here) ↦ rw here ((omega arith, omega arith), λ name e. ground arith)
      | inr (inr here) ↦ rw here ((omega arith, omega arith), omega arith)
    ]

merged-ConstantsMade :
    (owner first second : ℕ) (names : List Text) → ConstantsMade (merged owner names first second)
merged-ConstantsMade owner first second names i n c here e = absurd (ground arith)

in_order-valid : validate_graph in_order ≡ ok tt
unfolding validate_graph check_nodes check_node type_is_valid symbol_name check_merge_inputs
    is_earlier at
in_order-valid = refl

swapped-valid : validate_graph swapped ≡ ok tt
unfolding validate_graph check_nodes check_node type_is_valid symbol_name check_merge_inputs
    is_earlier at
swapped-valid = refl

found_equal : equal_nodes in_order (node_id 3 2) swapped (node_id 4 2) ≡ true
unfolding equal_nodes compare compare_records record_of node_records node_record payload_data
    append_u8 append_u32 append_u64 append_string append_type compare_bytes is_earlier at size
    symbol_name
found_equal = refl

equal_nodes-same_example : in_order_values (node_id 3 2) ≡ swapped_values (node_id 4 2)
equal_nodes-same_example =
    equal_nodes-same meaning in_order_values swapped_values in_order swapped (node_id 3 2)
      (node_id 4 2) in_order-IsModel swapped-IsModel (merged-GraphFits 3 0 1 120 121)
      (merged-GraphFits 4 1 0 121 120) found_equal

in_graph : (contains in_order (node_id 3 2) ≡ true) × (contains swapped (node_id 4 1) ≡ true)
unfolding contains
in_graph = (refl, refl)

compare-returns_example :
    (o : Ordering) × (compare in_order (node_id 3 2) swapped (node_id 4 1) ≡ some o)
compare-returns_example =
    compare-returns in_order swapped (node_id 3 2) (node_id 4 1) in_order-valid swapped-valid
      (merged-ConstantsMade 3 0 1 (codes "x" ∷ codes "y" ∷ []))
      (merged-ConstantsMade 4 1 0 (codes "y" ∷ codes "x" ∷ [])) (merged-GraphFits 3 0 1 120 121)
      (merged-GraphFits 4 1 0 121 120) in_graph.0 in_graph.1

node_equals_itself : equal_nodes in_order (node_id 3 2) in_order (node_id 3 2) ≡ true
node_equals_itself =
    equal_nodes_self in_order in_order-valid
      (merged-ConstantsMade 3 0 1 (codes "x" ∷ codes "y" ∷ [])) (node_id 3 2) in_graph.0
