-- ===== src/Ir/Builder/Validity.antt =====
-- The calls of lib/ir/graph_builder.cpp against the checks of lib/ir/validation.cpp.
use sivra.Prelude.{
  ℕ, ◌+◌, ◌≡◌, refl, true, List, [], ◌∷◌, ◌++◌, length, get_elem?-push_back, Text, arith, ap, subst,
  ==-refl, nat_eq,
}
use mathlib.Core.List.{append-nil}
use sivra.Core.Result.{ok}
use sivra.Ir.Constant.{ConstantValue}
use sivra.Ir.ValueType.{ValueType, value_type_eq}
use sivra.Ir.Ids.{node_id_eq, NodeId, SymbolId, OperationId, ExternalValueId}
use sivra.Ir.Attribute.{OperationAttributes}
use sivra.Ir.Graph.{
  ExpressionGraph, ExpressionNode, ExpressionPayload, OperationApplication, constant, symbol,
  external_value, unknown, operation, merge, symbol_name, append_validated, allocate_symbol_id,
  allocate_external_value_id,
}
use sivra.Ir.Validation.{type_is_valid, check_merge_inputs, check_payload, check_node, check_nodes}
use sivra.Ir.Validation.Frame.{
  extended, check_nodes-extended, check_nodes-append, check_merge_inputs-extended,
  check_application-extended,
}
use sivra.Ir.Builder.Inputs.{check_merge_inputs-eq-nil, apply-Applied, check_application-eq-nil}
use sivra.Ir.Builder.{
  make_constant, make_symbol, make_external_value, make_known_external_value, make_unknown, apply,
  make_merge,
}

-- `validate_graph` finds nothing.
abbrev pub IsValid : ExpressionGraph → Type 0
IsValid g = check_nodes g 0 g.nodes ≡ []

-- A node added behind a valid graph keeps it valid, if the node itself is right there.
pub append-IsValid :
    (g : ExpressionGraph) (names : List Text) (next : ℕ) (n : ExpressionNode)
    → IsValid g
    → check_node (extended g (n ∷ []) names next) (length g.nodes) n ≡ []
    → IsValid (extended g (n ∷ []) names next)
append-IsValid g names next n v c =
    check_nodes-append (extended g (n ∷ []) names next) 0 g.nodes n
      (check_nodes-extended g (n ∷ []) names next 0 g.nodes (omega arith) v)
      (subst (λ k. check_node (extended g (n ∷ []) names next) k n ≡ []) (omega arith) c)

abbrev new_node : ExpressionGraph → ValueType → ExpressionPayload → ExpressionNode
new_node g t p = record {
  id = record { index = length g.nodes; owner = g.owner };
  result_type = t;
  payload = p;
}

-- The same for `append_validated`, which leaves the symbols alone.
append_validated-IsValid :
    (g : ExpressionGraph) (next : ℕ) (t : ValueType) (p : ExpressionPayload)
    → IsValid g
    → type_is_valid t ≡ true
    → check_payload (extended g (new_node g t p ∷ []) [] next) (length g.nodes) t p ≡ []
    → IsValid (append_validated (record g { next_external_value = next }) t p).0
unfolding append_validated
append_validated-IsValid g next t p v ty c =
    subst
      (λ s. IsValid (record g {
        nodes = g.nodes ++ new_node g t p ∷ [];
        symbol_names = s;
        next_external_value = next;
      }))
      (append-nil g.symbol_names)
      (append-IsValid g [] next (new_node g t p) v (unfold check_node in rw (ty, ==-refl) c))

pub make_constant-IsValid :
    (g : ExpressionGraph) (c : ConstantValue) {g' : ExpressionGraph} {id : NodeId}
    → IsValid g
    → type_is_valid c.result_type ≡ true
    → make_constant g c ≡ ok (g', id)
    → IsValid g'
unfolding make_constant
make_constant-IsValid g c {g'} v ty h =
    let e : g' ≡ (append_validated g c.result_type (constant c)).0 = ground arith in
    rw e (
      append_validated-IsValid g g.next_external_value c.result_type (constant c) v ty
        (rw ==-refl refl))

pub make_unknown-IsValid :
    (g : ExpressionGraph) (reason : Text) (t : ValueType) {g' : ExpressionGraph} {id : NodeId}
    → IsValid g
    → type_is_valid t ≡ true
    → make_unknown g reason t ≡ ok (g', id)
    → IsValid g'
unfolding make_unknown
make_unknown-IsValid g reason t {g'} v ty h =
    let e : g' ≡ (append_validated g t (unknown reason)).0 = ground arith in
    rw e (append_validated-IsValid g g.next_external_value t (unknown reason) v ty (ground arith))

pub make_known_external_value-IsValid :
    (g : ExpressionGraph) (next : ℕ) (x : ExternalValueId) (t : ValueType) {g' : ExpressionGraph}
    {id : NodeId}
    → IsValid g
    → type_is_valid t ≡ true
    → make_known_external_value (record g { next_external_value = next }) x t ≡ ok (g', id)
    → IsValid g'
unfolding make_known_external_value
make_known_external_value-IsValid g next x t {g'} v ty h =
    let e : g'
        ≡ (append_validated (record g { next_external_value = next }) t (external_value x)).0 =
      ground arith in
    rw e (append_validated-IsValid g next t (external_value x) v ty (ground arith))

pub make_external_value-IsValid :
    (g : ExpressionGraph) (t : ValueType) {g' : ExpressionGraph} {id : NodeId}
    → IsValid g
    → type_is_valid t ≡ true
    → make_external_value g t ≡ ok (g', id)
    → IsValid g'
unfolding make_external_value allocate_external_value_id
make_external_value-IsValid g t {g'} {id} v ty h =
    make_known_external_value-IsValid g (g.next_external_value + 1) (allocate_external_value_id g).1
      t {g' = g'} {id = id} v ty (ground arith)

pub make_symbol-IsValid :
    (g : ExpressionGraph) (name : Text) (t : ValueType) {g' : ExpressionGraph} {id : NodeId}
    → IsValid g
    → type_is_valid t ≡ true
    → make_symbol g name t ≡ ok (g', id)
    → IsValid g'
unfolding make_symbol allocate_symbol_id append_validated
make_symbol-IsValid g name t {g'} v ty h =
    let s : SymbolId = record { index = length g.symbol_names; owner = g.owner } in
    let e : g'
        ≡ (append_validated (record g { symbol_names = g.symbol_names ++ name ∷ [] }) t
            (symbol s)).0 =
      ground arith in
    rw e (
      append-IsValid g (name ∷ []) g.next_external_value _ v (
        unfold check_node symbol_name in
        rw (ty, ==-refl, get_elem?-push_back g.symbol_names name) (ground arith)))

pub make_merge-IsValid :
    (g : ExpressionGraph) (os : List NodeId) (t : ValueType) {g' : ExpressionGraph} {id : NodeId}
    → IsValid g
    → type_is_valid t ≡ true
    → make_merge g os t ≡ ok (g', id)
    → IsValid g'
unfolding make_merge
make_merge-IsValid g os t {g'} v ty h =
    let e : g' ≡ (append_validated g t (merge os)).0 = ground arith in
    let inputs : check_merge_inputs g (length g.nodes) t os ≡ [] =
      ground (arith, check_merge_inputs-eq-nil g t os) in
    rw e (
      append_validated-IsValid g g.next_external_value t (merge os) v ty (
        rw
          (
            check_merge_inputs-extended g (new_node g t (merge os) ∷ []) [] g.next_external_value
                (length g.nodes) t os (omega arith),
            inputs,
          )
          (ground arith)))

pub apply-IsValid :
    (g : ExpressionGraph) (op : OperationId) (os : List NodeId) (as' : OperationAttributes)
    (t : ValueType) {g' : ExpressionGraph} {id : NodeId}
    → IsValid g
    → type_is_valid t ≡ true
    → apply g op os as' t ≡ ok (g', id)
    → IsValid g'
apply-IsValid g op os as' t {g'} {id} v ty h =
    let a = apply-Applied g op os as' t {g' = g'} {id = id} h in
    let app : OperationApplication = record {
      operation = op;
      operands = os;
      attributes = a.attributes;
    } in
    let e : g' ≡ (append_validated g t (operation app)).0 = ap (λ r. r.0) a.result in
    rw e (
      append_validated-IsValid g g.next_external_value t (operation app) v ty (
        rw
          (
            a.own_catalogue,
            a.defined,
            check_application-extended g (new_node g t (operation app) ∷ []) []
                g.next_external_value (length g.nodes) t app a.definition (omega arith),
          )
          (check_application-eq-nil g op os as' t g' id a)))
