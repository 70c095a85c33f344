-- ===== src/Ir/Builder/Effects.antt =====
-- What a call of lib/ir/graph_builder.cpp changes, and the reads that cannot fail on its way.
use sivra.Prelude.{
  ℕ, ◌+◌, ◌<◌, ◌≡◌, refl, true, List, [], ◌∷◌, some, length, length-append, push_back, get_elem?,
  get_elem?-append, get_elem?-push_back, get_elem?-of_lt, arith, nat_eq, ==-refl,
}
use sivra.Core.Result.{ok}
use sivra.Ir.ValueType.{ValueType}
use sivra.Ir.Ids.{NodeId}
use sivra.Ir.Graph.{
  ExpressionGraph, ExpressionNode, ExpressionPayload, at, contains, append_validated,
  allocate_symbol_id, allocate_external_value_id,
}
use sivra.Ir.Builder.{
  make_constant, make_symbol, make_known_external_value, make_external_value, make_unknown,
  make_merge, validate_operands, operand_types,
}
use sivra.Ir.Builder.Inputs.{apply-Applied}
use sivra.Ir.Builder.Calls.{
  BuildCall, constant_call, symbol_call, external_call, known_external_call, unknown_call,
  apply_call, merge_call, call_type, perform,
}

contains-at :
    (g : ExpressionGraph) (o : NodeId)
    → contains g o ≡ true
    → (n : ExpressionNode) × (at g o ≡ some n)
unfolding contains at
contains-at g o h = let (n, e) = get_elem?-of_lt g.nodes o.index (ground arith) in (n, ground arith)

-- Operands that `validate_operands` accepts all have a type: the reads of `apply` behind it do not
-- throw.
pub operand_types-total :
    (g : ExpressionGraph) (os : List NodeId)
    → validate_operands g os ≡ ok tt
    → (ts : List ValueType) × (operand_types g os ≡ some ts) × (length ts ≡ length os)
unfolding validate_operands operand_types
operand_types-total g [] h = ([], refl, refl)
operand_types-total g (o ∷ os) h =
    let (n, here) = contains-at g o (ground arith) in
    let (ts, rest, counted) = operand_types-total g os (ground arith) in
    (n.result_type ∷ ts, ground arith, ground arith)

-- `append_validated` on a graph with the same nodes and owner as `g`.
abbrev Appends : ExpressionGraph → ValueType → ExpressionGraph → NodeId → Type 0
Appends g t g' id =
    (p : ExpressionPayload) × (g'.nodes
      ≡ push_back g.nodes (record { id = id; result_type = t; payload = p }))
    × (id ≡ record { index = length g.nodes; owner = g.owner })
    × (g'.owner ≡ g.owner)

perform-Appends :
    (g : ExpressionGraph) (c : BuildCall) {g' : ExpressionGraph} {id : NodeId}
    → perform g c ≡ ok (g', id)
    → Appends g (call_type c) g' id
unfolding make_constant make_symbol make_known_external_value make_external_value make_unknown
    make_merge append_validated allocate_symbol_id allocate_external_value_id
perform-Appends g (constant_call c) h =
    (ExpressionPayload.constant c, ground arith, ground arith, ground arith)
perform-Appends g (symbol_call name t) h = (
  ExpressionPayload.symbol (record { index = length g.symbol_names; owner = g.owner }),
  ground arith,
  ground arith,
  ground arith,
)
perform-Appends g (external_call t) h = (
  ExpressionPayload.external_value
      (record { index = g.next_external_value; owner = g.external_value_owner }),
  ground arith,
  ground arith,
  ground arith,
)
perform-Appends g (known_external_call x t) h =
    (ExpressionPayload.external_value x, ground arith, ground arith, ground arith)
perform-Appends g (unknown_call reason t) h =
    (ExpressionPayload.unknown reason, ground arith, ground arith, ground arith)
perform-Appends g (apply_call op os as' t) {g'} {id} h =
    let a = apply-Applied g op os as' t {g' = g'} {id = id} h in
    let made = a.result in
    (
      ExpressionPayload.operation
          (record { operation = op; operands = os; attributes = a.attributes }),
      ground arith,
      ground arith,
      ground arith,
    )
perform-Appends g (merge_call os t) h =
    (ExpressionPayload.merge os, ground arith, ground arith, ground arith)

pub at-pushed :
    (g g' : ExpressionGraph) (id : NodeId) (n : ExpressionNode)
    → g'.nodes ≡ push_back g.nodes n
    → id ≡ record { index = length g.nodes; owner = g.owner }
    → g'.owner ≡ g.owner
    → at g' id ≡ some n
unfolding at
at-pushed g g' id n nodes new_id owner =
    ground (arith, ==-refl g.owner, get_elem?-push_back g.nodes n)

-- A call of the builder that succeeds adds one node behind the others, which stay as they are; the id
-- that it returns leads to that node, which has this id and the result type that was asked for.
pub perform-appends :
    (g : ExpressionGraph) (c : BuildCall) (g' : ExpressionGraph) (id : NodeId)
    → perform g c ≡ ok (g', id)
    → (length g'.nodes ≡ length g.nodes + 1)
      × ((n : ExpressionNode) × (at g' id ≡ some n) × (n.id ≡ id) × (n.result_type ≡ call_type c))
      × ((i : ℕ) → i < length g.nodes → get_elem? g'.nodes i ≡ get_elem? g.nodes i)
perform-appends g c g' id h =
    let (p, nodes, new_id, owner) = perform-Appends g c {g' = g'} {id = id} h in
    let n : ExpressionNode = record { id = id; result_type = call_type c; payload = p } in
    (
      rw nodes (omega (arith, length-append g.nodes (n ∷ []))),
      (n, at-pushed g g' id n nodes new_id owner, refl, refl),
      λ i lt. rw nodes (get_elem?-append g.nodes (n ∷ []) i lt),
    )
