-- ===== src/Ir/Validation/Order.antt =====
-- What a pass of lib/ir/validation.cpp says of the order of the nodes.
use sivra.Prelude.{
  ℕ, zero, suc, ◌+◌, ◌<◌, ◌≡◌, refl, List, [], ◌∷◌, ◌++◌, some, Option-cases, inl, inr, get_elem?,
  arith, ◌==◌, nat_eq, All, subst,
}
use sivra.Core.Result.{ok}
use sivra.Ir.ValueType.{ValueType}
use sivra.Ir.Ids.{NodeId, node_id_eq}
use sivra.Ir.Graph.{
  ExpressionGraph, ExpressionNode, ExpressionPayload, constant, symbol, external_value, unknown,
  operation, merge, payload_operands,
}
use sivra.Ir.Catalogue as Catalogue
use sivra.Ir.Validation.{
  expect, type_is_valid, is_earlier, check_operands, check_merge_inputs, check_application,
  check_payload, check_node, check_nodes, validate_graph,
}

-- A node of the graph `g` that comes before place `index`.
abbrev pub Earlier : ExpressionGraph → ℕ → NodeId → Type 0
Earlier g index o = (o.owner ≡ g.owner) × (o.index < index)

nil-parts : {A : Type 0} (xs ys : List A) → xs ++ ys ≡ [] → (xs ≡ []) × (ys ≡ [])
nil-parts [] ys h = (refl, h)
nil-parts (x ∷ xs) ys h = cc

module _ (g : ExpressionGraph) (index : ℕ) where
  check_operands-Earlier :
      (os : List NodeId) → check_operands g index os ≡ [] → All (Earlier g index) os
  unfolding check_operands is_earlier
  check_operands-Earlier [] h = tt
  check_operands-Earlier (o ∷ os) h =
      let (now, later) = nil-parts _ _ h in (ground arith, check_operands-Earlier os later)

  check_merge_inputs-Earlier :
      (t : ValueType) (os : List NodeId)
      → check_merge_inputs g index t os ≡ []
      → All (Earlier g index) os
  unfolding check_merge_inputs is_earlier
  check_merge_inputs-Earlier t [] h = tt
  check_merge_inputs-Earlier t (o ∷ os) h =
      let (now, later) = nil-parts _ _ h in (ground arith, check_merge_inputs-Earlier t os later)

  check_payload-Earlier :
      (t : ValueType) (p : ExpressionPayload)
      → check_payload g index t p ≡ []
      → All (Earlier g index) (payload_operands p)
  unfolding check_application
  check_payload-Earlier t (constant c) h = tt
  check_payload-Earlier t (symbol s) h = tt
  check_payload-Earlier t (external_value v) h = tt
  check_payload-Earlier t (unknown reason) h = tt
  check_payload-Earlier t (merge incoming) h =
      check_merge_inputs-Earlier t incoming (nil-parts _ _ h).1
  check_payload-Earlier t (operation a) h =
      elim (Option-cases (Catalogue.operation g.catalogue a.operation)) [
        | inl absent ↦ ground arith
        | inr (d, found) ↦
            let passed : check_application g index t a d ≡ [] = ground arith in
            check_operands-Earlier a.operands (nil-parts _ _ passed).0
      ]

check_nodes-get :
    (g : ExpressionGraph) (start : ℕ) (ns : List ExpressionNode) (i : ℕ) (n : ExpressionNode)
    → check_nodes g start ns ≡ []
    → get_elem? ns i ≡ some n
    → check_node g (start + i) n ≡ []
unfolding check_nodes
check_nodes-get g start [] i n h e = cc
check_nodes-get g start (m ∷ ns) zero n h e =
    let here : start + 0 ≡ start = omega arith in
    let same : m ≡ n = ground arith in rw (here, ← same) (nil-parts _ _ h).0
check_nodes-get g start (m ∷ ns) (suc i) n h e =
    let next : start + suc i ≡ suc start + i = omega arith in
    rw next (check_nodes-get g (suc start) ns i n (nil-parts _ _ h).1 e)

check_node-Earlier :
    (g : ExpressionGraph) (i : ℕ) (n : ExpressionNode)
    → check_node g i n ≡ []
    → (n.id ≡ record { index = i; owner = g.owner })
      × All (Earlier g i) (payload_operands n.payload)
unfolding check_node
check_node-Earlier g i n h =
    let (id, others) = nil-parts (expect (n.id == record { index = i; owner = g.owner }) _) _ h in
    let (_, payload) = nil-parts (expect (type_is_valid n.result_type) _) _ others in
    (ground arith, check_payload-Earlier g i n.result_type n.payload payload)

node-checked :
    (g : ExpressionGraph) (i : ℕ) (n : ExpressionNode)
    → validate_graph g ≡ ok tt
    → get_elem? g.nodes i ≡ some n
    → check_node g i n ≡ []
unfolding validate_graph
node-checked g i n v e =
    let at_zero : 0 + i ≡ i = omega arith in
    subst (λ k. check_node g k n ≡ []) at_zero (check_nodes-get g 0 g.nodes i n (ground arith) e)

-- In a graph that validates, every node has the id of its place, and every operand of an operation or
-- a merge is a node of the same graph at an earlier place.
pub validate_graph-Earlier :
    (g : ExpressionGraph) (i : ℕ) (n : ExpressionNode)
    → validate_graph g ≡ ok tt
    → get_elem? g.nodes i ≡ some n
    → (n.id ≡ record { index = i; owner = g.owner })
      × All (Earlier g i) (payload_operands n.payload)
validate_graph-Earlier g i n v e = check_node-Earlier g i n (node-checked g i n v e)

-- The payload of a node that stands in a graph that validates has passed its own check.
pub validate_graph-payload :
    (g : ExpressionGraph) (i : ℕ) (n : ExpressionNode)
    → validate_graph g ≡ ok tt
    → get_elem? g.nodes i ≡ some n
    → check_payload g i n.result_type n.payload ≡ []
unfolding check_node
validate_graph-payload g i n v e =
    let (_, others) =
      nil-parts (expect (n.id == record { index = i; owner = g.owner }) _) _
        (node-checked g i n v e) in
    (nil-parts (expect (type_is_valid n.result_type) _) _ others).1
