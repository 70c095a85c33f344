-- ===== src/Ir/Validation/Frame.antt =====
-- What lib/ir/validation.cpp says of a node does not change when nodes and symbols are added behind.
use sivra.Prelude.{
  ℕ, suc, ◌+◌, ◌≤◌, ◌<◌, ◌≡◌, refl, Bool, true, inl, inr, List, [], ◌∷◌, ◌++◌, some, length,
  get_elem?-append, lt-get_elem?, Option-cases, Text, String, arith, subst,
}
use native.Mathlib.Nat.{add-zero}
use sivra.Ir.Ids.{NodeId, SymbolId}
use sivra.Ir.ValueType.{ValueType}
use sivra.Ir.Graph.{
  ExpressionGraph, ExpressionNode, ExpressionPayload, OperationApplication, constant, symbol,
  external_value, unknown, operation, merge, at, symbol_name,
}
use sivra.Ir.Operation.{OperationDef}
use sivra.Ir.Catalogue as Catalogue
use sivra.Ir.Validation.{
  type_is_valid, expect, is_earlier, check_merge_inputs, check_operands, earlier_types,
  check_application, check_payload, check_node, check_nodes,
}

pub append-eq-nil {ℓ} : {A : Type ℓ} (xs ys : List A) → xs ++ ys ≡ [] → (xs ≡ []) × (ys ≡ [])
append-eq-nil [] ys h = (refl, h)
append-eq-nil (x ∷ xs) ys h = cc

pub expect-eq-nil : (b : Bool) (code : String) → expect b code ≡ [] → b ≡ true
expect-eq-nil b code h = ground arith

module _ (g : ExpressionGraph) (added : List ExpressionNode) (names : List Text) (next : ℕ) where
  -- The graph after some nodes and symbols were added.
  abbrev pub extended : ExpressionGraph
  extended = record g {
    nodes = g.nodes ++ added;
    symbol_names = g.symbol_names ++ names;
    next_external_value = next;
  }

  pub at-extended : (o : NodeId) → o.index < length g.nodes → at extended o ≡ at g o
  unfolding at
  at-extended o h = rw (get_elem?-append g.nodes added o.index h)

  at-earlier :
      (i : ℕ) (o : NodeId) → i ≤ length g.nodes → is_earlier g i o ≡ true → at extended o ≡ at g o
  unfolding is_earlier
  at-earlier i o h e = at-extended o (ground arith)

  pub check_merge_inputs-extended :
      (i : ℕ) (t : ValueType) (os : List NodeId)
      → i ≤ length g.nodes
      → check_merge_inputs extended i t os ≡ check_merge_inputs g i t os
  unfolding check_merge_inputs is_earlier
  check_merge_inputs-extended i t [] h = refl
  check_merge_inputs-extended i t (o ∷ os) h =
      ground (arith, at-extended o, check_merge_inputs-extended i t os h)

  check_operands-extended :
      (i : ℕ) (os : List NodeId) → check_operands extended i os ≡ check_operands g i os
  unfolding check_operands is_earlier
  check_operands-extended i [] = refl
  check_operands-extended i (o ∷ os) = rw (check_operands-extended i os)

  pub earlier_types-extended :
      (i : ℕ) (os : List NodeId)
      → i ≤ length g.nodes
      → earlier_types extended i os ≡ earlier_types g i os
  unfolding earlier_types is_earlier
  earlier_types-extended i [] h = refl
  earlier_types-extended i (o ∷ os) h = ground (arith, at-extended o, earlier_types-extended i os h)

  pub check_application-extended :
      (i : ℕ) (t : ValueType) (a : OperationApplication) (d : OperationDef)
      → i ≤ length g.nodes
      → check_application extended i t a d ≡ check_application g i t a d
  unfolding check_application
  check_application-extended i t a d h =
      rw (check_operands-extended i a.operands, earlier_types-extended i a.operands h)

  symbol_name-extended :
      (s : SymbolId) {name : Text}
      → symbol_name g s ≡ some name
      → symbol_name extended s ≡ some name
  unfolding symbol_name
  symbol_name-extended s {name} h = ground (
    arith,
    lt-get_elem? g.symbol_names s.index {a = name},
    get_elem?-append g.symbol_names names s.index,
  )

  check_payload-extended :
      (i : ℕ) (t : ValueType) (p : ExpressionPayload)
      → i ≤ length g.nodes
      → check_payload g i t p ≡ []
      → check_payload extended i t p ≡ []
  check_payload-extended i t (constant c) h e = e
  check_payload-extended i t (symbol s) h e = elim (Option-cases (symbol_name g s)) [
    | inl missing ↦ ground arith
    | inr (name, found) ↦ ground (arith, symbol_name-extended s {name = name} found)
  ]
  check_payload-extended i t (external_value v) h e = e
  check_payload-extended i t (unknown r) h e = e
  check_payload-extended i t (merge os) h e = rw (check_merge_inputs-extended i t os h) e
  check_payload-extended i t (operation a) h e =
      elim (Option-cases (Catalogue.operation g.catalogue a.operation)) [
        | inl missing ↦ ground arith
        | inr (d, found) ↦ ground (arith, check_application-extended i t a d h)
      ]

  pub check_node-extended :
      (i : ℕ) (n : ExpressionNode)
      → i ≤ length g.nodes
      → check_node g i n ≡ []
      → check_node extended i n ≡ []
  unfolding check_node
  check_node-extended i n h c =
      let (id, rest) = append-eq-nil _ (expect (type_is_valid n.result_type) _ ++ _) c in
      let (type, payload) = append-eq-nil (expect (type_is_valid n.result_type) _) _ rest in
      rw (id, type) (check_payload-extended i n.result_type n.payload h payload)

  pub check_nodes-extended :
      (i : ℕ) (ns : List ExpressionNode)
      → i + length ns ≤ length g.nodes
      → check_nodes g i ns ≡ []
      → check_nodes extended i ns ≡ []
  unfolding check_nodes
  check_nodes-extended i [] h c = refl
  check_nodes-extended i (n ∷ ns) h c =
      let (first, rest) = append-eq-nil (check_node g i n) _ c in
      rw (check_node-extended i n (omega arith) first)
        (check_nodes-extended (suc i) ns (omega arith) rest)

pub check_nodes-append :
    (g : ExpressionGraph) (i : ℕ) (ns : List ExpressionNode) (n : ExpressionNode)
    → check_nodes g i ns ≡ []
    → check_node g (i + length ns) n ≡ []
    → check_nodes g i (ns ++ n ∷ []) ≡ []
unfolding check_nodes
check_nodes-append g i [] n h c = rw (rw add-zero at c) refl
check_nodes-append g i (m ∷ ns) n h c =
    let (first, rest) = append-eq-nil (check_node g i m) _ h in
    rw first
      (check_nodes-append g (suc i) ns n rest (subst (λ k. check_node g k n ≡ []) (omega arith) c))
