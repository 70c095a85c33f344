-- ===== src/Canonicalizer/Worklist/Reach.antt =====
-- lib/canonicalizer/worklist.cpp: the nodes that the roots reach, and the users of a node.
use sivra.Prelude.{
  ℕ, zero, suc, ◌+◌, Bool, true, ◌&&◌, if◌then◌else◌, ltb, List, [], ◌∷◌, ◌++◌, Option, none, some,
  length, get_elem?, set, push_back, ◌==◌, nat_eq,
}
use sivra.Ir.Ids.{NodeId}
use sivra.Ir.Graph.{ExpressionGraph, ExpressionNode, payload_operands, at}
use sivra.Canonicalizer.Worklist.{Outcome, returns, out_of_fuel, flag}

pub record Reached : Type 0 where
  pub reachable : List Bool
  pub reachable_order : List ℕ

-- The pending nodes are a stack, its back in front here.
abbrev pub push_pending : List NodeId → List NodeId → List NodeId
push_pending [] pending = pending
push_pending (o ∷ os) pending = push_pending os (o ∷ pending)

abbrev pub mark_reached : Reached → ℕ → Reached
mark_reached r i = record {
  reachable = set r.reachable i true;
  reachable_order = push_back r.reachable_order i;
}

-- What is pending and reached behind a node that was taken off the stack.
unfoldable pub visit : ExpressionNode → ℕ → List NodeId → Reached → List NodeId × Reached
visit n i pending r =
    if flag r.reachable i
    then (pending, r)
    else (push_pending (payload_operands n.payload) pending, mark_reached r i)

-- `none` is a node that the source does not contain: an invalid root.
unfoldable pub reach : ℕ → ExpressionGraph → List NodeId → Reached → Outcome (Option Reached)
reach fuel source [] r = returns (some r)
reach zero source (current ∷ pending) r = out_of_fuel
reach (suc fuel) source (current ∷ pending) r = elim (at source current) [
  | none ↦ returns none
  | some n ↦ let (pending', r') = visit n current.index pending r in reach fuel source pending' r'
]

abbrev pub operand_count : List ExpressionNode → ℕ
operand_count [] = 0
operand_count (n ∷ ns) = length (payload_operands n.payload) + operand_count ns

abbrev operands_of : Option ExpressionNode → List NodeId
operands_of none = []
operands_of (some n) = payload_operands n.payload

-- `users[target]`, as far as the operands of one node go.
unfoldable pub users_in : ExpressionGraph → List Bool → ℕ → ℕ → List NodeId → List ℕ
users_in source reachable target i [] = []
users_in source reachable target i (o ∷ os) =
    let rest = users_in source reachable target i os in
    if o.owner == source.owner
      && (ltb o.index (length source.nodes) && (flag reachable o.index && o.index == target))
    then i ∷ rest
    else rest

-- `users[target]`, for the nodes from `i` on.
unfoldable pub users_from : ExpressionGraph → List Bool → ℕ → ℕ → List Bool → List ℕ
users_from source reachable target i [] = []
users_from source reachable target i (b ∷ bs) =
    let rest = users_from source reachable target (i + 1) bs in
    if b
    then users_in source reachable target i (operands_of (get_elem? source.nodes i)) ++ rest
    else rest

unfoldable pub users : ExpressionGraph → List Bool → ℕ → List ℕ
users source reachable target = users_from source reachable target 0 reachable
