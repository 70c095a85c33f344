-- ===== src/Canonicalizer/Worklist/Import.antt =====
-- lib/canonicalizer/worklist.cpp: the loop that copies the reachable nodes into the output graph.
use sivra.Prelude.{
  ℕ, Bool, true, false, if◌then◌else◌, List, [], ◌∷◌, Option, none, some, get_elem?, set,
}
use sivra.Ir.Ids.{NodeId}
use sivra.Ir.Graph.{
  ExpressionGraph, ExpressionNode, ExpressionPayload, constant, symbol, external_value, unknown,
  operation, merge, payload_operands, symbol_name,
}
use sivra.Ir.Builder.Calls.{
  BuildCall, constant_call, symbol_call, known_external_call, unknown_call, apply_call, merge_call,
  perform,
}
use sivra.Ir.ValueType.{ValueType}
use sivra.Canonicalizer.Termination.{consume_import}
use sivra.Canonicalizer.Worklist.{
  WorklistState, resolved_operands, charge, observe_build, built_node,
}

-- The call of the builder for a payload; `none` is the exception of a symbol without a name. There
-- is no other kind of payload, so the last branch of the source has no counterpart.
unfoldable pub call_for :
    ExpressionGraph → ValueType → List NodeId → ExpressionPayload → Option BuildCall
call_for source t operands (constant c) = some (constant_call c)
call_for source t operands (symbol s) = elim (symbol_name source s) [
  | none ↦ none
  | some name ↦ some (symbol_call name t)
]
call_for source t operands (external_value v) = some (known_external_call v t)
call_for source t operands (unknown reason) = some (unknown_call reason t)
call_for source t operands (merge incoming) = some (merge_call operands t)
call_for source t operands (operation a) = some (apply_call a.operation operands a.attributes t)

module _ {Digest : Type 0} (source : ExpressionGraph) where
  -- `copied[index] = *result;`, or the end of the loop.
  unfoldable pub place : ℕ → WorklistState Digest × Option NodeId → WorklistState Digest × Bool
  place i (s, none) = (s, false)
  place i (s, some id) = (record s { copied = set s.copied i (some id) }, true)

  -- The call, if there is room for its node.
  unfoldable pub import_with :
      ℕ → BuildCall → WorklistState Digest × Bool → WorklistState Digest × Bool
  import_with i call (s, false) = (s, false)
  import_with i call (s, true) = place i (built_node s (perform s.output call))

  -- The state, and whether the loop goes on; `none` is an exception, here and below.
  unfoldable pub import_payload :
      ℕ → ExpressionNode → WorklistState Digest → Option (WorklistState Digest × Bool)
  import_payload i n s = elim (resolved_operands source s.copied (payload_operands n.payload)) [
    | none ↦ some (s, false)
    | some operands ↦ elim (call_for source n.result_type operands n.payload) [
      | none ↦ none
      | some call ↦ some (import_with i call (observe_build source s))
    ]
  ]

  abbrev pub import_counted : ℕ → WorklistState Digest × Bool → Option (WorklistState Digest × Bool)
  import_counted i (s, false) = some (s, false)
  import_counted i (s, true) = elim (get_elem? source.nodes i) [
    | none ↦ none
    | some n ↦ import_payload i n s
  ]

  unfoldable pub import_node :
      Bool → ℕ → WorklistState Digest → Option (WorklistState Digest × Bool)
  import_node count_imports i s =
      import_counted i
        (if count_imports then charge s (consume_import s.termination) else (s, true))

  unfoldable pub import_nodes : Bool → List ℕ → WorklistState Digest → Option (WorklistState Digest)
  import_nodes count_imports [] s = some s
  import_nodes count_imports (i ∷ is) s = elim (import_node count_imports i s) [
    | none ↦ none
    | some (s', false) ↦ some s'
    | some (s', true) ↦ import_nodes count_imports is s'
  ]
