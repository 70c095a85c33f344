-- ===== src/Tests/Worklist.antt =====
-- lib/canonicalizer/worklist.cpp on the maximum of two symbols, out of order.
use sivra.Prelude.{
  ℕ, ◌≡◌, ◌≢◌, refl, subst, true, false, codes, List, [], ◌∷◌, some, ◌⊎◌, inl, inr, arith,
}
use sivra.Prelude.Int.{pos}
use sivra.Prelude.Map.{map_find, emplace}
use sivra.Prelude.Sort.{stable_sort, insert}
use sivra.Core.Result.{ok, complete}
use sivra.Ir.Ids.{NodeId}
use sivra.Ir.ValueType.{i32}
use sivra.Ir.Attribute.{create}
use sivra.Ir.Schema.{validate_attributes, missing_defaults, check_attributes}
use sivra.Ir.Signature.{validate_application, validate_arity, accepts, check_operand_types}
use sivra.Ir.Trait.{has_trait}
use sivra.Ir.Catalogue as Catalogue
use sivra.Ir.Graph.{
  ExpressionGraph, ExpressionNode, ExpressionPayload, expression_graph, at, contains, size,
  symbol_name, can_append_node, can_allocate_symbol, allocate_symbol_id, append_validated,
}
use sivra.Ir.Validation.{
  is_earlier, check_node, check_nodes, check_operands, check_application, earlier_types,
  type_is_valid, validate_graph,
}
use sivra.Ir.Builder.{make_symbol, apply, validate_operands, operand_types}
use sivra.Ir.Structural.{
  compare, compare_records, record_of, node_records, node_record, payload_data, append_u8,
  append_u32, append_u64, append_string, append_type, append_attributes, compare_bytes,
}
use sivra.Ir.Structural.Meaning.{IsModel, GraphFits, PayloadFits}
use sivra.Ir.Structural.Prefix.{TypeFits}
use sivra.Ir.Builder.Calls.{BuildCall, apply_call, perform}
use sivra.Ir.Builder.Values.{call_value, perform-value}
use sivra.Canonicalizer.Configuration.{
  configuration, is_rule_enabled, is_trait_enabled, available_rules, default_limits,
}
use sivra.Canonicalizer.Mapping.{source_mapping, record_node, canonical_for, is_source}
use sivra.Canonicalizer.Rule.{RewriteRule, shape_normalization, find_rule}
use sivra.Canonicalizer.Rules.Structural.{apply_commutative_ordering}
use sivra.Canonicalizer.Rules.Ordering.{apply_commutative_ordering-same}
use sivra.Canonicalizer.Scheduler.{PassPlan, until_stable}
use sivra.Canonicalizer.Termination.{
  consume_import, consume_worklist_step, consume_rewrite, observe_output_nodes, increment,
}
use sivra.Canonicalizer.Trace.{record_event, record_events}
use sivra.Canonicalizer.Worklist.{
  returns, out_of_fuel, ApplyRule, WorklistEngine, resolved, resolved_operands, is_replacement,
  node_matches_subject, charge, observe_build, built_node,
}
use sivra.Canonicalizer.Worklist.Reach.{visit, reach, users_in, users_from, users}
use sivra.Canonicalizer.Worklist.Import.{
  call_for, place, import_with, import_payload, import_node, import_nodes,
}
use sivra.Canonicalizer.Worklist.Attempt.{
  use_replacement, use_rebuilt, use_result, observe_output, apply_rule, try_rule, try_rules,
  attempt,
}
use sivra.Canonicalizer.Worklist.Rounds.{
  enqueue, enqueue_all, applications, rebuild_subject, final_of, finish, settle, simplify,
  subject_at, process, queue_after, rewrite_queue,
}
use sivra.Canonicalizer.Worklist.Run.{
  WorklistResult, RunContext, record_copies, output_roots, result_of, conclude, rewrite_all,
  copy_reached, run,
}
use sivra.Canonicalizer.Worklist.Turns.{RuleAdds, RuleKeeps, RulesAdd, RulesKeep}
use sivra.Canonicalizer.Worklist.Renewals.{Sound}
use sivra.Canonicalizer.Worklist.Copies.{IsRead}
use sivra.Canonicalizer.Worklist.Readers.{
  reading_rule, reading_rule-RuleAdds, reading_rule-RuleKeeps,
}
use sivra.Canonicalizer.Worklist.Endings.{run-Ends}
use sivra.Canonicalizer.Worklist.Soundness.{run-Meant, run-valid}
use sivra.Tests.Rewrites.{
  maximum_id, maximum_catalogue, maximum_def, node_id, symbol_node, meaning, value_at, largest-perm,
  largest-IsAssociative, largest-IsIdempotent,
}

abbrev reversed_node : ExpressionNode
reversed_node = record {
  id = node_id 2;
  result_type = i32;
  payload =
      ExpressionPayload.operation
        (record { operation = maximum_id; operands = node_id 1 ∷ node_id 0 ∷ []; attributes = [] });
}

abbrev pub source : ExpressionGraph
source = record {
  owner = 3;
  external_value_owner = 5;
  catalogue = maximum_catalogue;
  nodes = symbol_node 0 ∷ symbol_node 1 ∷ reversed_node ∷ [];
  symbol_names = codes "x" ∷ codes "y" ∷ [];
  next_external_value = 0;
}

abbrev pub ordering_rule : RewriteRule ApplyRule
ordering_rule = record {
  id = codes "sivra.commutative_ordering";
  name = codes "ordering";
  phase = shape_normalization;
  priority = pos 0;
  apply = some (reading_rule apply_commutative_ordering);
}

abbrev pub ordering_engine : WorklistEngine ℕ
ordering_engine = record {
  configuration = configuration;
  rules = ordering_rule ∷ [];
  evaluators = [];
  digest = λ g id. id.index;
}

abbrev plan : PassPlan
plan = record {
  phase = shape_normalization;
  policy = until_stable;
  rules = codes "sivra.commutative_ordering" ∷ [];
}

abbrev start : RunContext ℕ
start = record {
  termination = record {
    limits = record {
      maximum_imported_nodes = 10;
      maximum_output_nodes = 10;
      maximum_node_growth = 10;
      maximum_worklist_steps = 10;
      maximum_rewrites = 10;
      maximum_rewrites_per_node = 10;
      maximum_phase_iterations = 10;
    };
    statistics = record {
      imported_nodes = 0;
      worklist_steps = 0;
      rewrites_applied = 0;
      phase_iterations = 0;
      peak_output_nodes = 0;
      exhausted_budget = false;
    };
    node_rewrites = [];
  };
  statistics = record { nodes_created = 0; nodes_reused = 0; rule_attempts = 0; rule_matches = 0 };
  trace = record { enabled = false; next_sequence = 0; events = [] };
}

abbrev output_id : ℕ → NodeId
output_id index = record { index = index; owner = 4 }

abbrev output_symbol : ℕ → ExpressionNode
output_symbol index = record {
  id = output_id index;
  result_type = i32;
  payload = ExpressionPayload.symbol (record { index = index; owner = 4 });
}

abbrev output_maximum : ℕ → List NodeId → ExpressionNode
output_maximum index operands = record {
  id = output_id index;
  result_type = i32;
  payload =
      ExpressionPayload.operation
        (record { operation = maximum_id; operands = operands; attributes = [] });
}

-- The node out of order is copied, and behind it stands the one in order.
abbrev result : WorklistResult ℕ
result = record {
  graph = record {
    owner = 4;
    external_value_owner = 5;
    catalogue = maximum_catalogue;
    nodes =
        output_symbol 0
        ∷ output_symbol 1
        ∷ output_maximum 2 (output_id 1 ∷ output_id 0 ∷ [])
        ∷ output_maximum 3 (output_id 0 ∷ output_id 1 ∷ [])
        ∷ [];
    symbol_names = codes "x" ∷ codes "y" ∷ [];
    next_external_value = 0;
  };
  roots = output_id 3 ∷ [];
  mapping = record {
    source_owner = 3;
    nodes = some (output_id 0) ∷ some (output_id 1) ∷ some (output_id 3) ∷ [];
  };
  changed = true;
  status = complete;
  diagnostics = [];
  termination = record start.termination {
    statistics = record {
      imported_nodes = 3;
      worklist_steps = 2;
      rewrites_applied = 1;
      phase_iterations = 0;
      peak_output_nodes = 4;
      exhausted_budget = false;
    };
    node_rewrites = (node_id 2, 1) ∷ [];
  };
  statistics = record { nodes_created = 4; nodes_reused = 0; rule_attempts = 2; rule_matches = 1 };
  trace = record { enabled = false; next_sequence = 0; events = [] };
}

ran : run ordering_engine source 4 (node_id 2 ∷ []) (some plan) true start ≡ returns result
unfolding run expression_graph reach visit at copy_reached stable_sort insert import_nodes
    import_node consume_import charge import_payload resolved_operands resolved call_for symbol_name
    import_with observe_build observe_output_nodes size built_node make_symbol can_append_node
    can_allocate_symbol allocate_symbol_id append_validated place apply Catalogue.operation
    validate_operands contains operand_types validate_attributes missing_defaults check_attributes
    create validate_application validate_arity accepts check_operand_types rewrite_all enqueue_all
    enqueue applications rewrite_queue process subject_at simplify attempt try_rules try_rule
    is_rule_enabled configuration available_rules default_limits find_rule apply_rule
    consume_worklist_step apply_commutative_ordering is_trait_enabled has_trait compare
    compare_records record_of node_records node_record payload_data append_u8 append_u32 append_u64
    append_string append_type append_attributes compare_bytes is_earlier observe_output use_result
    use_rebuilt use_replacement is_replacement consume_rewrite emplace map_find increment settle
    final_of node_matches_subject rebuild_subject finish record_events record_event queue_after
    users users_from users_in conclude record_copies record_node is_source source_mapping
    output_roots result_of validate_graph check_nodes check_node type_is_valid check_operands
    check_application earlier_types
ran = refl

pub engine-RulesAdd : RulesAdd ordering_engine
unfolding find_rule
engine-RulesAdd id rule f found applies =
    let it : reading_rule apply_commutative_ordering ≡ f = ground arith in
    subst RuleAdds it (reading_rule-RuleAdds apply_commutative_ordering)

engine-RulesKeep : RulesKeep meaning maximum_catalogue ordering_engine
unfolding find_rule
engine-RulesKeep id rule f found applies =
    let it : reading_rule apply_commutative_ordering ≡ f = ground arith in
    subst (RuleKeeps meaning maximum_catalogue) it (
      reading_rule-RuleKeeps meaning maximum_catalogue apply_commutative_ordering
        (λ c s r values v made known model given.
          apply_commutative_ordering-same meaning values c s v r
            (λ id d t as' found.
              (λ _. largest-IsAssociative, λ _ xs ys p. largest-perm p, λ _. largest-IsIdempotent))
            given made))

source_values : NodeId → ℕ
source_values = value_at (120 ∷ 121 ∷ 121 ∷ [])

source-IsRead : IsRead meaning source source_values
unfolding at symbol_name Catalogue.operation source_values
source-IsRead id n here = ground arith

source-valid : validate_graph source ≡ ok tt
unfolding validate_graph check_nodes check_node type_is_valid symbol_name Catalogue.operation
    check_operands check_application earlier_types is_earlier at validate_application accepts
    check_operand_types validate_attributes missing_defaults check_attributes create stable_sort
    insert
source-valid = refl

source-Sound : Sound meaning ordering_engine source source_values
source-Sound = record {
  keep = engine-RulesKeep;
  honours = λ id d t given normalized operands found e. refl;
  read = source-IsRead;
  valid = source-valid;
}

output_values : NodeId → ℕ
output_values = value_at (120 ∷ 121 ∷ 121 ∷ 121 ∷ [])

result-IsModel : IsModel meaning result.graph output_values
unfolding at symbol_name Catalogue.operation output_values
result-IsModel id n d here read = ground arith

output-cases :
    (id : NodeId) (n : ExpressionNode)
    → at result.graph id ≡ some n
    → (n ≡ output_symbol 0)
      ⊎ ((n ≡ output_symbol 1)
          ⊎ ((n ≡ output_maximum 2 (output_id 1 ∷ output_id 0 ∷ []))
              ⊎ (n ≡ output_maximum 3 (output_id 0 ∷ output_id 1 ∷ []))))
unfolding at
output-cases id n here = ground arith

maximum-Fits :
    (index a b : ℕ)
    → TypeFits i32
      × PayloadFits result.graph (output_maximum index (output_id a ∷ output_id b ∷ [])).payload
unfolding Catalogue.operation
maximum-Fits index a b = (
  (omega arith, omega arith),
  (
    (λ d e. let same : maximum_def ≡ d = ground arith in rw (← same) (omega arith, omega arith)),
    (omega arith, tt),
    omega arith,
  ),
)

result-GraphFits : GraphFits result.graph
unfolding symbol_name
result-GraphFits id n here = elim (output-cases id n here) [
  | inl here ↦ rw here ((omega arith, omega arith), λ name e. ground arith)
  | inr (inl here) ↦ rw here ((omega arith, omega arith), λ name e. ground arith)
  | inr (inr (inl here)) ↦ rw here (maximum-Fits 2 1 0)
  | inr (inr (inr here)) ↦ rw here (maximum-Fits 3 0 1)
]

mapped : canonical_for result.mapping (node_id 2) ≡ some (output_id 3)
unfolding canonical_for is_source
mapped = refl

run-Meant_example : output_values (output_id 3) ≡ source_values (node_id 2)
run-Meant_example =
    run-Meant meaning ordering_engine source source_values engine-RulesAdd source-Sound 4
      (node_id 2 ∷ []) (some plan) true start result output_values ran
      (result-IsModel, result-GraphFits) (node_id 2) (output_id 3) mapped

run-valid_example : validate_graph result.graph ≡ ok tt
run-valid_example =
    run-valid ordering_engine source 4 (node_id 2 ∷ []) (some plan) true start result ran refl

run-Ends_example :
    run ordering_engine source 4 (node_id 2 ∷ []) (some plan) true start ≢ out_of_fuel
run-Ends_example =
    run-Ends ordering_engine source 4 (node_id 2 ∷ []) (some plan) true start engine-RulesAdd

abbrev ordered_call : BuildCall
ordered_call = apply_call maximum_id (node_id 0 ∷ node_id 1 ∷ []) [] i32

abbrev ordered_node : ExpressionNode
ordered_node = record {
  id = node_id 3;
  result_type = i32;
  payload =
      ExpressionPayload.operation
        (record { operation = maximum_id; operands = node_id 0 ∷ node_id 1 ∷ []; attributes = [] });
}

abbrev larger : ExpressionGraph
larger = record source { nodes = symbol_node 0 ∷ symbol_node 1 ∷ reversed_node ∷ ordered_node ∷ [] }

performed : perform source ordered_call ≡ ok (larger, node_id 3)
unfolding apply Catalogue.operation validate_operands contains operand_types at validate_attributes
    missing_defaults check_attributes create validate_application validate_arity accepts
    check_operand_types can_append_node append_validated stable_sort insert
performed = refl

larger-IsModel : IsModel meaning larger output_values
unfolding at symbol_name Catalogue.operation output_values
larger-IsModel id n d here read = ground arith

called : call_value meaning output_values source ordered_call ≡ some 121
unfolding Catalogue.operation output_values
called = refl

perform-value_example : output_values (node_id 3) ≡ 121
perform-value_example =
    perform-value meaning output_values source ordered_call larger (node_id 3) 121
      (λ id d t given normalized operands found e. refl) larger-IsModel performed called
