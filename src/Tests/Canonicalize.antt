-- ===== src/Tests/Canonicalize.antt =====
-- lib/canonicalizer/engine.cpp on the maximum of two symbols, out of order.
use sivra.Prelude.{ℕ, ◌≡◌, ◌≢◌, refl, false, codes, [], ◌∷◌, some, All}
use sivra.Prelude.Map.{map_find, emplace}
use sivra.Prelude.Sort.{stable_sort, insert}
use sivra.Core.Result.{ok, complete}
use sivra.Ir.Ids.{NodeId}
use sivra.Ir.ValueType.{i32}
use sivra.Ir.Attribute.{create}
use sivra.Ir.Schema.{validate_attributes, missing_defaults, check_attributes}
use sivra.Ir.Signature.{validate_application, validate_arity, accepts, check_operand_types}
use sivra.Ir.Trait.{has_trait}
use sivra.Ir.Catalogue as Catalogue
use sivra.Ir.Graph.{
  ExpressionNode, ExpressionPayload, expression_graph, at, contains, size, symbol_name,
  can_append_node, can_allocate_symbol, allocate_symbol_id, append_validated,
}
use sivra.Ir.Validation.{
  is_earlier, check_node, check_nodes, check_operands, check_application, earlier_types,
  type_is_valid, validate_graph,
}
use sivra.Ir.Builder.{make_symbol, apply, validate_operands, operand_types}
use sivra.Ir.Structural.{
  compare, compare_records, record_of, node_records, node_record, payload_data, append_u8,
  append_u32, append_u64, append_string, append_type, append_attributes, compare_bytes,
}
use sivra.Canonicalizer.Configuration.{
  configuration, is_rule_enabled, is_trait_enabled, available_rules, default_limits,
}
use sivra.Canonicalizer.Mapping.{source_mapping, record_node, is_source}
use sivra.Canonicalizer.Rule.{find_rule}
use sivra.Canonicalizer.Rules.Structural.{apply_commutative_ordering}
use sivra.Canonicalizer.Termination.{
  consume_import, consume_worklist_step, consume_rewrite, observe_output_nodes, increment,
}
use sivra.Canonicalizer.Trace.{record_event, record_events}
use sivra.Canonicalizer.Worklist.{
  returns, out_of_fuel, resolved, resolved_operands, is_replacement, node_matches_subject, charge,
  observe_build, built_node,
}
use sivra.Canonicalizer.Worklist.Reach.{visit, reach, users_in, users_from, users}
use sivra.Canonicalizer.Worklist.Import.{
  call_for, place, import_with, import_payload, import_node, import_nodes,
}
use sivra.Canonicalizer.Worklist.Attempt.{
  use_replacement, use_rebuilt, use_result, observe_output, apply_rule, try_rule, try_rules,
  attempt,
}
use sivra.Canonicalizer.Worklist.Rounds.{
  enqueue, enqueue_all, applications, rebuild_subject, final_of, finish, settle, simplify,
  subject_at, process, queue_after, rewrite_queue,
}
use sivra.Canonicalizer.Worklist.Run.{
  record_copies, output_roots, result_of, conclude, rewrite_all, copy_reached, run,
}
use sivra.Tests.Rewrites.{maximum_id, maximum_catalogue, node_id}
-- lib/canonicalizer/engine.cpp on the maximum of two symbols, out of order.
use sivra.Prelude.{ℕ, ◌≡◌, ◌≢◌, refl, false, codes, [], ◌∷◌, some, All}
use sivra.Prelude.Map.{map_find, emplace}
use sivra.Prelude.Sort.{stable_sort, insert}
use sivra.Core.Result.{ok, complete}
use sivra.Ir.Ids.{NodeId}
use sivra.Ir.ValueType.{i32}
use sivra.Ir.Attribute.{create}
use sivra.Ir.Schema.{validate_attributes, missing_defaults, check_attributes}
use sivra.Ir.Signature.{validate_application, validate_arity, accepts, check_operand_types}
use sivra.Ir.Trait.{has_trait}
use sivra.Ir.Catalogue as Catalogue
use sivra.Ir.Graph.{
  ExpressionNode, ExpressionPayload, expression_graph, at, contains, size, symbol_name,
  can_append_node, can_allocate_symbol, allocate_symbol_id, append_validated,
}
use sivra.Ir.Validation.{
  is_earlier, check_node, check_nodes, check_operands, check_application, earlier_types,
  type_is_valid, validate_graph,
}
use sivra.Ir.Builder.{make_symbol, apply, validate_operands, operand_types}
use sivra.Ir.Structural.{
  compare, compare_records, record_of, node_records, node_record, payload_data, append_u8,
  append_u32, append_u64, append_string, append_type, append_attributes, compare_bytes,
}
use sivra.Canonicalizer.Configuration.{
  configuration, is_rule_enabled, is_trait_enabled, available_rules, default_limits,
}
use sivra.Canonicalizer.Mapping.{source_mapping, record_node, is_source}
use sivra.Canonicalizer.Rule.{find_rule}
use sivra.Canonicalizer.Rules.Structural.{apply_commutative_ordering}
use sivra.Canonicalizer.Termination.{
  consume_import, consume_worklist_step, consume_rewrite, observe_output_nodes, increment,
}
use sivra.Canonicalizer.Trace.{record_event, record_events}
use sivra.Canonicalizer.Worklist.{
  returns, out_of_fuel, resolved, resolved_operands, is_replacement, node_matches_subject, charge,
  observe_build, built_node,
}
use sivra.Canonicalizer.Worklist.Reach.{visit, reach, users_in, users_from, users}
use sivra.Canonicalizer.Worklist.Import.{
  call_for, place, import_with, import_payload, import_node, import_nodes,
}
use sivra.Canonicalizer.Worklist.Attempt.{
  use_replacement, use_rebuilt, use_result, observe_output, apply_rule, try_rule, try_rules,
  attempt,
}
use sivra.Canonicalizer.Worklist.Rounds.{
  enqueue, enqueue_all, applications, rebuild_subject, final_of, finish, settle, simplify,
  subject_at, process, queue_after, rewrite_queue,
}
use sivra.Canonicalizer.Worklist.Run.{
  record_copies, output_roots, result_of, conclude, rewrite_all, copy_reached, run,
}
use sivra.Tests.Rewrites.{maximum_id, maximum_catalogue, node_id}
use sivra.Canonicalizer.Configuration.{validate_configuration, is_phase_enabled}
use sivra.Canonicalizer.Rule.{is_known_phase}
use sivra.Prelude.{none}
use sivra.Canonicalizer.Mapping.{compose, compose_entries}
use sivra.Canonicalizer.Scheduler.{
  pass_scheduler, make_plan, phase_rules, validate_plans, validate_rules,
}
use sivra.Canonicalizer.Termination.{termination_tracker, begin_phase_iteration}
use sivra.Canonicalizer.Trace.{mark, rollback}
use sivra.Canonicalizer.Engine.{
  Engine, CanonicalizationResult, merge_status, validate_evaluator_bindings, check_enabled,
  check_input, note_run, compose_mapping, interrupted, advanced, after_phase,
}
use sivra.Canonicalizer.Engine.Canonicalize.{
  run_phase, phase_iteration, phase_loop, run_plan, run_plans, sequences, run_phases,
  after_compaction, compact, canonicalize_valid, canonicalize,
}
use sivra.Canonicalizer.Engine.Canonicalize as Engines
use sivra.Canonicalizer.Engine.Endings.{canonicalize-Ends}
use sivra.Canonicalizer.Engine.Checked.{IsCatalogued, IsBound, canonicalize-valid}
use sivra.Canonicalizer.Evaluator.{find_evaluator}
use sivra.Ir.Operation.{operation_key}
use sivra.Tests.Worklist.{source, ordering_engine, engine-RulesAdd}

abbrev one_rule : Engine ℕ
one_rule = record {
  worklist = record ordering_engine {
    configuration = record configuration {
      enabled_rules = codes "sivra.commutative_ordering" ∷ [];
    };
    evaluators = record { operation = operation_key "maximum"; evaluate = none } ∷ [];
  };
  scheduler = pass_scheduler ordering_engine.rules;
}

abbrev canonical_id : ℕ → NodeId
canonical_id index = record { index = index; owner = 8 }

abbrev canonical_node : ℕ → ExpressionPayload → ExpressionNode
canonical_node index payload = record {
  id = canonical_id index;
  result_type = i32;
  payload = payload;
}

-- The operands are in order, and the node out of order is gone.
abbrev canonical : CanonicalizationResult ℕ
canonical = record {
  graph = record {
    owner = 8;
    external_value_owner = 5;
    catalogue = maximum_catalogue;
    nodes =
        canonical_node 0 (ExpressionPayload.symbol (record { index = 0; owner = 8 }))
        ∷ canonical_node 1 (ExpressionPayload.symbol (record { index = 1; owner = 8 }))
        ∷ canonical_node 2 (
            ExpressionPayload.operation (record {
              operation = maximum_id;
              operands = canonical_id 0 ∷ canonical_id 1 ∷ [];
              attributes = [];
            }))
        ∷ [];
    symbol_names = codes "x" ∷ codes "y" ∷ [];
    next_external_value = 0;
  };
  roots = canonical_id 2 ∷ [];
  status = complete;
  diagnostics = [];
  statistics = record {
    imported_nodes = 3;
    worklist_steps = 4;
    rewrites_applied = 1;
    phase_iterations = 3;
    peak_output_nodes = 4;
    exhausted_budget = false;
  };
  worklist_statistics = record {
    nodes_created = 16;
    nodes_reused = 0;
    rule_attempts = 4;
    rule_matches = 1;
  };
  output_nodes = 3;
  mapping = record {
    source_owner = 3;
    nodes = some (canonical_id 0) ∷ some (canonical_id 1) ∷ some (canonical_id 2) ∷ [];
  };
  trace = [];
}

canonicalized : canonicalize one_rule 4 source (node_id 2 ∷ []) ≡ returns canonical
unfolding run expression_graph reach visit at copy_reached stable_sort insert import_nodes
    import_node consume_import charge import_payload resolved_operands resolved call_for symbol_name
    import_with observe_build observe_output_nodes size built_node make_symbol can_append_node
    can_allocate_symbol allocate_symbol_id append_validated place apply Catalogue.operation
    validate_operands contains operand_types validate_attributes missing_defaults check_attributes
    create validate_application validate_arity accepts check_operand_types rewrite_all enqueue_all
    enqueue applications rewrite_queue process subject_at simplify attempt try_rules try_rule
    is_rule_enabled configuration available_rules default_limits find_rule apply_rule
    consume_worklist_step apply_commutative_ordering is_trait_enabled has_trait compare
    compare_records record_of node_records node_record payload_data append_u8 append_u32 append_u64
    append_string append_type append_attributes compare_bytes is_earlier observe_output use_result
    use_rebuilt use_replacement is_replacement consume_rewrite emplace map_find increment settle
    final_of node_matches_subject rebuild_subject finish record_events record_event queue_after
    users users_from users_in conclude record_copies record_node is_source source_mapping
    output_roots result_of validate_graph check_nodes check_node type_is_valid check_operands
    check_application earlier_types canonicalize check_input validate_configuration is_known_phase
    validate_plans validate_rules check_enabled validate_evaluator_bindings find_evaluator
    canonicalize_valid pass_scheduler make_plan phase_rules termination_tracker merge_status
    run_phases sequences run_plans run_plan is_phase_enabled phase_loop phase_iteration
    begin_phase_iteration run_phase after_phase note_run compose_mapping compose compose_entries
    interrupted advanced rollback mark compact after_compaction Engines.conclude
canonicalized = refl

canonicalize-valid_example :
    ((validate_configuration one_rule.worklist.configuration ≡ ok tt)
      × (validate_plans one_rule.worklist.rules one_rule.scheduler ≡ ok tt)
      × All (IsCatalogued one_rule.worklist.rules) one_rule.worklist.configuration.enabled_rules
      × (validate_graph source ≡ ok tt)
      × All (IsBound one_rule.worklist.evaluators) source.catalogue.definitions)
    × (validate_graph canonical.graph ≡ ok tt)
canonicalize-valid_example =
    canonicalize-valid one_rule 4 source (node_id 2 ∷ []) canonical canonicalized refl

canonicalize-Ends_example : canonicalize one_rule 4 source (node_id 2 ∷ []) ≢ out_of_fuel
canonicalize-Ends_example = canonicalize-Ends one_rule engine-RulesAdd 4 source (node_id 2 ∷ [])
