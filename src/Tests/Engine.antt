-- ===== src/Tests/Engine.antt =====
-- lib/canonicalizer/termination.cpp and lib/canonicalizer/result.cpp on small histories.
use sivra.Prelude.{ℕ, ◌≡◌, refl, true, List, [], ◌∷◌, none, some, if◌then◌else◌, ◌==◌, nat_eq, set}
use sivra.Prelude.Map.{map_find, emplace}
use sivra.Core.Result.{ok}
use sivra.Ir.Ids.{NodeId, node_id_eq}
use sivra.Canonicalizer.Termination.{
  CanonicalizationLimits, TrackerCall, import_call, step_call, rewrite_call, phase_call,
  output_call, termination_tracker, consume_import, consume_worklist_step, consume_rewrite,
  begin_phase_iteration, observe_output_nodes, increment, run,
}
use sivra.Canonicalizer.Termination.Bounds.{IsBounded, run-IsBounded, run_exhausted}
use sivra.Canonicalizer.Mapping.{
  SourceMapping, is_source, record_node, canonical_for, compose, compose_entries, then_canonical,
  compose-canonical_for, record_node-canonical_for,
}

abbrev limits : CanonicalizationLimits
limits = record {
  maximum_imported_nodes = 2;
  maximum_output_nodes = 10;
  maximum_node_growth = 3;
  maximum_worklist_steps = 4;
  maximum_rewrites = 5;
  maximum_rewrites_per_node = 1;
  maximum_phase_iterations = 2;
}

abbrev source_node : ℕ → NodeId
source_node index = record { index = index; owner = 1 }

abbrev middle_node : ℕ → NodeId
middle_node index = record { index = index; owner = 2 }

abbrev last_node : ℕ → NodeId
last_node index = record { index = index; owner = 3 }

-- The second rewrite of node 0 is one too many.
abbrev history : List TrackerCall
history =
    import_call
    ∷ phase_call
    ∷ step_call
    ∷ rewrite_call (source_node 0)
    ∷ output_call 4 2
    ∷ rewrite_call (source_node 0)
    ∷ []

refused : (run (termination_tracker limits) history).1 ≡ true
unfolding run termination_tracker consume_import consume_worklist_step consume_rewrite
    begin_phase_iteration observe_output_nodes increment map_find emplace
refused = refl

run-IsBounded_example : IsBounded (run (termination_tracker limits) history).0
run-IsBounded_example = run-IsBounded limits history

run_exhausted_example :
    (run (termination_tracker limits) history).0.statistics.exhausted_budget
    ≡ (run (termination_tracker limits) history).1
run_exhausted_example = run_exhausted limits history

abbrev first_mapping : SourceMapping
first_mapping = record {
  source_owner = 1;
  nodes = some (middle_node 1) ∷ none ∷ some (middle_node 0) ∷ [];
}

abbrev next_mapping : SourceMapping
next_mapping = record { source_owner = 2; nodes = some (last_node 0) ∷ some (last_node 7) ∷ [] }

composes : (compose first_mapping next_mapping).1 ≡ ok tt
unfolding compose compose_entries is_source
composes = refl

moved : canonical_for (compose first_mapping next_mapping).0 (source_node 0) ≡ some (last_node 7)
unfolding compose compose_entries is_source canonical_for
moved = refl

compose-canonical_for_example :
    canonical_for (compose first_mapping next_mapping).0 (source_node 0)
    ≡ then_canonical next_mapping (canonical_for first_mapping (source_node 0))
compose-canonical_for_example =
    compose-canonical_for first_mapping next_mapping (source_node 0) composes

abbrev recorded : SourceMapping
recorded = record first_mapping { nodes = set first_mapping.nodes 1 (some (middle_node 5)) }

records : record_node first_mapping (source_node 1) (middle_node 5) ≡ ok recorded
unfolding record_node is_source
records = refl

record_node-canonical_for_example : canonical_for recorded (source_node 1) ≡ (
    if source_node 1 == source_node 1
    then some (middle_node 5)
    else canonical_for first_mapping (source_node 1))
record_node-canonical_for_example =
    record_node-canonical_for first_mapping recorded (source_node 1) (middle_node 5) (source_node 1)
      records
