-- ===== src/Canonicalizer/Engine/Canonicalize.antt =====
-- lib/canonicalizer/engine.cpp: the loops over the phases, and `canonicalize`.
use sivra.Prelude.{
  ℕ, zero, suc, ◌+◌, ◌-◌, Bool, true, false, ◌&&◌, ◌||◌, not, if◌then◌else◌, List, [], ◌∷◌, ◌++◌,
  Option, none, some, is_empty, max, push_back, nat_eq,
}
use sivra.Core.Result.{
  ok, err, DiagnosticBundle, complete, invalid_input, resource_exhausted, internal_failure,
}
use sivra.Ir.Ids.{NodeId, OwnerToken}
use sivra.Ir.Graph.{ExpressionGraph, expression_graph, size}
use sivra.Ir.Validation.{validate_graph}
use sivra.Canonicalizer.Configuration.{is_phase_enabled}
use sivra.Canonicalizer.Mapping.{source_mapping}
use sivra.Canonicalizer.Scheduler.{PassPlan}
use sivra.Canonicalizer.Termination.{CanonicalizationStatistics, Consumed, begin_phase_iteration}
use sivra.Canonicalizer.Trace.{mark}
use sivra.Canonicalizer.Worklist.{Outcome, returns, throws, out_of_fuel, ◌>>=◌, or_throw}
use sivra.Canonicalizer.Worklist.Rounds.{is_complete}
use sivra.Canonicalizer.Worklist.Run.{WorklistResult, run, errors_of}
use sivra.Canonicalizer.Engine.{
  CanonicalizationResult, Engine, EngineState, after_phase, check_input, compose_if, context_after,
  merge_status, new_context, note_run, same_roots, take_over,
}

module _ {Digest : Type 0} (e : Engine Digest) where
  abbrev pub State : Type 0
  State = EngineState Digest

  unfoldable pub run_phase : PassPlan → State → Outcome (State × Bool)
  run_phase plan st =
      run e.worklist st.working_graph st.next_owner st.working_roots (some plan) false st.context
      >>= λ r. returns (after_phase plan.policy (mark st.context.trace) st r)

  abbrev pub begun : PassPlan → State → Consumed → Outcome (State × Bool)
  begun plan st (t, some d) = returns (
    record st {
      context = record st.context { termination = t };
      diagnostics = push_back st.diagnostics d;
      status = resource_exhausted;
      stop = true;
    },
    false,
  )
  begun plan st (t, none) =
      run_phase plan (record st { context = record st.context { termination = t } })

  -- One round of the loop of a phase, and whether there is another.
  unfoldable pub phase_iteration : PassPlan → State → Outcome (State × Bool)
  phase_iteration plan st = begun plan st (begin_phase_iteration st.context.termination)

  unfoldable pub phase_loop : ℕ → PassPlan → State → Outcome State
  phase_loop zero plan st = out_of_fuel
  phase_loop (suc fuel) plan st = elim (phase_iteration plan st) [
    | throws ↦ throws
    | out_of_fuel ↦ out_of_fuel
    | returns (st', true) ↦ phase_loop fuel plan st'
    | returns (st', false) ↦ returns st'
  ]

  -- The fuel of the loops: each round, and each sequence with a round, begins a phase iteration.
  abbrev pub phase_fuel : State → ℕ
  phase_fuel st = suc (
      st.context.termination.limits.maximum_phase_iterations
      - st.context.termination.statistics.phase_iterations)

  unfoldable pub run_plan : PassPlan → State → Outcome State
  run_plan plan st =
      if st.stop
        || is_empty plan.rules
        || not (is_phase_enabled e.worklist.configuration plan.phase)
      then returns st
      else phase_loop (phase_fuel st) plan st

  unfoldable pub run_plans : List PassPlan → State → Outcome State
  run_plans [] st = returns st
  run_plans (plan ∷ plans) st = elim (run_plan plan st) [
    | throws ↦ throws
    | out_of_fuel ↦ out_of_fuel
    | returns st' ↦ run_plans plans st'
  ]

  -- The loop around the plans.
  unfoldable pub sequences : ℕ → State → Outcome State
  sequences zero st = out_of_fuel
  sequences (suc fuel) st = elim (run_plans e.scheduler (record st { changed_sequence = false })) [
    | throws ↦ throws
    | out_of_fuel ↦ out_of_fuel
    | returns st' ↦ elim (not st'.stop && st'.changed_sequence) [
      | false ↦ returns st'
      | true ↦ sequences fuel st'
    ]
  ]

  unfoldable pub run_phases : State → Outcome State
  run_phases st = if is_complete st.status then sequences (phase_fuel st) st else returns st

  abbrev pub composed_with : WorklistResult Digest → State × Bool → State
  composed_with r (st, true) = take_over st r
  composed_with r (st, false) = st

  unfoldable pub after_compaction : State → WorklistResult Digest → State
  after_compaction st r = composed_with r (compose_if (same_roots st r) (note_run st r) r.mapping)

  unfoldable pub compact : State → Outcome State
  compact st =
      if is_empty st.working_roots
      then returns st
      else (run e.worklist st.working_graph st.next_owner st.working_roots none false st.context
          >>= λ r. returns (after_compaction st r))

  abbrev pub failed : State → Option DiagnosticBundle → State
  failed st none = st
  failed st (some errors) = record st {
    diagnostics = st.diagnostics ++ errors;
    status = internal_failure;
  }

  abbrev final_statistics : CanonicalizationStatistics → ℕ → CanonicalizationStatistics
  final_statistics s nodes = record s { peak_output_nodes = max s.peak_output_nodes nodes }

  abbrev pub final_result : State → CanonicalizationResult Digest
  final_result st = record {
    graph = st.working_graph;
    roots = st.working_roots;
    status = st.status;
    diagnostics = st.diagnostics;
    statistics = final_statistics st.context.termination.statistics (size st.working_graph);
    worklist_statistics = st.context.statistics;
    output_nodes = size st.working_graph;
    mapping = st.mapping;
    trace = st.context.trace.events;
  }

  unfoldable pub conclude : State → CanonicalizationResult Digest
  conclude st = final_result (failed st (errors_of (validate_graph st.working_graph)))

  abbrev pub imported : WorklistResult Digest → OwnerToken → State
  imported r owner = record {
    context = context_after r;
    diagnostics = r.diagnostics;
    status = merge_status complete r.status;
    mapping = r.mapping;
    working_graph = r.graph;
    working_roots = r.roots;
    next_owner = owner;
    stop = false;
    changed_sequence = false;
  }

  -- `canonicalize` behind its checks.
  unfoldable pub canonicalize_valid :
      OwnerToken → ExpressionGraph → List NodeId → Outcome (CanonicalizationResult Digest)
  canonicalize_valid owner graph roots =
      run e.worklist graph owner roots none true (new_context e) >>= λ r.
      run_phases (imported r (owner + 1)) >>= λ st. compact st >>= λ st'. returns (conclude st')

  abbrev pub empty_result :
      ExpressionGraph → DiagnosticBundle → ExpressionGraph → CanonicalizationResult Digest
  empty_result graph errors output = record {
    graph = output;
    roots = [];
    status = invalid_input;
    diagnostics = errors;
    statistics = (new_context e).termination.statistics;
    worklist_statistics = (new_context e).statistics;
    output_nodes = 0;
    mapping = source_mapping graph.owner (size graph);
    trace = [];
  }

  unfoldable pub invalid_result :
      OwnerToken → ExpressionGraph → DiagnosticBundle → Outcome (CanonicalizationResult Digest)
  invalid_result owner graph errors =
      or_throw (expression_graph owner graph.catalogue graph.external_value_owner) >>= λ output.
      returns (empty_result graph errors output)

  -- `canonicalize`, with the first of the tokens that its graphs take.
  unfoldable pub canonicalize :
      OwnerToken → ExpressionGraph → List NodeId → Outcome (CanonicalizationResult Digest)
  canonicalize owner graph roots = elim (check_input e graph) [
    | err errors ↦ invalid_result owner graph errors
    | ok done ↦ canonicalize_valid owner graph roots
  ]

  abbrev front : List NodeId → Option NodeId
  front [] = none
  front (root ∷ roots) = some root

  -- The overload for a single root: the result, and the root in the place of the roots.
  unfoldable pub canonicalize_root :
      OwnerToken
      → ExpressionGraph
      → NodeId
      → Outcome (CanonicalizationResult Digest × Option NodeId)
  canonicalize_root owner graph root =
      canonicalize owner graph (root ∷ []) >>= λ r. returns (r, front r.roots)
