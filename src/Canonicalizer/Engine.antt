-- ===== src/Canonicalizer/Engine.antt =====
-- lib/canonicalizer/engine.cpp: the phases of a canonicalization, run until nothing changes.
pub mod Canonicalize
pub mod Steps
pub mod Endings
pub mod Checked
use sivra.Prelude.{
  ℕ, zero, suc, ◌+◌, ◌-◌, Bool, true, false, ◌&&◌, ◌||◌, not, if◌then◌else◌, List, [], ◌∷◌, ◌++◌,
  Option, none, some, length, is_empty, has_value, max, push_back, Text, ◌==◌, nat_eq,
}
use sivra.Core.Result.{
  Result, ok, err, require, ◌>>◌, DiagnosticBundle, AnalysisStatus, complete, invalid_input,
  resource_exhausted, internal_failure,
}
use sivra.Ir.Ids.{NodeId, OwnerToken}
use sivra.Ir.Operation.{OperationDef}
use sivra.Ir.Graph.{ExpressionGraph, expression_graph, size}
use sivra.Ir.Validation.{validate_graph}
use sivra.Canonicalizer.Configuration.{validate_configuration, is_phase_enabled}
use sivra.Canonicalizer.Evaluator.{EvaluatorCatalogue, find_evaluator}
use sivra.Canonicalizer.Mapping.{SourceMapping, source_mapping, compose}
use sivra.Canonicalizer.Rule.{RewriteRule, find_rule}
use sivra.Canonicalizer.Scheduler.{
  PassPlan, FixedPointPolicy, once, until_stable, pass_scheduler, validate_plans,
}
use sivra.Canonicalizer.Termination.{
  CanonicalizationStatistics, termination_tracker, Consumed, begin_phase_iteration,
}
use sivra.Canonicalizer.Trace.{TraceCollector, RewriteTraceEvent, Checkpoint, mark, rollback}
use sivra.Canonicalizer.Worklist.{
  Outcome, returns, throws, out_of_fuel, ◌>>=◌, or_throw, ApplyRule, WorklistEngine,
  WorklistStatistics,
}
use sivra.Canonicalizer.Worklist.Rounds.{is_complete}
use sivra.Canonicalizer.Worklist.Run.{RunContext, WorklistResult, run, errors_of}

-- The status of a run behind that of the runs before.
unfoldable pub merge_status : AnalysisStatus → AnalysisStatus → AnalysisStatus
merge_status current internal_failure = internal_failure
merge_status current invalid_input = invalid_input
merge_status complete resource_exhausted = resource_exhausted
merge_status current _ = current

abbrev is_bound : EvaluatorCatalogue → OperationDef → Bool
is_bound evaluators d = elim d.semantics.evaluator_key [
  | none ↦ true
  | some key ↦ has_value (find_evaluator evaluators key)
]

unfoldable pub validate_evaluator_bindings :
    List OperationDef → EvaluatorCatalogue → Result (Unit {0})
validate_evaluator_bindings [] evaluators = ok tt
validate_evaluator_bindings (d ∷ ds) evaluators = do
  require (is_bound evaluators d) "canonicalizer.evaluator_catalogue.missing_evaluator"
  validate_evaluator_bindings ds evaluators

-- `engine`; the catalogues are there, so the exception of its constructor has no counterpart.
pub record Engine (Digest : Type 0) : Type 0 where
  pub worklist : WorklistEngine Digest
  pub scheduler : List PassPlan

unfoldable pub engine : {Digest : Type 0} → WorklistEngine Digest → Engine Digest
engine worklist = record { worklist = worklist; scheduler = pass_scheduler worklist.rules }

-- `canonicalization_result`, without the contract, which is a constant of the configuration.
pub record CanonicalizationResult (Digest : Type 0) : Type 0 where
  pub graph : ExpressionGraph
  pub roots : List NodeId
  pub status : AnalysisStatus
  pub diagnostics : DiagnosticBundle
  pub statistics : CanonicalizationStatistics
  pub worklist_statistics : WorklistStatistics
  pub output_nodes : ℕ
  pub mapping : SourceMapping
  pub trace : List (RewriteTraceEvent Digest)

-- The variables of `canonicalize`. Each run takes the next token of the global counter.
pub record EngineState (Digest : Type 0) : Type 0 where
  pub context : RunContext Digest
  pub diagnostics : DiagnosticBundle
  pub status : AnalysisStatus
  pub mapping : SourceMapping
  pub working_graph : ExpressionGraph
  pub working_roots : List NodeId
  pub next_owner : OwnerToken
  pub stop : Bool
  pub changed_sequence : Bool

-- The loop over the enabled rules.
unfoldable pub check_enabled : List (RewriteRule ApplyRule) → List Text → Result (Unit {0})
check_enabled rules [] = ok tt
check_enabled rules (id ∷ ids) = do
  require (has_value (find_rule rules id)) "canonicalizer.configuration.unknown_rule"
  check_enabled rules ids

module _ {Digest : Type 0} where
  -- The checks before the first run, in order.
  unfoldable pub check_input : Engine Digest → ExpressionGraph → Result (Unit {0})
  check_input e graph = do
    validate_configuration e.worklist.configuration
    validate_plans e.worklist.rules e.scheduler
    check_enabled e.worklist.rules e.worklist.configuration.enabled_rules
    validate_graph graph
    validate_evaluator_bindings graph.catalogue.definitions e.worklist.evaluators

  abbrev new_trace : Bool → TraceCollector Digest
  new_trace enabled = record { enabled = enabled; next_sequence = 0; events = [] }

  abbrev pub new_context : Engine Digest → RunContext Digest
  new_context e = record {
    termination = termination_tracker e.worklist.configuration.limits;
    statistics = record {
      nodes_created = 0;
      nodes_reused = 0;
      rule_attempts = 0;
      rule_matches = 0;
    };
    trace = new_trace e.worklist.configuration.collect_trace;
  }

  abbrev pub context_after : WorklistResult Digest → RunContext Digest
  context_after r = record {
    termination = r.termination;
    statistics = r.statistics;
    trace = r.trace;
  }

  -- What a run leaves in the state, before its graph is taken over.
  unfoldable pub note_run : EngineState Digest → WorklistResult Digest → EngineState Digest
  note_run st r = record st {
    context = context_after r;
    diagnostics = st.diagnostics ++ r.diagnostics;
    status = merge_status st.status r.status;
    next_owner = st.next_owner + 1;
  }

  -- `compose_mapping`: the state and whether it went well.
  unfoldable pub compose_mapping : EngineState Digest → SourceMapping → EngineState Digest × Bool
  compose_mapping st next =
      let (mapping, composed) = compose st.mapping next in
      elim composed [
        | ok done ↦ (record st { mapping = mapping }, true)
        | err errors ↦ (
          record st {
            mapping = mapping;
            diagnostics = st.diagnostics ++ errors;
            status = internal_failure;
          },
          false,
        )
      ]

  abbrev pub take_over : EngineState Digest → WorklistResult Digest → EngineState Digest
  take_over st r = record st { working_graph = r.graph; working_roots = r.roots }

  abbrev pub roll_back : EngineState Digest → Checkpoint → EngineState Digest
  roll_back st saved = record st {
    context = record st.context { trace = rollback st.context.trace saved };
  }

  abbrev pub stopping : EngineState Digest → EngineState Digest
  stopping st = record st { stop = true }

  abbrev pub changing : EngineState Digest → EngineState Digest
  changing st = record st { changed_sequence = true }

  abbrev pub same_roots : EngineState Digest → WorklistResult Digest → Bool
  same_roots st r = length r.roots == length st.working_roots

  -- A condition, and the composition where it holds.
  abbrev pub compose_if : Bool → EngineState Digest → SourceMapping → EngineState Digest × Bool
  compose_if true st next = compose_mapping st next
  compose_if false st next = (st, false)

  -- The state behind a phase that did not complete.
  unfoldable pub interrupted :
      Checkpoint → WorklistResult Digest → EngineState Digest × Bool → EngineState Digest
  interrupted saved r (st, true) = stopping (changing (take_over st r))
  interrupted saved r (st, false) = stopping (roll_back st saved)

  -- The state behind a phase that changed something, and whether the phase is run again.
  unfoldable pub advanced :
      FixedPointPolicy
      → Checkpoint
      → WorklistResult Digest
      → EngineState Digest × Bool
      → EngineState Digest × Bool
  advanced policy saved r (st, false) = (stopping (roll_back st saved), false)
  advanced once saved r (st, true) = (changing (take_over st r), false)
  advanced until_stable saved r (st, true) = (changing (take_over st r), true)

  -- What `canonicalize` does with the run of a phase.
  unfoldable pub after_phase :
      FixedPointPolicy
      → Checkpoint
      → EngineState Digest
      → WorklistResult Digest
      → EngineState Digest × Bool
  after_phase policy saved st r =
      if not (is_complete r.status)
      then (
        interrupted saved r (compose_if (r.changed && same_roots st r) (note_run st r) r.mapping),
        false,
      )
      else if not r.changed
      then (roll_back (note_run st r) saved, false)
      else advanced policy saved r (compose_if (same_roots st r) (note_run st r) r.mapping)
