-- ===== src/Canonicalizer/Worklist/Run.antt =====
-- lib/canonicalizer/worklist.cpp: a whole run, from the roots of a graph to those of its copy.
use sivra.Prelude.{
  ℕ, ◌+◌, ◌*◌, Bool, true, false, ◌&&◌, if◌then◌else◌, ltb, List, [], ◌∷◌, ◌++◌, Option, none, some,
  length, replicate, Text, nat_eq,
}
use sivra.Prelude.Sort.{stable_sort}
use sivra.Core.Result.{
  Result, ok, err, DiagnosticBundle, AnalysisStatus, complete, invalid_input, internal_failure,
  error,
}
use sivra.Ir.Ids.{NodeId, OwnerToken}
use sivra.Ir.Graph.{ExpressionGraph, expression_graph, size}
use sivra.Ir.Validation.{validate_graph}
use sivra.Canonicalizer.Mapping.{SourceMapping, source_mapping, record_node}
use sivra.Canonicalizer.Scheduler.{PassPlan}
use sivra.Canonicalizer.Termination.{TerminationTracker}
use sivra.Canonicalizer.Trace.{TraceCollector}
use sivra.Canonicalizer.Worklist.{
  Outcome, returns, ◌>>=◌, or_throw, WorklistEngine, WorklistState, WorklistStatistics, entry,
  source_id, add_diagnostic,
}
use sivra.Canonicalizer.Worklist.Reach.{Reached, push_pending, reach, operand_count}
use sivra.Canonicalizer.Worklist.Import.{import_nodes}
use sivra.Canonicalizer.Worklist.Rounds.{
  Queue, enqueue_all, applications, is_complete, rewrite_queue,
}

-- `worklist_result`, with what the run leaves of the tracker, the counters and the trace.
pub record WorklistResult (Digest : Type 0) : Type 0 where
  pub graph : ExpressionGraph
  pub roots : List NodeId
  pub mapping : SourceMapping
  pub changed : Bool
  pub status : AnalysisStatus
  pub diagnostics : DiagnosticBundle
  pub termination : TerminationTracker
  pub statistics : WorklistStatistics
  pub trace : TraceCollector Digest

-- What the engine of a worklist holds by reference and changes.
pub record RunContext (Digest : Type 0) : Type 0 where
  pub termination : TerminationTracker
  pub statistics : WorklistStatistics
  pub trace : TraceCollector Digest

-- The loop over `mapping.record`; a failure ends it.
unfoldable pub record_copies :
    ExpressionGraph
    → List (Option NodeId)
    → List ℕ
    → SourceMapping
    → SourceMapping × Option DiagnosticBundle
record_copies source copied [] m = (m, none)
record_copies source copied (i ∷ is) m = elim (entry copied i) [
  | none ↦ record_copies source copied is m
  | some id ↦ elim (record_node m (source_id source i) id) [
    | err errors ↦ (m, some errors)
    | ok m' ↦ record_copies source copied is m'
  ]
]

unfoldable pub output_roots : List (Option NodeId) → List NodeId → List NodeId
output_roots copied [] = []
output_roots copied (root ∷ roots) =
    let rest = output_roots copied roots in
    elim (entry copied root.index) [ none ↦ rest | some id ↦ id ∷ rest ]

abbrev pub errors_of : Result (Unit {0}) → Option DiagnosticBundle
errors_of (ok done) = none
errors_of (err errors) = some errors

-- The fuel of the search: each node that is taken off the stack was put there once.
abbrev pub reach_fuel : ExpressionGraph → List NodeId → ℕ
reach_fuel source roots = length roots + operand_count source.nodes

module _ {Digest : Type 0} where
  -- `diagnostics` behind the others and `internal_failure`, if there are any.
  abbrev pub note_failure : WorklistState Digest → Option DiagnosticBundle → WorklistState Digest
  note_failure s none = s
  note_failure s (some errors) = record s {
    diagnostics = s.diagnostics ++ errors;
    status = internal_failure;
  }

  unfoldable pub result_of :
      WorklistState Digest → List NodeId → SourceMapping → WorklistResult Digest
  result_of s roots mapping = record {
    graph = s.output;
    roots = roots;
    mapping = mapping;
    changed = s.changed;
    status = s.status;
    diagnostics = s.diagnostics;
    termination = s.termination;
    statistics = s.statistics;
    trace = s.trace;
  }

  -- The part of `run` behind its loops.
  unfoldable pub conclude :
      ExpressionGraph → List NodeId → List ℕ → WorklistState Digest → WorklistResult Digest
  conclude source roots order s =
      let (mapping, failure) =
        record_copies source s.copied order (source_mapping source.owner (size source)) in
      let noted = note_failure s failure in
      result_of (note_failure noted (errors_of (validate_graph noted.output)))
        (output_roots s.copied roots) mapping

  abbrev pub begin :
      ExpressionGraph → ExpressionGraph → Bool → RunContext Digest → WorklistState Digest
  begin source output rewriting c = record {
    output = output;
    copied = replicate (size source) none;
    termination = c.termination;
    statistics = c.statistics;
    trace = c.trace;
    diagnostics = [];
    status = complete;
    changed = false;
    rewriting_enabled = rewriting;
    resource_diagnostic_emitted = false;
  }

  -- What a run with an invalid root returns.
  abbrev pub refused_root : ExpressionGraph → WorklistState Digest → WorklistResult Digest
  refused_root source s =
      result_of
        (add_diagnostic s (record { code = "canonicalizer.invalid_root"; severity = error })
          invalid_input)
        [] (source_mapping source.owner (size source))

  -- The fuel of the queue: between two renewals it holds each node once at most, and each renewal
  -- takes a rewrite or a node of the output.
  abbrev pub queue_fuel : ExpressionGraph → WorklistState Digest → ℕ
  queue_fuel source s =
      (s.termination.limits.maximum_rewrites + s.termination.limits.maximum_output_nodes + 1)
      * size source

module _ {Digest : Type 0} (engine : WorklistEngine Digest) (source : ExpressionGraph) where
  -- The queue and its loop.
  unfoldable pub rewrite_all :
      List Text → Reached → List ℕ → WorklistState Digest → Outcome (WorklistState Digest)
  rewrite_all rules r order s =
      let empty : Queue = record { queue = []; queued = replicate (size source) false } in
      let q = enqueue_all r.reachable empty (applications source order) in
      rewrite_queue engine source (queue_fuel source s) rules r.reachable q.queue q.queued s

  abbrev pub rewrite_planned :
      Option PassPlan → Reached → List ℕ → WorklistState Digest → Outcome (WorklistState Digest)
  rewrite_planned none r order s = returns s
  rewrite_planned (some plan) r order s =
      if s.rewriting_enabled && is_complete s.status
      then rewrite_all plan.rules r order s
      else returns s

  abbrev pub has_plan : Option PassPlan → Bool
  has_plan none = false
  has_plan (some plan) = true

  unfoldable pub copy_reached :
      Option PassPlan → Bool → Reached → WorklistState Digest → Outcome (WorklistState Digest)
  copy_reached plan count_imports r s =
      let order = stable_sort ltb r.reachable_order in
      or_throw (import_nodes source count_imports order s) >>= rewrite_planned plan r order

  abbrev pub unreached : Reached
  unreached = record { reachable = replicate (size source) false; reachable_order = [] }

  abbrev pub run_on :
      List NodeId
      → Option PassPlan
      → Bool
      → WorklistState Digest
      → Option Reached
      → Outcome (WorklistResult Digest)
  run_on roots plan count_imports s none = returns (refused_root source s)
  run_on roots plan count_imports s (some r) = copy_reached plan count_imports r s >>= λ s'.
      returns (conclude source roots (stable_sort ltb r.reachable_order) s')

  -- `run`, the token of its new graph given.
  unfoldable pub run :
      OwnerToken
      → List NodeId
      → Option PassPlan
      → Bool
      → RunContext Digest
      → Outcome (WorklistResult Digest)
  run owner roots plan count_imports c =
      or_throw (expression_graph owner source.catalogue source.external_value_owner) >>= λ output.
      reach (reach_fuel source roots) source (push_pending roots []) unreached
      >>= run_on roots plan count_imports (begin source output (has_plan plan) c)
