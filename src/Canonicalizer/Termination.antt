-- ===== src/Canonicalizer/Termination.antt =====
-- lib/canonicalizer/termination.cpp: the counters that bound a run of the engine.
pub mod Bounds
use sivra.Prelude.{
  ℕ, zero, ◌+◌, ◌-◌, ◌≡◌, Bool, true, false, ◌&&◌, ◌||◌, if◌then◌else◌, ltb, leb, List, [], ◌∷◌,
  Option, none, some, has_value, max, ◌==◌, nat_eq,
}
use sivra.Prelude.Map.{map_find, emplace}
use sivra.Core.Result.{Diagnostic, error}
use sivra.Ir.Ids.{NodeId, node_id_eq}

-- `canonicalization_limits`, in canonicalizer/configuration.hpp.
pub record CanonicalizationLimits : Type 0 where
  pub maximum_imported_nodes : ℕ
  pub maximum_output_nodes : ℕ
  pub maximum_node_growth : ℕ
  pub maximum_worklist_steps : ℕ
  pub maximum_rewrites : ℕ
  pub maximum_rewrites_per_node : ℕ
  pub maximum_phase_iterations : ℕ

-- The part of `canonicalization_statistics` that the tracker itself changes.
pub record CanonicalizationStatistics : Type 0 where
  pub imported_nodes : ℕ
  pub worklist_steps : ℕ
  pub rewrites_applied : ℕ
  pub phase_iterations : ℕ
  pub peak_output_nodes : ℕ
  pub exhausted_budget : Bool

pub record TerminationTracker : Type 0 where
  pub limits : CanonicalizationLimits
  pub statistics : CanonicalizationStatistics
  pub node_rewrites : List (NodeId × ℕ)

unfoldable pub termination_tracker : CanonicalizationLimits → TerminationTracker
termination_tracker limits = record {
  limits = limits;
  statistics = record {
    imported_nodes = 0;
    worklist_steps = 0;
    rewrites_applied = 0;
    phase_iterations = 0;
    peak_output_nodes = 0;
    exhausted_budget = false;
  };
  node_rewrites = [];
}

abbrev pub Consumed : Type 0
Consumed = TerminationTracker × Option Diagnostic

abbrev pub exhausted : TerminationTracker → Diagnostic → Consumed
exhausted t d = (record t { statistics = record t.statistics { exhausted_budget = true } }, some d)

unfoldable pub consume_import : TerminationTracker → Consumed
consume_import t =
    let s = t.statistics in
    if leb t.limits.maximum_imported_nodes s.imported_nodes
    then exhausted t (record { code = "canonicalizer.import_budget"; severity = error })
    else (record t { statistics = record s { imported_nodes = s.imported_nodes + 1 } }, none)

unfoldable pub consume_worklist_step : TerminationTracker → Consumed
consume_worklist_step t =
    let s = t.statistics in
    if leb t.limits.maximum_worklist_steps s.worklist_steps
    then exhausted t (record { code = "canonicalizer.worklist_budget"; severity = error })
    else (record t { statistics = record s { worklist_steps = s.worklist_steps + 1 } }, none)

-- `++m_node_rewrites[node]` for an entry that is there.
unfoldable pub increment : NodeId → List (NodeId × ℕ) → List (NodeId × ℕ)
increment n [] = []
increment n ((m, count) ∷ entries) =
    if m == n then (m, count + 1) ∷ entries else (m, count) ∷ increment n entries

abbrev pub count_of : Option ℕ → ℕ
count_of none = 0
count_of (some count) = count

-- `m_node_rewrites[node]` makes an entry of zero where there is none.
unfoldable pub consume_rewrite : TerminationTracker → NodeId → Consumed
consume_rewrite t node =
    let s = t.statistics in
    let entries = emplace node 0 t.node_rewrites in
    let touched = record t { node_rewrites = entries } in
    if leb t.limits.maximum_rewrites s.rewrites_applied
    then exhausted t (record { code = "canonicalizer.rewrite_budget"; severity = error })
    else if leb t.limits.maximum_rewrites_per_node (count_of (map_find node entries))
    then exhausted touched (record { code = "canonicalizer.node_rewrite_budget"; severity = error })
    else (
      record t {
        node_rewrites = increment node entries;
        statistics = record s { rewrites_applied = s.rewrites_applied + 1 };
      },
      none,
    )

unfoldable pub begin_phase_iteration : TerminationTracker → Consumed
begin_phase_iteration t =
    let s = t.statistics in
    if leb t.limits.maximum_phase_iterations s.phase_iterations
    then exhausted t (record { code = "canonicalizer.phase_iteration_budget"; severity = error })
    else (record t { statistics = record s { phase_iterations = s.phase_iterations + 1 } }, none)

unfoldable pub observe_output_nodes : TerminationTracker → ℕ → ℕ → Consumed
observe_output_nodes t nodes baseline =
    let s = t.statistics in
    let seen = record t {
      statistics = record s { peak_output_nodes = max s.peak_output_nodes nodes };
    } in
    if ltb t.limits.maximum_output_nodes nodes
    then exhausted seen (record { code = "canonicalizer.output_budget"; severity = error })
    else if ltb baseline nodes && ltb t.limits.maximum_node_growth (nodes - baseline)
    then exhausted seen (record { code = "canonicalizer.growth_budget"; severity = error })
    else (seen, none)

-- The calls of a run.
pub data TrackerCall : Type 0 where
  import_call : TrackerCall
  step_call : TrackerCall
  rewrite_call : NodeId → TrackerCall
  phase_call : TrackerCall
  output_call : ℕ → ℕ → TrackerCall

abbrev pub call : TerminationTracker → TrackerCall → Consumed
call t import_call = consume_import t
call t step_call = consume_worklist_step t
call t (rewrite_call node) = consume_rewrite t node
call t phase_call = begin_phase_iteration t
call t (output_call nodes baseline) = observe_output_nodes t nodes baseline

-- The tracker behind the calls, and whether any of them was refused.
unfoldable pub run : TerminationTracker → List TrackerCall → TerminationTracker × Bool
run t [] = (t, false)
run t (c ∷ cs) =
    let (t', refusal) = call t c in
    let (t'', refused) = run t' cs in (t'', has_value refusal || refused)
