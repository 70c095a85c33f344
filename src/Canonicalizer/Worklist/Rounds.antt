-- ===== src/Canonicalizer/Worklist/Rounds.antt =====
-- lib/canonicalizer/worklist.cpp: the queue of nodes whose applications are rewritten.
use sivra.Prelude.{
  ℕ, zero, suc, ◌-◌, Bool, true, false, ◌&&◌, ◌||◌, not, if◌then◌else◌, List, [], ◌∷◌, map, Option,
  none, some, get_elem?, set, push_back, Text, ◌==◌, nat_eq,
}
use sivra.Core.Result.{AnalysisStatus, complete}
use sivra.Ir.Ids.{NodeId, node_id_eq}
use sivra.Ir.Graph.{ExpressionGraph, ExpressionNode, OperationApplication, get_if_operation}
use sivra.Ir.Builder.{apply}
use sivra.Canonicalizer.Rewrite.{RewriteSubject}
use sivra.Canonicalizer.Rule.{RewriteRule}
use sivra.Canonicalizer.Trace.{Rewrite, record_events}
use sivra.Canonicalizer.Worklist.{
  Outcome, returns, throws, out_of_fuel, ApplyRule, WorklistEngine, WorklistState, flag, entry,
  resolved_operands, node_matches_subject, observe_build, built_node,
}
use sivra.Canonicalizer.Worklist.Reach.{users}
use sivra.Canonicalizer.Worklist.Attempt.{Attempt, start_attempt, attempt}

pub record Queue : Type 0 where
  pub queue : List ℕ
  pub queued : List Bool

unfoldable pub enqueue : List Bool → Queue → ℕ → Queue
enqueue reachable q i =
    if not (flag reachable i) || flag q.queued i
    then q
    else record { queue = push_back q.queue i; queued = set q.queued i true }

unfoldable pub enqueue_all : List Bool → Queue → List ℕ → Queue
enqueue_all reachable q [] = q
enqueue_all reachable q (i ∷ is) = enqueue_all reachable (enqueue reachable q i) is

abbrev is_application : Option ExpressionNode → Bool
is_application none = false
is_application (some n) = elim (get_if_operation n) [ none ↦ false | some a ↦ true ]

-- The applications among the nodes, in order.
unfoldable pub applications : ExpressionGraph → List ℕ → List ℕ
applications source [] = []
applications source (i ∷ is) =
    let rest = applications source is in
    if is_application (get_elem? source.nodes i) then i ∷ rest else rest

abbrev pub subject_of : ExpressionNode → OperationApplication → List NodeId → RewriteSubject
subject_of n a operands = record {
  operation = a.operation;
  result_type = n.result_type;
  operands = operands;
  attributes = a.attributes;
}

-- How a round ends: `continue`, `break`, or with a new node for its index.
pub data Round : Type 0 where
  skipped : Round
  stopped : Round
  renewed : Round

abbrev pub is_complete : AnalysisStatus → Bool
is_complete complete = true
is_complete _ = false

module _ {Digest : Type 0} (engine : WorklistEngine Digest) (source : ExpressionGraph) where
  abbrev State : Type 0
  State = WorklistState Digest

  -- The fuel of the loop for one subject: each restart has consumed a rewrite.
  abbrev pub attempt_fuel : State → ℕ
  attempt_fuel s =
      suc (s.termination.limits.maximum_rewrites - s.termination.statistics.rewrites_applied)

  unfoldable pub rebuild_subject : RewriteSubject → State × Bool → State × Option NodeId
  rebuild_subject subject (s, false) = (s, none)
  rebuild_subject subject (s, true) =
      built_node s
        (apply s.output subject.operation subject.operands subject.attributes subject.result_type)

  abbrev pub keep_or_rebuild : NodeId → RewriteSubject → State → State × Option NodeId
  keep_or_rebuild old subject s =
      if node_matches_subject s.output old subject
      then (s, some old)
      else rebuild_subject subject (observe_build source s)

  -- `final_node`, which the rules have given or which is built for the last subject.
  unfoldable pub final_of : NodeId → Attempt → State → State × Option NodeId
  final_of old a s = elim a.final_node [
    | some n ↦ (s, some n)
    | none ↦ keep_or_rebuild old a.subject s
  ]

  abbrev pub rewrite_of : State → NodeId → NodeId → RewriteRule ApplyRule → Rewrite Digest
  rewrite_of s old new rule = record {
    rule = rule.id;
    phase = rule.phase;
    old_root = some (engine.digest s.output old);
    new_root = some (engine.digest s.output new);
  }

  abbrev pub commit : ℕ → NodeId → NodeId → List (RewriteRule ApplyRule) → State → State
  commit i old new rules s = record s {
    copied = set s.copied i (some new);
    changed = true;
    trace = record_events s.trace (map (rewrite_of s old new) rules);
  }

  unfoldable pub finish :
      ℕ → NodeId → List (RewriteRule ApplyRule) → State × Option NodeId → State × Round
  finish i old rules (s, none) = (s, stopped)
  finish i old rules (s, some new) =
      if new == old then (s, skipped) else (commit i old new rules s, renewed)

  unfoldable pub settle : ℕ → NodeId → State × Attempt → State × Round
  settle i old (s, a) =
      if not s.rewriting_enabled && not (is_complete s.status)
      then (s, stopped)
      else finish i old a.applied_rules (final_of old a s)

  unfoldable pub simplify :
      List Text → ℕ → NodeId → RewriteSubject → State → Outcome (State × Round)
  simplify rules i old subject s =
      elim (attempt engine source i (attempt_fuel s) rules (start_attempt subject) s) [
        | throws ↦ throws
        | out_of_fuel ↦ out_of_fuel
        | returns ended ↦ returns (settle i old ended)
      ]

  -- The subject of a round with the node that is there for it; `none` is `continue`.
  unfoldable pub subject_at : ℕ → ExpressionNode → State → Option (NodeId × RewriteSubject)
  subject_at i n s = elim (get_if_operation n) [
    | none ↦ none
    | some a ↦ elim (entry s.copied i) [
      | none ↦ none
      | some old ↦ elim (resolved_operands source s.copied a.operands) [
        | none ↦ none
        | some operands ↦ some (old, subject_of n a operands)
      ]
    ]
  ]

  abbrev pub round_on :
      List Text → ℕ → State → Option (NodeId × RewriteSubject) → Outcome (State × Round)
  round_on rules i s none = returns (s, skipped)
  round_on rules i s (some (old, subject)) = simplify rules i old subject s

  unfoldable pub process : List Text → ℕ → State → Outcome (State × Round)
  process rules i s = elim (get_elem? source.nodes i) [
    | none ↦ throws
    | some n ↦ round_on rules i s (subject_at i n s)
  ]

  abbrev popped : Queue → ℕ → List ℕ → Queue
  popped q i rest = record { queue = rest; queued = set q.queued i false }

  -- The queue behind a round: the users of a node that is new are queued again.
  unfoldable pub queue_after : List Bool → ℕ → Queue → Round → Queue
  queue_after reachable i q renewed = enqueue_all reachable q (users source reachable i)
  queue_after reachable i q _ = q

  unfoldable pub rewrite_queue :
      ℕ → List Text → List Bool → List ℕ → List Bool → State → Outcome State
  rewrite_queue fuel rules reachable [] queued s = returns s
  rewrite_queue zero rules reachable (i ∷ rest) queued s = out_of_fuel
  rewrite_queue (suc fuel) rules reachable (i ∷ rest) queued s = elim s.rewriting_enabled [
    | false ↦ returns s
    | true ↦ elim (process rules i s) [
      | throws ↦ throws
      | out_of_fuel ↦ out_of_fuel
      | returns (s', stopped) ↦ returns s'
      | returns (s', r) ↦
          let q =
            queue_after reachable i (record { queue = rest; queued = set queued i false }) r in
          rewrite_queue fuel rules reachable q.queue q.queued s'
    ]
  ]
