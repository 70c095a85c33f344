-- ===== src/Canonicalizer/Worklist/Attempt.antt =====
-- lib/canonicalizer/worklist.cpp: the rules of a plan on one subject, until none of them applies.
use sivra.Prelude.{
  ℕ, zero, suc, ◌+◌, Bool, true, false, not, if◌then◌else◌, List, [], ◌∷◌, Option, none, some,
  push_back, Text, ◌==◌,
}
use sivra.Core.Result.{error}
use sivra.Ir.Ids.{NodeId}
use sivra.Ir.Graph.{ExpressionGraph, size}
use sivra.Canonicalizer.Configuration.{is_rule_enabled, set_contains}
use sivra.Canonicalizer.Rewrite.{
  RewriteContext, RewriteSubject, RewriteResult, no_match, replace_with, rebuild_expression,
  invalid_rewrite, RebuildExpression,
}
use sivra.Canonicalizer.Rule.{RewriteRule, find_rule}
use sivra.Canonicalizer.Termination.{consume_worklist_step, consume_rewrite, observe_output_nodes}
use sivra.Canonicalizer.Worklist.{
  Outcome, returns, throws, out_of_fuel, ApplyRule, WorklistEngine, WorklistState, subject_eq,
  is_replacement, fail_with, exhaust, charge, source_id,
}

-- The variables of a round for one subject. `states` is a set, of which the order is not seen.
pub record Attempt : Type 0 where
  pub subject : RewriteSubject
  pub states : List RewriteSubject
  pub applied_rules : List (RewriteRule ApplyRule)
  pub final_node : Option NodeId

-- How a rule's turn in the loop over the rules ends: `continue`, `break`, or `break` to restart.
pub data Turn : Type 0 where
  next_rule : Turn
  leave : Turn
  restart : Turn

abbrev pub next_subject : RebuildExpression → RewriteSubject
next_subject e = record {
  operation = e.operation;
  result_type = e.result_type;
  operands = e.operands;
  attributes = e.attributes;
}

abbrev pub start_attempt : RewriteSubject → Attempt
start_attempt subject = record {
  subject = subject;
  states = subject ∷ [];
  applied_rules = [];
  final_node = none;
}

module _ {Digest : Type 0} (engine : WorklistEngine Digest) (source : ExpressionGraph) (i : ℕ) where
  abbrev pub State : Type 0
  State = WorklistState Digest

  abbrev pub Turned : Type 0
  Turned = State × Attempt × Turn

  abbrev pub counted_match : State → State
  counted_match s = record s {
    statistics = record s.statistics { rule_matches = s.statistics.rule_matches + 1 };
  }

  abbrev pub context_of : State → RewriteContext
  context_of s = record {
    graph = s.output;
    configuration = engine.configuration;
    evaluators = engine.evaluators;
    nodes_created = s.statistics.nodes_created;
  }

  -- The context works on the graph and the count of the run.
  abbrev pub after_call : State → RewriteContext → State
  after_call s c = record s {
    output = c.graph;
    statistics = record s.statistics { nodes_created = c.nodes_created };
  }

  abbrev pub replaced : RewriteRule ApplyRule → NodeId → Attempt → State × Bool → Turned
  replaced rule o a (s, false) = (s, a, leave)
  replaced rule o a (s, true) = (
    record s { statistics = record s.statistics { nodes_reused = s.statistics.nodes_reused + 1 } },
    record a { applied_rules = push_back a.applied_rules rule; final_node = some o },
    leave,
  )

  abbrev pub rebuilt : RewriteRule ApplyRule → RewriteSubject → Attempt → State × Bool → Turned
  rebuilt rule next a (s, false) = (s, a, leave)
  rebuilt rule next a (s, true) =
      (s, record a { subject = next; applied_rules = push_back a.applied_rules rule }, restart)

  unfoldable pub use_replacement : RewriteRule ApplyRule → NodeId → Attempt → State → Turned
  use_replacement rule o a s =
      if is_replacement s.output o a.subject
      then replaced rule o a (charge s (consume_rewrite s.termination (source_id source i)))
      else (
        fail_with s (record { code = "canonicalizer.invalid_replacement"; severity = error }),
        a,
        leave,
      )

  unfoldable pub use_rebuilt : RewriteRule ApplyRule → RewriteSubject → Attempt → State → Turned
  use_rebuilt rule next a s =
      if next == a.subject
      then (
        fail_with s (record { code = "canonicalizer.non_progressing_rewrite"; severity = error }),
        a,
        leave,
      )
      else if set_contains a.states next
      then (exhaust s (record { code = "canonicalizer.oscillation"; severity = error }), a, leave)
      else rebuilt rule next (record a { states = next ∷ a.states })
          (charge s (consume_rewrite s.termination (source_id source i)))

  -- The result of a rule, behind the check of the size of the graph.
  unfoldable pub use_result :
      RewriteRule ApplyRule → Attempt → RewriteResult → State × Bool → Turned
  use_result rule a r (s, false) = (s, a, leave)
  use_result rule a no_match (s, true) = (s, a, next_rule)
  use_result rule a (invalid_rewrite d) (s, true) = (fail_with (counted_match s) d, a, leave)
  use_result rule a (replace_with o) (s, true) = use_replacement rule o a (counted_match s)
  use_result rule a (rebuild_expression e) (s, true) =
      use_rebuilt rule (next_subject e) a (counted_match s)

  unfoldable pub observe_output : State → State × Bool
  observe_output s = charge s (observe_output_nodes s.termination (size s.output) (size source))

  abbrev pub counted_attempt : State → State
  counted_attempt s = record s {
    statistics = record s.statistics { rule_attempts = s.statistics.rule_attempts + 1 };
  }

  -- `rule->apply(context, subject)`; a null function is an exception.
  abbrev pub call_rule :
      Option ApplyRule → RewriteContext → RewriteSubject → Option (RewriteContext × RewriteResult)
  call_rule none c subject = none
  call_rule (some f) c subject = f c subject

  unfoldable pub apply_rule : RewriteRule ApplyRule → Attempt → State × Bool → Option Turned
  apply_rule rule a (s, false) = some (s, a, leave)
  apply_rule rule a (s, true) =
      elim (call_rule rule.apply (context_of (counted_attempt s)) a.subject) [
        | none ↦ none
        | some (c, r) ↦
            some (use_result rule a r (observe_output (after_call (counted_attempt s) c)))
      ]

  -- One turn of the loop over the rules; `none` is an exception, here and below.
  unfoldable pub try_rule : Text → Attempt → State → Option Turned
  try_rule id a s =
      if not (is_rule_enabled engine.configuration id)
      then some (s, a, next_rule)
      else elim (find_rule engine.rules id) [
        | none ↦ some (
          fail_with s (record { code = "canonicalizer.scheduler.missing_rule"; severity = error }),
          a,
          leave,
        )
        | some rule ↦ apply_rule rule a (charge s (consume_worklist_step s.termination))
      ]

  unfoldable pub try_rules : List Text → Attempt → State → Option Turned
  try_rules [] a s = some (s, a, leave)
  try_rules (id ∷ ids) a s = elim (try_rule id a s) [
    | none ↦ none
    | some (s', a', next_rule) ↦ try_rules ids a' s'
    | some (s', a', leave) ↦ some (s', a', leave)
    | some (s', a', restart) ↦ some (s', a', restart)
  ]

  -- The loop around: it goes on behind a restart. Rewriting is enabled behind a restart.
  unfoldable pub attempt : ℕ → List Text → Attempt → State → Outcome (State × Attempt)
  attempt zero ids a s = out_of_fuel
  attempt (suc fuel) ids a s = elim (try_rules ids a s) [
    | none ↦ throws
    | some (s', a', restart) ↦ attempt fuel ids a' s'
    | some (s', a', _) ↦ returns (s', a')
  ]
