-- ===== src/Canonicalizer/Worklist/Frame.antt =====
-- What every step of lib/canonicalizer/worklist.cpp leaves alone: the graph only grows, the limits
-- stay, the rewrites are only counted up.
use sivra.Prelude.{ℕ, ◌≤◌, ◌<◌, ◌≡◌, refl, ◌∙◌, true, false, arith, none, some}
use sivra.Core.Result.{Result, ok, err}
use sivra.Ir.Ids.{NodeId, node_id_eq}
use sivra.Ir.Graph.{ExpressionGraph}
use sivra.Ir.Builder.Calls.{BuildCall, perform}
use sivra.Ir.Builder.Extension.{Extends, Extends-refl, Extends-trans}
use sivra.Ir.Builder.Values.{perform-Added}
use sivra.Canonicalizer.Termination.{
  TerminationTracker, Consumed, consume_import, consume_worklist_step, consume_rewrite,
  observe_output_nodes,
}
use sivra.Canonicalizer.Worklist.{WorklistState, exhaust, charge, built_node}

-- The tracker behind a call.
pub record Tracked (t t' : TerminationTracker) : Type 0 where
  pub limits : t'.limits ≡ t.limits
  pub phases : t'.statistics.phase_iterations ≡ t.statistics.phase_iterations
  pub rewrites : t.statistics.rewrites_applied ≤ t'.statistics.rewrites_applied

pub consume_import-Tracked : (t : TerminationTracker) → Tracked t (consume_import t).0
unfolding consume_import
consume_import-Tracked t = record {
  limits = ground arith;
  phases = ground arith;
  rewrites = ground arith;
}

pub consume_worklist_step-Tracked : (t : TerminationTracker) → Tracked t (consume_worklist_step t).0
unfolding consume_worklist_step
consume_worklist_step-Tracked t = record {
  limits = ground arith;
  phases = ground arith;
  rewrites = ground arith;
}

pub observe_output_nodes-Tracked :
    (t : TerminationTracker) (nodes baseline : ℕ)
    → Tracked t (observe_output_nodes t nodes baseline).0
unfolding observe_output_nodes
observe_output_nodes-Tracked t nodes baseline = record {
  limits = ground arith;
  phases = ground arith;
  rewrites = ground arith;
}

pub consume_rewrite-Tracked :
    (t : TerminationTracker) (n : NodeId) → Tracked t (consume_rewrite t n).0
unfolding consume_rewrite
consume_rewrite-Tracked t n = record {
  limits = ground arith;
  phases = ground arith;
  rewrites = ground arith;
}

-- A rewrite that is granted was within the limit, and is counted.
pub consume_rewrite-granted :
    (t : TerminationTracker) (n : NodeId)
    → (consume_rewrite t n).1 ≡ none
    → (t.statistics.rewrites_applied < t.limits.maximum_rewrites)
      × (t.statistics.rewrites_applied < (consume_rewrite t n).0.statistics.rewrites_applied)
unfolding consume_rewrite
consume_rewrite-granted t n h = (ground arith, ground arith)

pub observe_output_nodes-granted :
    (t : TerminationTracker) (nodes baseline : ℕ)
    → (observe_output_nodes t nodes baseline).1 ≡ none
    → nodes ≤ t.limits.maximum_output_nodes
unfolding observe_output_nodes
observe_output_nodes-granted t nodes baseline h = ground arith

module _ {Digest : Type 0} where
  pub record Frame (s s' : WorklistState Digest) : Type 0 where
    pub extends : Extends s.output s'.output
    pub tracked : Tracked s.termination s'.termination

  pub Frame-refl : (s : WorklistState Digest) → Frame s s
  Frame-refl s = record {
    extends = Extends-refl s.output;
    tracked = record { limits = refl; phases = refl; rewrites = ground arith };
  }

  pub Frame-trans : {r s t : WorklistState Digest} → Frame r s → Frame s t → Frame r t
  Frame-trans {r} {s} {t} p q =
      let a = p.tracked in
      let b = q.tracked in
      let x = a.rewrites in
      let y = b.rewrites in
      record {
        extends = Extends-trans p.extends q.extends;
        tracked = record {
          limits = b.limits ∙ a.limits;
          phases = b.phases ∙ a.phases;
          rewrites = ground arith;
        };
      }

  -- What a call of the tracker does to the state.
  pub record Charged (s : WorklistState Digest) (k : Consumed) : Type 0 where
    pub frame : Frame s (charge s k).0
    pub same_output : (charge s k).0.output ≡ s.output
    pub same_copied : (charge s k).0.copied ≡ s.copied
    pub same_termination : (charge s k).0.termination ≡ k.0
    pub granted : (charge s k).1 ≡ true → k.1 ≡ none
    pub refused : (charge s k).1 ≡ false → (charge s k).0.rewriting_enabled ≡ false

  pub charge-Charged :
      (s : WorklistState Digest) (k : Consumed) → Tracked s.termination k.0 → Charged s k
  unfolding charge exhaust
  charge-Charged s (t, none) tracked = record {
    frame = record { extends = Extends-refl s.output; tracked = tracked };
    same_output = refl;
    same_copied = refl;
    same_termination = refl;
    granted = λ h. refl;
    refused = λ h. cc;
  }
  charge-Charged s (t, some d) tracked = record {
    frame = record { extends = Extends-refl s.output; tracked = tracked };
    same_output = refl;
    same_copied = refl;
    same_termination = refl;
    granted = λ h. cc;
    refused = λ h. refl;
  }

  -- What the result of a call of the builder does to the state.
  pub record Construction (s : WorklistState Digest) (r : Result (ExpressionGraph × NodeId))
      : Type 0 where
    pub frame : Frame s (built_node s r).0
    pub same_copied : (built_node s r).0.copied ≡ s.copied
    pub same_termination : (built_node s r).0.termination ≡ s.termination
    pub made : (id : NodeId) → (built_node s r).1 ≡ some id → r ≡ ok ((built_node s r).0.output, id)

  pub built_node-Construction :
      (s : WorklistState Digest) (c : BuildCall) (r : Result (ExpressionGraph × NodeId))
      → perform s.output c ≡ r
      → Construction s r
  unfolding built_node
  built_node-Construction s c (err errors) h = record {
    frame = record {
      extends = Extends-refl s.output;
      tracked = record { limits = refl; phases = refl; rewrites = ground arith };
    };
    same_copied = refl;
    same_termination = refl;
    made = λ id e. cc;
  }
  built_node-Construction s c (ok (g, new)) h =
      let (_, _, a) = perform-Added s.output c {g' = g} {id = new} h in
      record {
        frame = record {
          extends = a.extends;
          tracked = record { limits = refl; phases = refl; rewrites = ground arith };
        };
        same_copied = refl;
        same_termination = refl;
        made = λ id e. ground arith;
      }
