-- ===== src/Canonicalizer/Worklist.antt =====
-- lib/canonicalizer/worklist.cpp: the state of a run, and the small functions that its loops share.
pub mod Reach
pub mod Import
pub mod Attempt
pub mod Rounds
pub mod Run
pub mod Frame
pub mod Copies
pub mod Imports
pub mod Turns
pub mod Attempts
pub mod Subjects
pub mod Finals
pub mod Renewals
pub mod Processing
pub mod Queues
pub mod Loop
pub mod Search
pub mod Results
pub mod Endings
pub mod Soundness
pub mod Readers
use sivra.Prelude.{
  ℕ, ◌+◌, ◌≡◌, ◌↔◌, Bool, true, false, ◌&&◌, ◌||◌, not, if◌then◌else◌, ltb, List, [], ◌∷◌, ◌++◌,
  Option, none, some, length, get_elem?, set, push_back, traverse, Text, ◌==◌, Eq, nat_eq, list_eq,
  list_beq, list_beq_iff, arith,
}
use sivra.Core.Result.{
  Result, ok, err, Diagnostic, DiagnosticBundle, AnalysisStatus, internal_failure,
  resource_exhausted,
}
use sivra.Ir.ValueType.{ValueType, value_type_eq, value_type_beq, value_type_beq_iff}
use sivra.Ir.Ids.{
  OperationId, NodeId, node_id_eq, operation_id_eq, operation_id_beq, operation_id_beq_iff,
}
use sivra.Ir.Attribute.{attribute_eq}
use sivra.Ir.Graph.{ExpressionGraph, OperationApplication, at, size, get_if_operation}
use sivra.Canonicalizer.Configuration.{Configuration}
use sivra.Canonicalizer.Evaluator.{EvaluatorCatalogue}
use sivra.Canonicalizer.Rewrite.{RewriteContext, RewriteSubject, RewriteResult}
use sivra.Canonicalizer.Rule.{RewriteRule}
use sivra.Canonicalizer.Termination.{TerminationTracker, Consumed, observe_output_nodes}
use sivra.Canonicalizer.Trace.{TraceCollector}

-- A computation that may throw, and whose loops are on fuel.
pub data Outcome {ℓ} (T : Type ℓ) : Type ℓ where
  returns : T → Outcome T
  throws : Outcome T
  out_of_fuel : Outcome T

infixl 5 ◌>>=◌
abbrev pub ◌>>=◌ {ℓ κ} : {T : Type ℓ} {U : Type κ} → Outcome T → (T → Outcome U) → Outcome U
returns value >>= rest = rest value
throws >>= rest = throws
out_of_fuel >>= rest = out_of_fuel

abbrev pub or_throw {ℓ} : {T : Type ℓ} → Option T → Outcome T
or_throw none = throws
or_throw (some value) = returns value

-- `apply_rule_fn`: the context after the call and the result; `none` is an exception.
abbrev pub ApplyRule : Type 0
ApplyRule = RewriteContext → RewriteSubject → Option (RewriteContext × RewriteResult)

-- What the engine of a worklist reads; the digest is that of structural.cpp, on the library's hash.
pub record WorklistEngine (Digest : Type 0) : Type 0 where
  pub configuration : Configuration
  pub rules : List (RewriteRule ApplyRule)
  pub evaluators : EvaluatorCatalogue
  pub digest : ExpressionGraph → NodeId → Digest

-- The part of `canonicalization_statistics` that the worklist counts itself.
pub record WorklistStatistics : Type 0 where
  pub nodes_created : ℕ
  pub nodes_reused : ℕ
  pub rule_attempts : ℕ
  pub rule_matches : ℕ

-- The variables of `run` that its loops change, with the tracker and the trace that it is given.
pub record WorklistState (Digest : Type 0) : Type 0 where
  pub output : ExpressionGraph
  pub copied : List (Option NodeId)
  pub termination : TerminationTracker
  pub statistics : WorklistStatistics
  pub trace : TraceCollector Digest
  pub diagnostics : DiagnosticBundle
  pub status : AnalysisStatus
  pub changed : Bool
  pub rewriting_enabled : Bool
  pub resource_diagnostic_emitted : Bool

-- `subject_state` has the fields of the subject, and its comparison tells them apart.
abbrev pub subject_beq : RewriteSubject → RewriteSubject → Bool
subject_beq a b =
    operation_id_beq a.operation b.operation
    && (value_type_beq a.result_type b.result_type
        && (list_beq a.attributes b.attributes && list_beq a.operands b.operands))

pub subject_beq_iff : (a b : RewriteSubject) → (subject_beq a b ≡ true) ↔ (a ≡ b)
subject_beq_iff a b = ground (
  arith,
  operation_id_beq_iff a.operation b.operation,
  value_type_beq_iff a.result_type b.result_type,
  list_beq_iff a.attributes b.attributes,
  list_beq_iff a.operands b.operands,
)

instance abbrev pub subject_eq : Eq RewriteSubject
subject_eq = record { beq = subject_beq; beq_iff = subject_beq_iff }

-- A flag of a `std::vector<bool>`, read inside its range.
abbrev flag_of : Option Bool → Bool
flag_of none = false
flag_of (some b) = b

abbrev pub flag : List Bool → ℕ → Bool
flag flags i = flag_of (get_elem? flags i)

abbrev entry_of : Option (Option NodeId) → Option NodeId
entry_of none = none
entry_of (some o) = o

-- `copied[i]`, read inside its range.
abbrev pub entry : List (Option NodeId) → ℕ → Option NodeId
entry copied i = entry_of (get_elem? copied i)

abbrev pub source_id : ExpressionGraph → ℕ → NodeId
source_id source i = record { index = i; owner = source.owner }

unfoldable pub resolved : ExpressionGraph → List (Option NodeId) → NodeId → Option NodeId
resolved source copied id =
    if not (id.owner == source.owner) || not (ltb id.index (length copied))
    then none
    else entry copied id.index

-- The loop that resolves the operands; `none` where it ends early.
unfoldable pub resolved_operands :
    ExpressionGraph → List (Option NodeId) → List NodeId → Option (List NodeId)
resolved_operands source copied = traverse (resolved source copied)

-- The application of a node that is there and is one.
abbrev application_at : ExpressionGraph → NodeId → Option OperationApplication
application_at g id = elim (at g id) [ none ↦ none | some n ↦ get_if_operation n ]

abbrev has_type : ExpressionGraph → NodeId → ValueType → Bool
has_type g id t = elim (at g id) [ none ↦ false | some n ↦ n.result_type == t ]

-- In `has_type` and in `application_at`, a node that the graph does not contain answers no.
unfoldable pub is_replacement : ExpressionGraph → NodeId → RewriteSubject → Bool
is_replacement g id subject = has_type g id subject.result_type

abbrev application_matches : Option OperationApplication → RewriteSubject → Bool
application_matches none subject = false
application_matches (some a) subject =
    a.operation == subject.operation
    && (a.attributes == subject.attributes && a.operands == subject.operands)

unfoldable pub node_matches_subject : ExpressionGraph → NodeId → RewriteSubject → Bool
node_matches_subject g candidate subject =
    has_type g candidate subject.result_type
    && application_matches (application_at g candidate) subject

module _ {Digest : Type 0} where
  abbrev pub add_diagnostic :
      WorklistState Digest → Diagnostic → AnalysisStatus → WorklistState Digest
  add_diagnostic s d new_status = record s {
    diagnostics = push_back s.diagnostics d;
    status = new_status;
  }

  -- `add_diagnostic` and `rewriting_enabled = false;` behind it.
  abbrev pub fail_with : WorklistState Digest → Diagnostic → WorklistState Digest
  fail_with s d = record s {
    diagnostics = push_back s.diagnostics d;
    status = internal_failure;
    rewriting_enabled = false;
  }

  unfoldable pub exhaust : WorklistState Digest → Diagnostic → WorklistState Digest
  exhaust s d = record s {
    diagnostics =
        if s.resource_diagnostic_emitted then s.diagnostics else push_back s.diagnostics d;
    resource_diagnostic_emitted = true;
    status = resource_exhausted;
    rewriting_enabled = false;
  }

  -- A call of the tracker, and whether it went through; a refusal exhausts the run.
  unfoldable pub charge : WorklistState Digest → Consumed → WorklistState Digest × Bool
  charge s (t, none) = (record s { termination = t }, true)
  charge s (t, some d) = (exhaust (record s { termination = t }) d, false)

  unfoldable pub observe_build :
      ExpressionGraph → WorklistState Digest → WorklistState Digest × Bool
  observe_build source s =
      charge s (observe_output_nodes s.termination (size s.output + 1) (size source))

  unfoldable pub built_node :
      WorklistState Digest
      → Result (ExpressionGraph × NodeId)
      → WorklistState Digest × Option NodeId
  built_node s (err errors) = (
    record s {
      diagnostics = s.diagnostics ++ errors;
      status = internal_failure;
      rewriting_enabled = false;
    },
    none,
  )
  built_node s (ok (g, id)) = (
    record s {
      output = g;
      statistics = record s.statistics { nodes_created = s.statistics.nodes_created + 1 };
    },
    some id,
  )
