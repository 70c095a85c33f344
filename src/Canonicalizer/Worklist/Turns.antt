-- ===== src/Canonicalizer/Worklist/Turns.antt =====
-- One turn of the rules in lib/canonicalizer/worklist.cpp: what it changes, and the value it keeps.
use sivra.Prelude.{
  ℕ, ◌<◌, ◌≡◌, refl, Bool, true, false, ◌⊎◌, inl, inr, map, Option, none, some, Text, arith,
}
use sivra.Ir.Ids.{NodeId}
use sivra.Ir.Operation.{OperationDef}
use sivra.Ir.Catalogue as Catalogue
use sivra.Ir.Graph.{ExpressionGraph}
use sivra.Ir.Structural.Meaning.{Meaning}
use sivra.Ir.Builder.Extension.{Extends, IsMeant}
use sivra.Canonicalizer.Rewrite.{
  RewriteContext, RewriteSubject, RewriteResult, no_match, replace_with, rebuild_expression,
  invalid_rewrite, RebuildExpression,
}
use sivra.Canonicalizer.Rules.Meaning.{HasValue, ResultHasValue}
use sivra.Canonicalizer.Rule.{RewriteRule, find_rule}
use sivra.Canonicalizer.Worklist.{ApplyRule, WorklistEngine, WorklistState, subject_eq}
use sivra.Canonicalizer.Worklist.Attempt.{
  Attempt, Turn, leave, restart, next_subject, Turned, replaced, rebuilt,
}
use sivra.Canonicalizer.Worklist.Frame.{Frame}

-- What a rule does to the graph of its context: it adds to it.
abbrev pub RuleAdds : ApplyRule → Type 0
RuleAdds f =
    (c c' : RewriteContext) (subject : RewriteSubject) (r : RewriteResult)
    → f c subject ≡ some (c', r)
    → Extends c.graph c'.graph

-- A rule keeps the value of its subject, in the graph that it leaves behind.
abbrev pub RuleKeeps : {D : Type 0} → Meaning D → Catalogue.OperationCatalogue → ApplyRule → Type 0
RuleKeeps {D} m cat f =
    (c c' : RewriteContext) (subject : RewriteSubject) (r : RewriteResult) (values : NodeId → D)
    (v : D)
    → f c subject ≡ some (c', r)
    → c.graph.catalogue ≡ cat
    → IsMeant m c'.graph values
    → HasValue m values c subject.operation subject.operands subject.attributes subject.result_type
        v
    → ResultHasValue m values c' v r

-- All rules of an engine add only.
abbrev pub RulesAdd : {Digest : Type 0} → WorklistEngine Digest → Type 0
RulesAdd engine =
    (id : Text) (rule : RewriteRule ApplyRule) (f : ApplyRule)
    → find_rule engine.rules id ≡ some rule
    → rule.apply ≡ some f
    → RuleAdds f

abbrev pub RulesKeep :
    {D Digest : Type 0} → Meaning D → Catalogue.OperationCatalogue → WorklistEngine Digest → Type 0
RulesKeep m cat engine =
    (id : Text) (rule : RewriteRule ApplyRule) (f : ApplyRule)
    → find_rule engine.rules id ≡ some rule
    → rule.apply ≡ some f
    → RuleKeeps m cat f

-- A rewrite was within the limit, and is counted.
pub record Rewritten {Digest : Type 0} (s s' : WorklistState Digest) : Type 0 where
  pub within : s.termination.statistics.rewrites_applied < s.termination.limits.maximum_rewrites
  pub counted :
      s.termination.statistics.rewrites_applied < s'.termination.statistics.rewrites_applied

module _ {Digest : Type 0} {r s t : WorklistState Digest} where
  pub Rewritten_then : Rewritten r s → Frame s t → Rewritten r t
  Rewritten_then w f =
      let more = f.tracked.rewrites in
      let counted = w.counted in record { within = w.within; counted = ground arith }

  pub then_Rewritten : Frame r s → Rewritten s t → Rewritten r t
  then_Rewritten f w =
      let more = f.tracked.rewrites in
      let same = f.tracked.limits in
      let counted = w.counted in
      let within = w.within in record { within = ground arith; counted = ground arith }

module _ {D : Type 0} (m : Meaning D) (cat : Catalogue.OperationCatalogue) where
  abbrev pub SubjectMeant : (NodeId → D) → D → RewriteSubject → Type 0
  SubjectMeant values v subject =
      (d : OperationDef) × (Catalogue.operation cat subject.operation ≡ some d)
      × (m.of_operation subject.result_type d.stable_key subject.attributes
            (map values subject.operands)
          ≡ v)

  abbrev pub FinalMeant : (NodeId → D) → D → Option NodeId → Type 0
  FinalMeant values v none = Unit
  FinalMeant values v (some n) = values n ≡ v

  -- The subject and the final node have the value `v`.
  abbrev pub AttemptMeant : (NodeId → D) → D → Attempt → Type 0
  AttemptMeant values v a = SubjectMeant values v a.subject × FinalMeant values v a.final_node

  abbrev pub ResultMeant : (NodeId → D) → D → RewriteResult → Type 0
  ResultMeant values v no_match = Unit
  ResultMeant values v (replace_with o) = values o ≡ v
  ResultMeant values v (rebuild_expression e) = SubjectMeant values v (next_subject e)
  ResultMeant values v (invalid_rewrite d) = Unit

module _ {D : Type 0} (m : Meaning D) {Digest : Type 0} (engine : WorklistEngine Digest)
    (source : ExpressionGraph) (i : ℕ) where
  -- What holds of a turn, or of some turns, from `s` and `a` on.
  pub record Facts (s : WorklistState Digest) (a : Attempt) (k : Turned engine source i)
      : Type 0 where
    pub frame : Frame s k.0
    pub same_copied : k.0.copied ≡ s.copied
    pub restarted : k.2 ≡ restart → Rewritten s k.0
    pub final : (k.1.final_node ≡ a.final_node) ⊎ Rewritten s k.0
    pub meant :
        (values : NodeId → D) (v : D)
        → RulesKeep m source.catalogue engine
        → s.output.catalogue ≡ source.catalogue
        → IsMeant m k.0.output values
        → AttemptMeant m source.catalogue values v a
        → AttemptMeant m source.catalogue values v k.1

  -- A turn that leaves the attempt as it was.
  pub quiet :
      (s s' : WorklistState Digest) (a : Attempt) (t : Turn)
      → Frame s s'
      → s'.copied ≡ s.copied
      → (t ≡ restart → Rewritten s s')
      → Facts s a (s', a, t)
  quiet s s' a t frame same restarted = record {
    frame = frame;
    same_copied = same;
    restarted = restarted;
    final = inl refl;
    meant = λ values v keep cat model meant. meant;
  }

  -- The state behind the call of a rule, and its result.
  pub record Called (s : WorklistState Digest) (a : Attempt) (s' : WorklistState Digest)
      (r : RewriteResult) : Type 0 where
    pub frame : Frame s s'
    pub same_copied : s'.copied ≡ s.copied
    pub meant :
        (values : NodeId → D) (v : D)
        → RulesKeep m source.catalogue engine
        → s.output.catalogue ≡ source.catalogue
        → IsMeant m s'.output values
        → SubjectMeant m source.catalogue values v a.subject
        → ResultMeant m source.catalogue values v r

  pub replaced-Facts :
      (rule : RewriteRule ApplyRule) (o : NodeId) (s : WorklistState Digest) (a : Attempt)
      (b : WorklistState Digest × Bool)
      → Called s a b.0 (replace_with o)
      → (b.1 ≡ true → Rewritten s b.0)
      → Facts s a (replaced engine source i rule o a b)
  replaced-Facts rule o s a (s', false) c granted =
      quiet s s' a leave c.frame c.same_copied (λ h. cc)
  replaced-Facts rule o s a (s', true) c granted =
      let w = granted refl in
      record {
        frame = record { extends = c.frame.extends; tracked = c.frame.tracked };
        same_copied = c.same_copied;
        restarted = λ h. cc;
        final = inr (record { within = w.within; counted = w.counted });
        meant = λ values v keep cat model meant. (meant.0, c.meant values v keep cat model meant.0);
      }

  pub rebuilt-Facts :
      (rule : RewriteRule ApplyRule) (e : RebuildExpression) (s : WorklistState Digest)
      (a a' : Attempt) (b : WorklistState Digest × Bool)
      → Called s a b.0 (rebuild_expression e)
      → (b.1 ≡ true → Rewritten s b.0)
      → a'.subject ≡ a.subject
      → a'.final_node ≡ a.final_node
      → Facts s a (rebuilt engine source i rule (next_subject e) a' b)
  rebuilt-Facts rule e s a a' (s', false) c granted same final = record {
    frame = c.frame;
    same_copied = c.same_copied;
    restarted = λ h. cc;
    final = inl final;
    meant = λ values v keep cat model meant. (rw same meant.0, rw final meant.1);
  }
  rebuilt-Facts rule e s a a' (s', true) c granted same final = record {
    frame = c.frame;
    same_copied = c.same_copied;
    restarted = λ h. granted refl;
    final = inl final;
    meant = λ values v keep cat model meant.
        (c.meant values v keep cat model meant.0, rw final meant.1);
  }
