-- ===== src/Canonicalizer/Worklist/Subjects.antt =====
-- The rules on one subject in lib/canonicalizer/worklist.cpp: what they change, the value they keep,
-- and that they come to an end.
use sivra.Prelude.{
  ℕ, zero, suc, ◌-◌, ◌<◌, ◌≡◌, ◌≢◌, refl, sym, ap, subst, ◌∙◌, Bool, true, false, Bool-cases,
  Option-cases, inl, inr, List, [], ◌∷◌, some, Text, arith,
}
use sivra.Core.Result.{Diagnostic, error}
use sivra.Ir.Ids.{NodeId}
use sivra.Ir.Catalogue as Catalogue
use sivra.Ir.Graph.{ExpressionGraph, size}
use sivra.Ir.Structural.Meaning.{Meaning}
use sivra.Ir.Builder.Extension.{Extends, IsMeant-Extends}
use sivra.Canonicalizer.Configuration.{is_rule_enabled}
use sivra.Canonicalizer.Rewrite.{
  RewriteContext, RewriteResult, no_match, replace_with, rebuild_expression, invalid_rewrite,
}
use sivra.Canonicalizer.Rules.Meaning.{ResultHasValue}
use sivra.Canonicalizer.Rule.{RewriteRule, find_rule}
use sivra.Canonicalizer.Termination.{
  CanonicalizationLimits, TerminationTracker, consume_worklist_step, observe_output_nodes,
}
use sivra.Canonicalizer.Worklist.{
  returns, out_of_fuel, ApplyRule, WorklistEngine, WorklistState, fail_with, charge,
}
use sivra.Canonicalizer.Worklist.Attempt.{
  Attempt, Turn, next_rule, leave, restart, Turned, counted_attempt, context_of, after_call,
  use_result, observe_output, apply_rule, try_rule, try_rules, attempt,
}
use sivra.Canonicalizer.Worklist.Frame.{
  Frame, Frame-refl, Frame-trans, charge-Charged, consume_worklist_step-Tracked,
  observe_output_nodes-Tracked,
}
use sivra.Canonicalizer.Worklist.Turns.{
  RulesAdd, Rewritten_then, then_Rewritten, ResultMeant, Facts, quiet, Called,
}
use sivra.Canonicalizer.Worklist.Attempts.{use_result-Facts}

-- One rewrite more leaves one less.
remaining :
    (t t' : TerminationTracker) (fuel : ℕ)
    → t'.limits ≡ t.limits
    → t.statistics.rewrites_applied < t.limits.maximum_rewrites
    → t.statistics.rewrites_applied < t'.statistics.rewrites_applied
    → t.limits.maximum_rewrites - t.statistics.rewrites_applied < suc fuel
    → t'.limits.maximum_rewrites - t'.statistics.rewrites_applied < fuel
remaining t t' fuel same within counted enough =
    let limit : t'.limits.maximum_rewrites ≡ t.limits.maximum_rewrites =
      ap (λ (l : CanonicalizationLimits). l.maximum_rewrites) same in
    omega arith

module _ {D : Type 0} (m : Meaning D) {Digest : Type 0} (engine : WorklistEngine Digest)
    (source : ExpressionGraph) (i : ℕ) where
  -- A value in a context is one in the catalogue of its graph.
  result-ResultMeant :
      (values : NodeId → D) (v : D) (c : RewriteContext) (r : RewriteResult)
      → c.graph.catalogue ≡ source.catalogue
      → ResultHasValue m values c v r
      → ResultMeant m source.catalogue values v r
  result-ResultMeant values v c no_match same h = tt
  result-ResultMeant values v c (replace_with o) same h = h
  result-ResultMeant values v c (invalid_rewrite d) same h = tt
  result-ResultMeant values v c (rebuild_expression e) same (d, found, value) =
      (d, ap (λ k. Catalogue.operation k e.operation) (sym same) ∙ found, value)

  then_Facts :
      (s t : WorklistState Digest) (a b : Attempt) (u : Turn) (k : Turned engine source i)
      → Facts m engine source i s a (t, b, u)
      → Facts m engine source i t b k
      → Facts m engine source i s a k
  then_Facts s t a b u k p q = record {
    frame = Frame-trans p.frame q.frame;
    same_copied = q.same_copied ∙ p.same_copied;
    restarted = λ h. then_Rewritten p.frame (q.restarted h);
    final = elim q.final [
      | inr counted ↦ inr (then_Rewritten p.frame counted)
      | inl same ↦ elim p.final [
        | inl before ↦ inl (same ∙ before)
        | inr counted ↦ inr (Rewritten_then counted q.frame)
      ]
    ];
    meant = λ values v keep cat model meant.
        q.meant values v keep (p.frame.extends.catalogue ∙ cat) model
          (p.meant values v keep cat (IsMeant-Extends m values q.frame.extends model) meant);
  }

  -- The facts do not depend on how the last turn ended.
  left :
      (s t : WorklistState Digest) (a b : Attempt) (u : Turn)
      → Facts m engine source i s a (t, b, u)
      → Facts m engine source i s a (t, b, leave)
  left s t a b u p = record {
    frame = p.frame;
    same_copied = p.same_copied;
    restarted = λ h. cc;
    final = p.final;
    meant = p.meant;
  }

  module _ (adds : RulesAdd engine) where
    call-Called :
        (id : Text) (rule : RewriteRule ApplyRule) (f : ApplyRule) (s s' : WorklistState Digest)
        (a : Attempt) (c : RewriteContext) (r : RewriteResult)
        → find_rule engine.rules id ≡ some rule
        → rule.apply ≡ some f
        → Frame s s'
        → s'.copied ≡ s.copied
        → f (context_of engine source i (counted_attempt engine source i s')) a.subject
          ≡ some (c, r)
        → Called m engine source i s a
            (observe_output engine source i
              (after_call engine source i (counted_attempt engine source i s') c)).0
            r
    unfolding observe_output
    call-Called id rule f s s' a c r found applies frame same called =
        let before = context_of engine source i (counted_attempt engine source i s') in
        let t = after_call engine source i (counted_attempt engine source i s') c in
        let larger : Extends s'.output c.graph =
          adds id rule f found applies before c a.subject r called in
        let charged =
          charge-Charged t (observe_output_nodes t.termination (size t.output) (size source))
            (observe_output_nodes-Tracked t.termination (size t.output) (size source)) in
        let stepped : Frame s' t = record { extends = larger; tracked = (Frame-refl s').tracked } in
        record {
          frame = Frame-trans (Frame-trans frame stepped) charged.frame;
          same_copied = charged.same_copied ∙ same;
          meant = λ values v keep cat model (d, known, value).
              let cat' : s'.output.catalogue ≡ source.catalogue = frame.extends.catalogue ∙ cat in
              result-ResultMeant values v c r (larger.catalogue ∙ cat') (
                keep id rule f found applies before c a.subject r values v called cat'
                  (IsMeant-Extends m values charged.frame.extends model)
                  (d, ap (λ k. Catalogue.operation k a.subject.operation) cat' ∙ known, value));
        }

    apply_rule-Facts :
        (id : Text) (rule : RewriteRule ApplyRule) (s : WorklistState Digest) (a : Attempt)
        (b : WorklistState Digest × Bool) (k : Turned engine source i)
        → find_rule engine.rules id ≡ some rule
        → Frame s b.0
        → b.0.copied ≡ s.copied
        → apply_rule engine source i rule a b ≡ some k
        → Facts m engine source i s a k
    unfolding apply_rule
    apply_rule-Facts id rule s a (s', false) k found frame same h =
        let made : (s', a, leave) ≡ k = ground arith in
        subst (Facts m engine source i s a) made
          (quiet m engine source i s s' a leave frame same (λ e. cc))
    apply_rule-Facts id rule s a (s', true) k found frame same h =
        let before = context_of engine source i (counted_attempt engine source i s') in
        elim (Option-cases rule.apply) [
          | inl null ↦ absurd (ground arith)
          | inr (f, applies) ↦ elim (Option-cases (f before a.subject)) [
            | inl thrown ↦ absurd (ground arith)
            | inr ((c, r), called) ↦
                let t = after_call engine source i (counted_attempt engine source i s') c in
                let made : use_result engine source i rule a r (observe_output engine source i t)
                    ≡ k =
                  ground arith in
                subst (Facts m engine source i s a) made (
                  use_result-Facts m engine source i rule s a r (observe_output engine source i t)
                    (call-Called id rule f s s' a c r found applies frame same called))
          ]
        ]

    try_rule-Facts :
        (id : Text) (s : WorklistState Digest) (a : Attempt) (k : Turned engine source i)
        → try_rule engine source i id a s ≡ some k
        → Facts m engine source i s a k
    unfolding try_rule
    try_rule-Facts id s a k h = elim (Bool-cases (is_rule_enabled engine.configuration id)) [
      | inr off ↦
          let made : (s, a, next_rule) ≡ k = ground arith in
          subst (Facts m engine source i s a) made
            (quiet m engine source i s s a next_rule (Frame-refl s) refl (λ e. cc))
      | inl on ↦ elim (Option-cases (find_rule engine.rules id)) [
        | inl missing ↦
            let code : Diagnostic = record {
              code = "canonicalizer.scheduler.missing_rule";
              severity = error;
            } in
            let made : (fail_with s code, a, leave) ≡ k = ground arith in
            subst (Facts m engine source i s a) made (
              quiet m engine source i s (fail_with s code) a leave
                (record { extends = (Frame-refl s).extends; tracked = (Frame-refl s).tracked }) refl
                (λ e. cc))
        | inr (rule, found) ↦
            let charged =
              charge-Charged s (consume_worklist_step s.termination)
                (consume_worklist_step-Tracked s.termination) in
            apply_rule-Facts id rule s a (charge s (consume_worklist_step s.termination)) k found
              charged.frame charged.same_copied (ground arith)
      ]
    ]

    try_rules-Facts :
        (ids : List Text) (s : WorklistState Digest) (a : Attempt) (k : Turned engine source i)
        → try_rules engine source i ids a s ≡ some k
        → Facts m engine source i s a k
    unfolding try_rules
    try_rules-Facts [] s a k h =
        let made : (s, a, leave) ≡ k = ground arith in
        subst (Facts m engine source i s a) made
          (quiet m engine source i s s a leave (Frame-refl s) refl (λ e. cc))
    try_rules-Facts (id ∷ ids) s a k h = elim (Option-cases (try_rule engine source i id a s)) [
      | inl thrown ↦ absurd (ground arith)
      | inr ((s', a', next_rule), went) ↦
          then_Facts s s' a a' next_rule k (try_rule-Facts id s a (s', a', next_rule) went)
            (try_rules-Facts ids s' a' k (ground arith))
      | inr ((s', a', leave), went) ↦
          let made : (s', a', leave) ≡ k = ground arith in
          subst (Facts m engine source i s a) made (try_rule-Facts id s a (s', a', leave) went)
      | inr ((s', a', restart), went) ↦
          let made : (s', a', restart) ≡ k = ground arith in
          subst (Facts m engine source i s a) made (try_rule-Facts id s a (s', a', restart) went)
    ]

    -- What holds of a turn holds of the whole loop, which ends by leaving it.
    pub attempt-Facts :
        (fuel : ℕ) (ids : List Text) (s s' : WorklistState Digest) (a a' : Attempt)
        → attempt engine source i fuel ids a s ≡ returns (s', a')
        → Facts m engine source i s a (s', a', leave)
    unfolding attempt
    attempt-Facts zero ids s s' a a' h = absurd (ground arith)
    attempt-Facts (suc fuel) ids s s' a a' h =
        elim (Option-cases (try_rules engine source i ids a s)) [
          | inl thrown ↦ absurd (ground arith)
          | inr ((t, b, restart), went) ↦
              then_Facts s t a b restart (s', a', leave)
                (try_rules-Facts ids s a (t, b, restart) went)
                (attempt-Facts fuel ids t s' b a' (ground arith))
          | inr ((t, b, leave), went) ↦
              let made : (t, b, leave) ≡ (s', a', leave) = ground arith in
              subst (Facts m engine source i s a) made (try_rules-Facts ids s a (t, b, leave) went)
          | inr ((t, b, next_rule), went) ↦
              let same : t ≡ s' = ground arith in
              let last : b ≡ a' = ground arith in
              subst (λ u. Facts m engine source i s a (u, a', leave)) same
                (subst (λ u. Facts m engine source i s a (t, u, leave)) last
                  (left s t a b next_rule (try_rules-Facts ids s a (t, b, next_rule) went)))
        ]

    -- Each restart takes one of the rewrites that are left.
    pub attempt-Ends :
        (fuel : ℕ) (ids : List Text) (s : WorklistState Digest) (a : Attempt)
        → s.termination.limits.maximum_rewrites - s.termination.statistics.rewrites_applied < fuel
        → attempt engine source i fuel ids a s ≢ out_of_fuel
    unfolding attempt
    attempt-Ends zero ids s a enough h = omega arith
    attempt-Ends (suc fuel) ids s a enough h =
        elim (Option-cases (try_rules engine source i ids a s)) [
          | inl thrown ↦ ground arith
          | inr ((t, b, restart), went) ↦
              let facts = try_rules-Facts ids s a (t, b, restart) went in
              let w = facts.restarted refl in
              let within = w.within in
              let counted = w.counted in
              let same = facts.frame.tracked.limits in
              let fewer = remaining s.termination t.termination fuel same within counted enough in
              attempt-Ends fuel ids t b fewer (ground arith)
          | inr ((t, b, leave), went) ↦ ground arith
          | inr ((t, b, next_rule), went) ↦ ground arith
        ]
