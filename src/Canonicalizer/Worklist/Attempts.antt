-- ===== src/Canonicalizer/Worklist/Attempts.antt =====
-- The results of rules in lib/canonicalizer/worklist.cpp: what is done with them, and the value of it.
use sivra.Prelude.{ℕ, ◌≡◌, refl, ◌∙◌, Bool, true, false, Bool-cases, inl, inr, ◌∷◌, ◌==◌}
use sivra.Ir.Ids.{NodeId}
use sivra.Ir.Graph.{ExpressionGraph}
use sivra.Ir.Structural.Meaning.{Meaning}
use sivra.Ir.Builder.Extension.{IsMeant-Extends}
use sivra.Canonicalizer.Configuration.{set_contains}
use sivra.Canonicalizer.Rewrite.{
  RewriteResult, no_match, replace_with, rebuild_expression, invalid_rewrite, RebuildExpression,
}
use sivra.Canonicalizer.Rule.{RewriteRule}
use sivra.Canonicalizer.Termination.{consume_rewrite}
use sivra.Canonicalizer.Worklist.{
  ApplyRule, WorklistEngine, WorklistState, subject_eq, is_replacement, exhaust, charge, source_id,
}
use sivra.Canonicalizer.Worklist.Attempt.{
  Attempt, next_rule, leave, next_subject, Turned, counted_match, use_replacement, use_rebuilt,
  use_result,
}
use sivra.Canonicalizer.Worklist.Frame.{
  Frame, Frame-trans, charge-Charged, consume_rewrite-Tracked, consume_rewrite-granted,
}
use sivra.Canonicalizer.Worklist.Turns.{
  Rewritten, then_Rewritten, Facts, quiet, Called, replaced-Facts, rebuilt-Facts,
}

module _ {D : Type 0} (m : Meaning D) {Digest : Type 0} (engine : WorklistEngine Digest)
    (source : ExpressionGraph) (i : ℕ) where
  abbrev Fact : WorklistState Digest → Attempt → Turned engine source i → Type 0
  Fact = Facts m engine source i

  abbrev Call : WorklistState Digest → Attempt → WorklistState Digest → RewriteResult → Type 0
  Call = Called m engine source i

  -- The state behind a call of the tracker for a rewrite.
  consumed :
      (s s' : WorklistState Digest) (a : Attempt) (r : RewriteResult)
      → Call s a s' r
      → Call s a (charge s' (consume_rewrite s'.termination (source_id source i))).0 r
        × ((charge s' (consume_rewrite s'.termination (source_id source i))).1 ≡ true
            → Rewritten s (charge s' (consume_rewrite s'.termination (source_id source i))).0)
  consumed s s' a r c =
      let n = source_id source i in
      let k = consume_rewrite s'.termination n in
      let charged = charge-Charged s' k (consume_rewrite-Tracked s'.termination n) in
      let same = charged.same_termination in
      (
        record {
          frame = Frame-trans c.frame charged.frame;
          same_copied = charged.same_copied ∙ c.same_copied;
          meant = λ values v keep cat model meant.
              c.meant values v keep cat (IsMeant-Extends m values charged.frame.extends model)
                meant;
        },
        λ went.
            let (within, counted) =
              consume_rewrite-granted s'.termination n (charged.granted went) in
            then_Rewritten c.frame (record { within = within; counted = rw same counted }),
      )

  use_replacement-Facts :
      (rule : RewriteRule ApplyRule) (o : NodeId) (s s' : WorklistState Digest) (a : Attempt)
      → Call s a s' (replace_with o)
      → Fact s a (use_replacement engine source i rule o a s')
  unfolding use_replacement
  use_replacement-Facts rule o s s' a c = elim (Bool-cases (is_replacement s'.output o a.subject)) [
    | inl fits ↦
        let (called, granted) = consumed s s' a (replace_with o) c in
        rw fits (
          replaced-Facts m engine source i rule o s a
            (charge s' (consume_rewrite s'.termination (source_id source i))) called granted)
    | inr refused ↦ rw refused (
        quiet m engine source i s _ a leave
          (record { extends = c.frame.extends; tracked = c.frame.tracked }) c.same_copied (λ h. cc))
  ]

  use_rebuilt-Facts :
      (rule : RewriteRule ApplyRule) (e : RebuildExpression) (s s' : WorklistState Digest)
      (a : Attempt)
      → Call s a s' (rebuild_expression e)
      → Fact s a (use_rebuilt engine source i rule (next_subject e) a s')
  unfolding use_rebuilt exhaust
  use_rebuilt-Facts rule e s s' a c =
      let frame : Frame s s' = c.frame in
      elim (Bool-cases (next_subject e == a.subject)) [
        | inl idle ↦ rw idle (
            quiet m engine source i s _ a leave
              (record { extends = frame.extends; tracked = frame.tracked }) c.same_copied (λ h. cc))
        | inr moved ↦ elim (Bool-cases (set_contains a.states (next_subject e))) [
          | inl seen ↦
              rw (moved, seen)
                (quiet m engine source i s _ a leave
                  (record { extends = frame.extends; tracked = frame.tracked }) c.same_copied
                  (λ h. cc))
          | inr fresh ↦
              let (called, granted) = consumed s s' a (rebuild_expression e) c in
              rw (moved, fresh)
                (rebuilt-Facts m engine source i rule e s a
                  (record a { states = next_subject e ∷ a.states })
                  (charge s' (consume_rewrite s'.termination (source_id source i))) called granted
                  refl refl)
        ]
      ]

  pub use_result-Facts :
      (rule : RewriteRule ApplyRule) (s : WorklistState Digest) (a : Attempt) (r : RewriteResult)
      (b : WorklistState Digest × Bool)
      → Call s a b.0 r
      → Fact s a (use_result engine source i rule a r b)
  unfolding use_result
  use_result-Facts rule s a r (s', false) c =
      quiet m engine source i s s' a leave c.frame c.same_copied (λ h. cc)
  use_result-Facts rule s a no_match (s', true) c =
      quiet m engine source i s s' a next_rule c.frame c.same_copied (λ h. cc)
  use_result-Facts rule s a (invalid_rewrite d) (s', true) c =
      quiet m engine source i s _ a leave
        (record { extends = c.frame.extends; tracked = c.frame.tracked }) c.same_copied (λ h. cc)
  use_result-Facts rule s a (replace_with o) (s', true) c =
      use_replacement-Facts rule o s (counted_match engine source i s') a (record {
        frame = record { extends = c.frame.extends; tracked = c.frame.tracked };
        same_copied = c.same_copied;
        meant = c.meant;
      })
  use_result-Facts rule s a (rebuild_expression e) (s', true) c =
      use_rebuilt-Facts rule e s (counted_match engine source i s') a (record {
        frame = record { extends = c.frame.extends; tracked = c.frame.tracked };
        same_copied = c.same_copied;
        meant = c.meant;
      })
