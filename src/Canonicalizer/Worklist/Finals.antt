-- ===== src/Canonicalizer/Worklist/Finals.antt =====
-- The node that lib/canonicalizer/worklist.cpp takes for a subject: one there, or one more.
use sivra.Prelude.{
  ◌+◌, ◌≤◌, ◌<◌, ◌≡◌, refl, sym, ap, subst, ◌∙◌, Bool, true, false, Bool-cases, Option-cases, ◌⊎◌,
  inl, inr, Option, none, some, list_eq, ==→≡, arith,
}
use sivra.Ir.ValueType.{value_type_eq}
use sivra.Ir.Ids.{NodeId, node_id_eq, operation_id_eq}
use sivra.Ir.Attribute.{attribute_eq}
use sivra.Ir.Catalogue as Catalogue
use sivra.Ir.Graph.{
  ExpressionGraph, ExpressionPayload, OperationApplication, operation, at, size, get_if_operation,
}
use sivra.Ir.Structural.Meaning.{Meaning, payload_value, payload_value-operation, IsModel}
use sivra.Ir.Builder.Calls.{BuildCall, apply_call, perform}
use sivra.Ir.Builder.Effects.{perform-appends}
use sivra.Ir.Builder.Extension.{IsMeant}
use sivra.Ir.Builder.Values.{HonoursDefaults, perform-value}
use sivra.Canonicalizer.Rewrite.{RewriteSubject}
use sivra.Canonicalizer.Termination.{observe_output_nodes}
use sivra.Canonicalizer.Worklist.{
  WorklistEngine, WorklistState, node_matches_subject, observe_build, built_node, charge,
}
use sivra.Canonicalizer.Worklist.Rounds.{rebuild_subject, keep_or_rebuild}
use sivra.Canonicalizer.Worklist.Frame.{
  Frame, Frame-refl, Frame-trans, charge-Charged, built_node-Construction,
  observe_output_nodes-Tracked, observe_output_nodes-granted,
}
use sivra.Canonicalizer.Worklist.Turns.{SubjectMeant}

-- One of the nodes that the output may still have was made.
pub record Enlarged {Digest : Type 0} (s s' : WorklistState Digest) : Type 0 where
  pub within : size s'.output ≤ s.termination.limits.maximum_output_nodes
  pub larger : size s.output < size s'.output

pub is_application :
    (p : ExpressionPayload) (a : OperationApplication)
    → (elim p [ operation b ↦ some b | _ ↦ none ]) ≡ some a
    → p ≡ operation a
is_application (operation b) a h = ground arith
is_application p a h = absurd (ground arith)

module _ {D : Type 0} (m : Meaning D) (values : NodeId → D) (v : D) where
  -- A node that matches a subject has its value.
  matches-value :
      (g : ExpressionGraph) (cat : Catalogue.OperationCatalogue) (old : NodeId)
      (subject : RewriteSubject)
      → g.catalogue ≡ cat
      → IsModel m g values
      → node_matches_subject g old subject ≡ true
      → SubjectMeant m cat values v subject
      → values old ≡ v
  unfolding node_matches_subject
  matches-value g cat old subject same model h (d, found, value) = elim (Option-cases (at g old)) [
    | inl absent ↦ absurd (ground arith)
    | inr (n, there) ↦ elim (Option-cases (get_if_operation n)) [
      | inl other ↦ absurd (ground arith)
      | inr (a, is_one) ↦
          let op : a.operation ≡ subject.operation =
            ==→≡ a.operation subject.operation (ground arith) in
          let attributes : a.attributes ≡ subject.attributes =
            ==→≡ a.attributes subject.attributes (ground arith) in
          let operands : a.operands ≡ subject.operands =
            ==→≡ a.operands subject.operands (ground arith) in
          let typed : n.result_type ≡ subject.result_type =
            ==→≡ n.result_type subject.result_type (ground arith) in
          model old n v there (
            ap (payload_value m values g n.result_type) (is_application n.payload a is_one)
            ∙ payload_value-operation m values g n.result_type a d (
                ap (λ k. Catalogue.operation k a.operation) same
                ∙ ap (Catalogue.operation cat) op
                ∙ found)
            ∙ ap some (cc (attributes, operands, typed, value)))
    ]
  ]

module _ {D : Type 0} (m : Meaning D) {Digest : Type 0} (engine : WorklistEngine Digest)
    (source : ExpressionGraph) where
  -- What holds of the node that is taken, where one is.
  pub record Taken (old : NodeId) (subject : RewriteSubject) (s : WorklistState Digest)
      (b : WorklistState Digest × Option NodeId) : Type 0 where
    pub frame : Frame s b.0
    pub same_copied : b.0.copied ≡ s.copied
    pub progress : (n : NodeId) → b.1 ≡ some n → (n ≡ old) ⊎ Enlarged s b.0
    pub meant :
        (values : NodeId → D) (v : D) (n : NodeId)
        → HonoursDefaults m source.catalogue
        → s.output.catalogue ≡ source.catalogue
        → IsMeant m b.0.output values
        → SubjectMeant m source.catalogue values v subject
        → b.1 ≡ some n
        → values n ≡ v

  rebuild_subject-Taken :
      (old : NodeId) (subject : RewriteSubject) (s : WorklistState Digest)
      (b : WorklistState Digest × Bool)
      → Frame s b.0
      → b.0.output ≡ s.output
      → b.0.copied ≡ s.copied
      → (b.1 ≡ true → size s.output + 1 ≤ s.termination.limits.maximum_output_nodes)
      → Taken old subject s (rebuild_subject engine source subject b)
  unfolding rebuild_subject
  rebuild_subject-Taken old subject s (s', false) frame same copied room = record {
    frame = frame;
    same_copied = copied;
    progress = λ n h. cc;
    meant = λ values v n honours cat model meant h. cc;
  }
  rebuild_subject-Taken old subject s (s', true) frame same copied room =
      let c : BuildCall =
        apply_call subject.operation subject.operands subject.attributes subject.result_type in
      let built = built_node-Construction s' c (perform s'.output c) refl in
      let after = (built_node s' (perform s'.output c)).0.output in
      record {
        frame = Frame-trans frame built.frame;
        same_copied = built.same_copied ∙ copied;
        progress = λ n h.
            let (grown, _, _) = perform-appends s'.output c after n (built.made n h) in
            let free = room refl in
            let sizes : size s'.output ≡ size s.output = ap size same in
            inr (unfold size in record { within = ground arith; larger = ground arith });
        meant = λ values v n honours cat model (d, found, value) h.
            let cat' : s'.output.catalogue ≡ source.catalogue = frame.extends.catalogue ∙ cat in
            perform-value m values s'.output c after n v
              (subst (HonoursDefaults m) (sym cat') honours) model.0 (built.made n h)
              (payload_value-operation m values s'.output subject.result_type
                  (record {
                    operation = subject.operation;
                    operands = subject.operands;
                    attributes = subject.attributes;
                  })
                  d (ap (λ k. Catalogue.operation k subject.operation) cat' ∙ found)
                ∙ ap some value);
      }

  pub keep_or_rebuild-Taken :
      (old : NodeId) (subject : RewriteSubject) (s : WorklistState Digest)
      → Taken old subject s (keep_or_rebuild engine source old subject s)
  unfolding observe_build
  keep_or_rebuild-Taken old subject s =
      elim (Bool-cases (node_matches_subject s.output old subject)) [
        | inl fits ↦ rw fits (record {
          frame = Frame-refl s;
          same_copied = refl;
          progress = λ n h. inl (ground arith);
          meant = λ values v n honours cat model meant h.
              let same : old ≡ n = ground arith in
              subst (λ k. values k ≡ v) same
                (matches-value m values v s.output source.catalogue old subject cat model.0 fits
                  meant);
        })
        | inr differs ↦
            let k = observe_output_nodes s.termination (size s.output + 1) (size source) in
            let charged =
              charge-Charged s k
                (observe_output_nodes-Tracked s.termination (size s.output + 1) (size source)) in
            rw differs (
              rebuild_subject-Taken old subject s (charge s k) charged.frame charged.same_output
                charged.same_copied
                (λ h.
                  observe_output_nodes-granted s.termination (size s.output + 1) (size source)
                    (charged.granted h)))
      ]
