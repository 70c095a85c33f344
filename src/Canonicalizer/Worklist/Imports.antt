-- ===== src/Canonicalizer/Worklist/Imports.antt =====
-- The import loop of lib/canonicalizer/worklist.cpp keeps the values of the copied nodes.
use sivra.Prelude.{
  ℕ, ◌+◌, ◌≡◌, refl, sym, subst, ◌∙◌, Bool, true, false, Option-cases, inl, inr, List, [], ◌∷◌,
  Option, none, some, get_elem?, arith,
}
use sivra.Core.Result.{ok}
use sivra.Ir.Ids.{NodeId}
use sivra.Ir.Graph.{ExpressionGraph, ExpressionNode, payload_operands, size}
use sivra.Ir.Validation.{validate_graph}
use sivra.Ir.Validation.Order.{validate_graph-payload}
use sivra.Ir.Structural.Meaning.{Meaning}
use sivra.Ir.Builder.Calls.{BuildCall, perform}
use sivra.Ir.Builder.Extension.{IsMeant, IsMeant-Extends}
use sivra.Ir.Builder.Values.{HonoursDefaults, perform-value}
use sivra.Canonicalizer.Termination.{consume_import, observe_output_nodes}
use sivra.Canonicalizer.Worklist.{
  WorklistState, source_id, resolved_operands, charge, observe_build, built_node,
}
use sivra.Canonicalizer.Worklist.Import.{
  call_for, place, import_with, import_payload, import_counted, import_node, import_nodes,
}
use sivra.Canonicalizer.Worklist.Frame.{
  Frame, Frame-refl, Frame-trans, charge-Charged, built_node-Construction, consume_import-Tracked,
  observe_output_nodes-Tracked,
}
use sivra.Canonicalizer.Worklist.Copies.{
  IsRead, CopiesMeant, resolved_operands-value, set-CopiesMeant, source_at, call_for-value,
}

module _ {D : Type 0} (m : Meaning D) (source : ExpressionGraph) (src : NodeId → D) (P : Type 0)
    {Digest : Type 0} where
  -- A step of a run on graphs of the catalogue of the source: values of the graph behind it that fit
  -- the copies before it fit the copies behind it.
  pub record Kept (s s' : WorklistState Digest) : Type 0 where
    pub frame : Frame s s'
    pub copies :
        (values : NodeId → D)
        → P
        → s.output.catalogue ≡ source.catalogue
        → IsMeant m s'.output values
        → CopiesMeant m source src values s.copied
        → CopiesMeant m source src values s'.copied

  pub Kept-of_Frame : {s s' : WorklistState Digest} → Frame s s' → s'.copied ≡ s.copied → Kept s s'
  Kept-of_Frame {s} {s'} frame same = record {
    frame = frame;
    copies = λ values p cat model meant. rw same meant;
  }

  pub Kept-trans : {r s t : WorklistState Digest} → Kept r s → Kept s t → Kept r t
  Kept-trans {r} {s} {t} p q = record {
    frame = Frame-trans p.frame q.frame;
    copies = λ values given cat model meant.
        q.copies values given (p.frame.extends.catalogue ∙ cat) model
          (p.copies values given cat (IsMeant-Extends m values q.frame.extends model) meant);
  }

  -- A new copy of the right value.
  place-Kept :
      (i : ℕ) (s : WorklistState Digest) (b : WorklistState Digest × Option NodeId)
      → Frame s b.0
      → b.0.copied ≡ s.copied
      → ((id : NodeId) (values : NodeId → D)
          → b.1 ≡ some id
          → P
          → s.output.catalogue ≡ source.catalogue
          → IsMeant m b.0.output values
          → CopiesMeant m source src values s.copied
          → values id ≡ src (source_id source i))
      → Kept s (place source i b).0
  unfolding place
  place-Kept i s (s', none) frame same value = Kept-of_Frame frame same
  place-Kept i s (s', some id) frame same value = record {
    frame = record { extends = frame.extends; tracked = frame.tracked };
    copies = λ values p cat model meant.
        set-CopiesMeant m source src values s'.copied (rw same meant) i id
          (value id values refl p cat model meant);
  }

  module _ (valid : P → validate_graph source ≡ ok tt) (read : P → IsRead m source src)
      (honours : P → HonoursDefaults m source.catalogue) where
    import_with-Kept :
        (i : ℕ) (n : ExpressionNode) (s : WorklistState Digest) (operands : List NodeId)
        (c : BuildCall) (b : WorklistState Digest × Bool)
        → get_elem? source.nodes i ≡ some n
        → resolved_operands source s.copied (payload_operands n.payload) ≡ some operands
        → call_for source n.result_type operands n.payload ≡ some c
        → Frame s b.0
        → b.0.copied ≡ s.copied
        → Kept s (import_with source i c b).0
    unfolding import_with
    import_with-Kept i n s operands c (s', false) here os call frame same = Kept-of_Frame frame same
    import_with-Kept i n s operands c (s', true) here os call frame same =
        let built = built_node-Construction s' c (perform s'.output c) refl in
        place-Kept i s (built_node s' (perform s'.output c)) (Frame-trans frame built.frame)
          (built.same_copied ∙ same)
          (λ id values made p cat model meant.
            let cat' : s'.output.catalogue ≡ source.catalogue = frame.extends.catalogue ∙ cat in
            perform-value m values s'.output c (built_node s' (perform s'.output c)).0.output id
              (src (source_id source i)) (subst (λ k. HonoursDefaults m k) (sym cat') (honours p))
              model.0 (built.made id made)
              (call_for-value m source src values s'.output n.result_type i operands n.payload c
                (src (source_id source i)) (validate_graph-payload source i n (valid p) here) cat'
                (resolved_operands-value m source src values s.copied meant
                  (payload_operands n.payload) operands os)
                call (read p (source_id source i) n (source_at m source src i n here))))

    import_payload-Kept :
        (i : ℕ) (n : ExpressionNode) (s : WorklistState Digest) (e : WorklistState Digest × Bool)
        → get_elem? source.nodes i ≡ some n
        → import_payload source i n s ≡ some e
        → Kept s e.0
    unfolding import_payload observe_build
    import_payload-Kept i n s e here h =
        elim (Option-cases (resolved_operands source s.copied (payload_operands n.payload))) [
          | inl absent ↦
              let made : (s, false) ≡ e = ground arith in
              subst (λ (k : WorklistState Digest × Bool). Kept s k.0) made
                (Kept-of_Frame (Frame-refl s) refl)
          | inr (os, resolves) ↦ elim (Option-cases (call_for source n.result_type os n.payload)) [
            | inl unnamed ↦ absurd (ground arith)
            | inr (c, called) ↦
                let k = observe_output_nodes s.termination (size s.output + 1) (size source) in
                let charged =
                  charge-Charged s k (
                    observe_output_nodes-Tracked s.termination (size s.output + 1) (size source)) in
                let made : import_with source i c (charge s k) ≡ e = ground arith in
                subst (λ (k : WorklistState Digest × Bool). Kept s k.0) made
                  (import_with-Kept i n s os c (charge s k) here resolves called charged.frame
                    charged.same_copied)
          ]
        ]

    import_counted-Kept :
        (i : ℕ) (s : WorklistState Digest) (b e : WorklistState Digest × Bool)
        → import_counted source i b ≡ some e
        → Kept s b.0
        → Kept s e.0
    import_counted-Kept i s (s', false) e h kept =
        let made : (s', false) ≡ e = ground arith in
        subst (λ (k : WorklistState Digest × Bool). Kept s k.0) made kept
    import_counted-Kept i s (s', true) e h kept = elim (Option-cases (get_elem? source.nodes i)) [
      | inl absent ↦ absurd (ground arith)
      | inr (n, here) ↦ Kept-trans kept (import_payload-Kept i n s' e here (ground arith))
    ]

    import_node-Kept :
        (count_imports : Bool) (i : ℕ) (s : WorklistState Digest) (e : WorklistState Digest × Bool)
        → import_node source count_imports i s ≡ some e
        → Kept s e.0
    unfolding import_node
    import_node-Kept true i s e h =
        let charged =
          charge-Charged s (consume_import s.termination) (consume_import-Tracked s.termination) in
        import_counted-Kept i s (charge s (consume_import s.termination)) e h
          (Kept-of_Frame charged.frame charged.same_copied)
    import_node-Kept false i s e h =
        import_counted-Kept i s (s, true) e h (Kept-of_Frame (Frame-refl s) refl)

    pub import_nodes-Kept :
        (count_imports : Bool) (is : List ℕ) (s s' : WorklistState Digest)
        → import_nodes source count_imports is s ≡ some s'
        → Kept s s'
    unfolding import_nodes
    import_nodes-Kept count_imports [] s s' h =
        let same : s ≡ s' = ground arith in subst (Kept s) same (Kept-of_Frame (Frame-refl s) refl)
    import_nodes-Kept count_imports (i ∷ is) s s' h =
        elim (Option-cases (import_node source count_imports i s)) [
          | inl thrown ↦ absurd (ground arith)
          | inr ((t, false), went) ↦
              let same : t ≡ s' = ground arith in
              subst (Kept s) same (import_node-Kept count_imports i s (t, false) went)
          | inr ((t, true), went) ↦
              Kept-trans (import_node-Kept count_imports i s (t, true) went)
                (import_nodes-Kept count_imports is t s' (ground arith))
        ]
