-- ===== src/Canonicalizer/Worklist/Processing.antt =====
-- A node of the queue in lib/canonicalizer/worklist.cpp, from its subject to the end of its round.
use sivra.Prelude.{
  ℕ, ◌≡◌, ◌≢◌, refl, sym, ap, subst, ◌∙◌, Option-cases, ◌⊎◌, inl, inr, List, some, Text, get_elem?,
  map, arith,
}
use sivra.Ir.Ids.{NodeId}
use sivra.Ir.Catalogue as Catalogue
use sivra.Ir.Graph.{
  ExpressionGraph, ExpressionNode, OperationApplication, operation, get_if_operation,
}
use sivra.Ir.Structural.Meaning.{Meaning, payload_value, payload_value-operation}
use sivra.Canonicalizer.Rewrite.{RewriteSubject}
use sivra.Canonicalizer.Worklist.{
  Outcome, returns, throws, out_of_fuel, WorklistEngine, WorklistState, entry, source_id,
  resolved_operands,
}
use sivra.Canonicalizer.Worklist.Attempt.{start_attempt, attempt}
use sivra.Canonicalizer.Worklist.Rounds.{
  subject_of, Round, skipped, attempt_fuel, settle, simplify, subject_at, process,
}
use sivra.Canonicalizer.Worklist.Frame.{Frame-refl}
use sivra.Canonicalizer.Worklist.Copies.{resolved_operands-value, source_at}
use sivra.Canonicalizer.Worklist.Turns.{RulesAdd}
use sivra.Canonicalizer.Worklist.Subjects.{attempt-Facts, attempt-Ends}
use sivra.Canonicalizer.Worklist.Finals.{is_application}
use sivra.Canonicalizer.Worklist.Renewals.{RoundFacts, idle, StartMeant, settle-RoundFacts}

pub Outcome-cases {ℓ} :
    {T : Type ℓ} (o : Outcome T) → ((x : T) × (o ≡ returns x)) ⊎ (o ≡ throws) ⊎ (o ≡ out_of_fuel)
Outcome-cases (returns x) = inl (x, refl)
Outcome-cases throws = inr (inl refl)
Outcome-cases out_of_fuel = inr (inr refl)

module _ {D : Type 0} (m : Meaning D) {Digest : Type 0} (engine : WorklistEngine Digest)
    (source : ExpressionGraph) (src : NodeId → D) (i : ℕ) where
  -- The subject of a node has the value of the node, where the copies have theirs.
  subject_of-StartMeant :
      (s : WorklistState Digest) (n : ExpressionNode) (a : OperationApplication)
      (operands : List NodeId)
      → get_elem? source.nodes i ≡ some n
      → get_if_operation n ≡ some a
      → resolved_operands source s.copied a.operands ≡ some operands
      → StartMeant m engine source src i s (subject_of n a operands)
  subject_of-StartMeant s n a operands here is_one resolves values sound meant =
      let of_node : payload_value m src source n.result_type (operation a)
          ≡ some (src (source_id source i)) =
        ap (payload_value m src source n.result_type) (sym (is_application n.payload a is_one))
        ∙ sound.read (source_id source i) n (source_at m source src i n here) in
      elim (Option-cases (Catalogue.operation source.catalogue a.operation)) [
        | inl absent ↦ absurd (ground arith)
        | inr (d, found) ↦
            let given = payload_value-operation m src source n.result_type a d found in
            let whole = sym given ∙ of_node in
            let value : m.of_operation n.result_type d.stable_key a.attributes (map src a.operands)
                ≡ src (source_id source i) =
              ground arith in
            (
              d,
              found,
              ap (m.of_operation n.result_type d.stable_key a.attributes) (
                    resolved_operands-value m source src values s.copied meant a.operands operands
                      resolves)
                  ∙ value,
            )
      ]

  module _ (adds : RulesAdd engine) where
    simplify-RoundFacts :
        (rules : List Text) (old : NodeId) (subject : RewriteSubject) (s : WorklistState Digest)
        (e : WorklistState Digest × Round)
        → StartMeant m engine source src i s subject
        → simplify engine source rules i old subject s ≡ returns e
        → RoundFacts m engine source src i s e
    unfolding simplify
    simplify-RoundFacts rules old subject s e start h =
        elim (Outcome-cases (
          attempt engine source i (attempt_fuel engine source s) rules (start_attempt subject) s)) [
            | inr (inl thrown) ↦ absurd (ground arith)
            | inr (inr out) ↦ absurd (ground arith)
            | inl ((t, a), ended) ↦
                let made : settle engine source i old (t, a) ≡ e = ground arith in
                subst (RoundFacts m engine source src i s) made (
                  settle-RoundFacts m engine source src i s t old subject a start (
                    attempt-Facts m engine source i adds (attempt_fuel engine source s) rules s t
                      (start_attempt subject) a ended))
          ]

    -- What holds of a round holds of the processing of a node.
    pub process-RoundFacts :
        (rules : List Text) (s : WorklistState Digest) (e : WorklistState Digest × Round)
        → process engine source rules i s ≡ returns e
        → RoundFacts m engine source src i s e
    unfolding process subject_at
    process-RoundFacts rules s e h = elim (Option-cases (get_elem? source.nodes i)) [
      | inl absent ↦ absurd (ground arith)
      | inr (n, here) ↦ elim (Option-cases (get_if_operation n)) [
        | inl other ↦ skips (ground arith)
        | inr (a, is_one) ↦ elim (Option-cases (entry s.copied i)) [
          | inl missing ↦ skips (ground arith)
          | inr (old, copied) ↦ elim (Option-cases (resolved_operands source s.copied a.operands)) [
            | inl unresolved ↦ skips (ground arith)
            | inr (operands, resolves) ↦
                simplify-RoundFacts rules old (subject_of n a operands) s e
                  (subject_of-StartMeant s n a operands here is_one resolves) (ground arith)
          ]
        ]
      ]
    ]
      where
        skips : (s, skipped) ≡ e → RoundFacts m engine source src i s e
        skips made =
            subst (RoundFacts m engine source src i s) made
              (idle m engine source src i s s skipped (Frame-refl s) refl (λ k. cc))

    simplify-Ends :
        (rules : List Text) (old : NodeId) (subject : RewriteSubject) (s : WorklistState Digest)
        → simplify engine source rules i old subject s ≢ out_of_fuel
    unfolding simplify
    simplify-Ends rules old subject s h =
        let ends =
          attempt-Ends m engine source i adds (attempt_fuel engine source s) rules s
            (start_attempt subject) (omega arith) in
        elim (Outcome-cases (
          attempt engine source i (attempt_fuel engine source s) rules (start_attempt subject) s)) [
            | inr (inl thrown) ↦ absurd (ground arith)
            | inr (inr out) ↦ absurd (ends out)
            | inl (ended, went) ↦ absurd (ground arith)
          ]

    -- The fuel of a round is enough.
    pub process-Ends :
        (rules : List Text) (s : WorklistState Digest)
        → process engine source rules i s ≢ out_of_fuel
    unfolding process
    process-Ends rules s h = elim (Option-cases (get_elem? source.nodes i)) [
      | inl absent ↦ ground arith
      | inr (n, here) ↦ elim (Option-cases (subject_at engine source i n s)) [
        | inl other ↦ ground arith
        | inr ((old, subject), given) ↦ simplify-Ends rules old subject s (ground arith)
      ]
    ]
