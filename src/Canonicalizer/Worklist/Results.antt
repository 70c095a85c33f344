-- ===== src/Canonicalizer/Worklist/Results.antt =====
-- The result of a run in lib/canonicalizer/worklist.cpp: its mapping, and the check of its graph.
use sivra.Prelude.{
  ℕ, zero, suc, ◌≡◌, refl, sym, ap, subst, ◌∙◌, Bool-cases, Option-cases, inl, inr, List, [], ◌∷◌,
  Option, none, some, get_elem?, replicate, ==-cases, arith,
}
use sivra.Core.Result.{ok, DiagnosticBundle, Result-cases, complete}
use sivra.Ir.Ids.{NodeId, OwnerToken, node_id_eq}
use sivra.Ir.Graph.{ExpressionGraph, size}
use sivra.Ir.Structural.Meaning.{Meaning}
use sivra.Ir.Validation.{validate_graph}
use sivra.Canonicalizer.Mapping.{
  SourceMapping, source_mapping, record_node, canonical_for, is_source, record_node-canonical_for,
}
use sivra.Canonicalizer.Worklist.{WorklistState, entry, source_id}
use sivra.Canonicalizer.Worklist.Copies.{CopiesMeant}
use sivra.Canonicalizer.Worklist.Run.{record_copies, note_failure, conclude, result_of}

get_elem?-replicate :
    {A : Type 0} (n i : ℕ) (a : A) {b : A} → get_elem? (replicate n a) i ≡ some b → b ≡ a
get_elem?-replicate zero i a h = cc
get_elem?-replicate (suc n) zero a h = ground arith
get_elem?-replicate (suc n) (suc i) a {b} h = get_elem?-replicate n i a {b = b} h

abbrev nothing : Option NodeId
nothing = none

pub entry-replicate : (n i : ℕ) (id : NodeId) → entry (replicate n none) i ≡ some id → ⊥
entry-replicate n i id h = elim (Option-cases (get_elem? (replicate n nothing) i)) [
  | inl absent ↦ ground arith
  | inr (o, there) ↦ let it = get_elem?-replicate n i nothing {b = o} there in ground arith
]

abbrev Copied : Type 0
Copied = SourceMapping × Option DiagnosticBundle

-- A mapping sends nodes of the source to nodes of their values.
abbrev pub MappingMeant : {D : Type 0} → (NodeId → D) → (NodeId → D) → SourceMapping → Type 0
MappingMeant src values k =
    (node id : NodeId) → canonical_for k node ≡ some id → values id ≡ src node

pub source_mapping-MappingMeant :
    {D : Type 0} (src values : NodeId → D) (owner : OwnerToken) (n : ℕ)
    → MappingMeant src values (source_mapping owner n)
unfolding source_mapping canonical_for
source_mapping-MappingMeant src values owner n node id h =
    elim (Bool-cases (is_source (source_mapping owner n) node)) [
      | inl inside ↦ absurd (entry-replicate n node.index id (ground arith))
      | inr outside ↦ absurd (ground arith)
    ]

module _ {D : Type 0} (m : Meaning D) (source : ExpressionGraph) (src values : NodeId → D)
    (copied : List (Option NodeId)) (meant : CopiesMeant m source src values copied) where
  pub record_copies-MappingMeant :
      (is : List ℕ) (k : SourceMapping)
      → MappingMeant src values k
      → MappingMeant src values (record_copies source copied is k).0
  unfolding record_copies
  record_copies-MappingMeant [] k before = before
  record_copies-MappingMeant (i ∷ is) k before = elim (Option-cases (entry copied i)) [
    | inl absent ↦
        let skips : record_copies source copied (i ∷ is) k ≡ record_copies source copied is k =
          ground arith in
        subst (λ (w : Copied). MappingMeant src values w.0) (sym skips)
          (record_copies-MappingMeant is k before)
    | inr (id, there) ↦ elim (Result-cases (record_node k (source_id source i) id)) [
      | inr (e, refused) ↦
          let ends : record_copies source copied (i ∷ is) k ≡ (k, some e) = ground arith in
          subst (λ (w : Copied). MappingMeant src values w.0) (sym ends) before
      | inl (k', stored) ↦
          let goes : record_copies source copied (i ∷ is) k ≡ record_copies source copied is k' =
            ground arith in
          subst (λ (w : Copied). MappingMeant src values w.0) (sym goes)
            (record_copies-MappingMeant is k'
              (λ node other h. recorded i id k k' there stored before node other h))
    ]
  ]
    where
      recorded :
          (i : ℕ) (id : NodeId) (k k' : SourceMapping)
          → entry copied i ≡ some id
          → record_node k (source_id source i) id ≡ ok k'
          → MappingMeant src values k
          → MappingMeant src values k'
      recorded i id k k' there stored before node other h =
          let read = record_node-canonical_for k k' (source_id source i) id node stored in
          elim (==-cases node (source_id source i)) [
            | inl (same, test) ↦
                let it : id ≡ other = ground arith in
                ap values (sym it) ∙ meant i id there ∙ ap src (sym same)
            | inr (differ, test) ↦ before node other (ground arith)
          ]

module _ {Digest : Type 0} where
  output-note_failure :
      (s : WorklistState Digest) (o : Option DiagnosticBundle)
      → (note_failure s o).output ≡ s.output
  output-note_failure s none = refl
  output-note_failure s (some errors) = refl

  -- The graph of a result is the output, which is checked: a run that is complete has a valid one.
  pub conclude-graph :
      (source : ExpressionGraph) (roots : List NodeId) (order : List ℕ) (s : WorklistState Digest)
      → (conclude source roots order s).graph ≡ s.output
  unfolding conclude result_of
  conclude-graph source roots order s =
      let (mapping, failure) =
        record_copies source s.copied order (source_mapping source.owner (size source)) in
      output-note_failure (note_failure s failure) _ ∙ output-note_failure s failure

  pub conclude-valid :
      (source : ExpressionGraph) (roots : List NodeId) (order : List ℕ) (s : WorklistState Digest)
      → (conclude source roots order s).status ≡ complete
      → validate_graph (conclude source roots order s).graph ≡ ok tt
  conclude-valid source roots order s h =
      let (mapping, failure) =
        record_copies source s.copied order (source_mapping source.owner (size source)) in
      let noted = note_failure s failure in
      elim (Result-cases (validate_graph noted.output)) [
        | inl (done, passed) ↦
            ap validate_graph
              (conclude-graph source roots order s ∙ sym (output-note_failure s failure))
            ∙ passed
        | inr (e, failed) ↦ absurd (unfold conclude result_of in ground arith)
      ]

  termination-note_failure :
      (s : WorklistState Digest) (o : Option DiagnosticBundle)
      → (note_failure s o).termination ≡ s.termination
  termination-note_failure s none = refl
  termination-note_failure s (some errors) = refl

  pub conclude-termination :
      (source : ExpressionGraph) (roots : List NodeId) (order : List ℕ) (s : WorklistState Digest)
      → (conclude source roots order s).termination ≡ s.termination
  unfolding conclude result_of
  conclude-termination source roots order s =
      let (mapping, failure) =
        record_copies source s.copied order (source_mapping source.owner (size source)) in
      termination-note_failure (note_failure s failure) _ ∙ termination-note_failure s failure
