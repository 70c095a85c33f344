-- ===== src/Canonicalizer/Engine/Checked.antt =====
-- The last check of lib/canonicalizer/engine.cpp.
use sivra.Prelude.{
  ◌+◌, ◌≡◌, ap, subst, ◌∙◌, true, Option-cases, inl, inr, List, [], ◌∷◌, none, some, ◌⊎◌, All, Text,
  arith,
}
use sivra.Core.Result.{ok, Result-cases, complete}
use sivra.Ir.Ids.{NodeId, OwnerToken}
use sivra.Ir.Operation.{OperationDef, OperationKey}
use sivra.Ir.Graph.{ExpressionGraph, expression_graph}
use sivra.Ir.Validation.{validate_graph}
use sivra.Canonicalizer.Configuration.{validate_configuration}
use sivra.Canonicalizer.Evaluator.{EvaluatorCatalogue, OperationEvaluator, find_evaluator}
use sivra.Canonicalizer.Rule.{RewriteRule, find_rule}
use sivra.Canonicalizer.Scheduler.{validate_plans}
use sivra.Canonicalizer.Worklist.{ApplyRule, returns}
use sivra.Canonicalizer.Worklist.Run.{run}
use sivra.Canonicalizer.Worklist.Processing.{Outcome-cases}
use sivra.Canonicalizer.Engine.{
  Engine, EngineState, CanonicalizationResult, check_input, check_enabled,
  validate_evaluator_bindings, new_context,
}
use sivra.Canonicalizer.Engine.Canonicalize.{
  run_phases, compact, imported, conclude, canonicalize_valid, invalid_result, canonicalize,
}

-- The id names a rule of the catalogue.
abbrev pub IsCatalogued : List (RewriteRule ApplyRule) → Text → Type 0
IsCatalogued rules id = (rule : RewriteRule ApplyRule) × (find_rule rules id ≡ some rule)

-- The operation names no evaluator, or one that the catalogue has.
abbrev pub IsBound : EvaluatorCatalogue → OperationDef → Type 0
IsBound evaluators d =
    (d.semantics.evaluator_key ≡ none)
    ⊎ ((key : OperationKey) × (b : OperationEvaluator) × (d.semantics.evaluator_key ≡ some key)
        × (find_evaluator evaluators key ≡ some b))

check_enabled-All :
    (rules : List (RewriteRule ApplyRule)) (ids : List Text)
    → check_enabled rules ids ≡ ok tt
    → All (IsCatalogued rules) ids
unfolding check_enabled
check_enabled-All rules [] h = tt
check_enabled-All rules (id ∷ ids) h = elim (Option-cases (find_rule rules id)) [
  | inl unknown ↦ absurd (ground arith)
  | inr (rule, found) ↦ ((rule, found), check_enabled-All rules ids (ground arith))
]

bindings-All :
    (evaluators : EvaluatorCatalogue) (ds : List OperationDef)
    → validate_evaluator_bindings ds evaluators ≡ ok tt
    → All (IsBound evaluators) ds
unfolding validate_evaluator_bindings
bindings-All evaluators [] h = tt
bindings-All evaluators (d ∷ ds) h = elim (Option-cases d.semantics.evaluator_key) [
  | inl unnamed ↦ (inl unnamed, bindings-All evaluators ds (ground arith))
  | inr (key, named) ↦ elim (Option-cases (find_evaluator evaluators key)) [
    | inl missing ↦ absurd (ground arith)
    | inr (b, found) ↦ (inr (key, b, named, found), bindings-All evaluators ds (ground arith))
  ]
]

module _ {Digest : Type 0} (e : Engine Digest) where
  conclude-valid :
      (st : EngineState Digest)
      → (conclude e st).status ≡ complete
      → validate_graph (conclude e st).graph ≡ ok tt
  unfolding conclude
  conclude-valid st h = elim (Result-cases (validate_graph st.working_graph)) [
    | inl (done, passed) ↦ ground arith
    | inr (errors, failed) ↦ absurd (ground arith)
  ]

  canonicalize_valid-valid :
      (owner : OwnerToken) (graph : ExpressionGraph) (roots : List NodeId)
      (r : CanonicalizationResult Digest)
      → canonicalize_valid e owner graph roots ≡ returns r
      → r.status ≡ complete
      → validate_graph r.graph ≡ ok tt
  unfolding canonicalize_valid
  canonicalize_valid-valid owner graph roots r h done =
      elim (Outcome-cases (run e.worklist graph owner roots none true (new_context e))) [
        | inr (inl thrown) ↦ absurd (ground arith)
        | inr (inr out) ↦ absurd (ground arith)
        | inl (w, went) ↦ elim (Outcome-cases (run_phases e (imported e w (owner + 1)))) [
          | inr (inl thrown) ↦ absurd (ground arith)
          | inr (inr out) ↦ absurd (ground arith)
          | inl (t, ran) ↦ elim (Outcome-cases (compact e t)) [
            | inr (inl thrown) ↦ absurd (ground arith)
            | inr (inr out) ↦ absurd (ground arith)
            | inl (u, compacted) ↦
                let made : conclude e u ≡ r = ground arith in
                subst (λ (k : CanonicalizationResult Digest). validate_graph k.graph ≡ ok tt) made
                  (conclude-valid u
                    (ap (λ (k : CanonicalizationResult Digest). k.status) made ∙ done))
          ]
        ]
      ]

  check_input-parts :
      (graph : ExpressionGraph)
      → check_input e graph ≡ ok tt
      → (validate_configuration e.worklist.configuration ≡ ok tt)
        × (validate_plans e.worklist.rules e.scheduler ≡ ok tt)
        × All (IsCatalogued e.worklist.rules) e.worklist.configuration.enabled_rules
        × (validate_graph graph ≡ ok tt)
        × All (IsBound e.worklist.evaluators) graph.catalogue.definitions
  unfolding check_input
  check_input-parts graph h = (
    ground arith,
    ground arith,
    check_enabled-All e.worklist.rules e.worklist.configuration.enabled_rules (ground arith),
    ground arith,
    bindings-All e.worklist.evaluators graph.catalogue.definitions (ground arith),
  )

  -- Where a canonicalization returns with the status `complete`, the configuration and the plans
  -- validate, each enabled rule is in the catalogue, the source graph validates, each operation of its
  -- catalogue that names an evaluator has one, and the returned graph validates.
  pub canonicalize-valid :
      (owner : OwnerToken) (graph : ExpressionGraph) (roots : List NodeId)
      (r : CanonicalizationResult Digest)
      → canonicalize e owner graph roots ≡ returns r
      → r.status ≡ complete
      → ((validate_configuration e.worklist.configuration ≡ ok tt)
          × (validate_plans e.worklist.rules e.scheduler ≡ ok tt)
          × All (IsCatalogued e.worklist.rules) e.worklist.configuration.enabled_rules
          × (validate_graph graph ≡ ok tt)
          × All (IsBound e.worklist.evaluators) graph.catalogue.definitions)
        × (validate_graph r.graph ≡ ok tt)
  unfolding canonicalize invalid_result
  canonicalize-valid owner graph roots r h done = elim (Result-cases (check_input e graph)) [
    | inl (checked, passed) ↦ (
      check_input-parts graph passed,
      canonicalize_valid-valid owner graph roots r (ground arith) done,
    )
    | inr (errors, refused) ↦
        elim (Option-cases (expression_graph owner graph.catalogue graph.external_value_owner)) [
          | inl invalid ↦ absurd (ground arith)
          | inr (output, made) ↦ absurd (ground arith)
        ]
  ]
