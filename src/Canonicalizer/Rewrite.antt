-- ===== src/Canonicalizer/Rewrite.antt =====
-- lib/canonicalizer/rewrite_context.cpp: what a rule reads and adds, its subject and its result.
use sivra.Prelude.{ℕ, ◌+◌, List, [], ◌∷◌, Option, none, some}
use sivra.Core.Result.{Result, ok, Diagnostic, ◌>>=◌}
use sivra.Ir.ValueType.{ValueType}
use sivra.Ir.Constant.{ConstantValue}
use sivra.Ir.Ids.{OperationId, NodeId}
use sivra.Ir.Attribute.{OperationAttributes}
use sivra.Ir.Operation.{OperationDef}
use sivra.Ir.Catalogue as Catalogue
use sivra.Ir.Graph.{ExpressionGraph, ExpressionNode, at, get_if_constant}
use sivra.Ir.Builder as Builder
use sivra.Canonicalizer.Configuration.{Configuration}
use sivra.Canonicalizer.Evaluator.{
  EvaluationResult, no_evaluation, EvaluatorCatalogue, OperationEvaluator, find_evaluator,
}

pub record RewriteSubject : Type 0 where
  pub operation : OperationId
  pub result_type : ValueType
  pub operands : List NodeId
  pub attributes : OperationAttributes

pub record RebuildExpression : Type 0 where
  pub operation : OperationId
  pub operands : List NodeId
  pub attributes : OperationAttributes
  pub result_type : ValueType

-- `rewrite_result`.
pub data RewriteResult : Type 0 where
  no_match : RewriteResult
  replace_with : NodeId → RewriteResult
  rebuild_expression : RebuildExpression → RewriteResult
  invalid_rewrite : Diagnostic → RewriteResult

-- The graph and the count are what the context changes; the builder is the one of the graph.
pub record RewriteContext : Type 0 where
  pub graph : ExpressionGraph
  pub configuration : Configuration
  pub evaluators : EvaluatorCatalogue
  pub nodes_created : ℕ

-- `none` is an exception, here and below.
abbrev pub node : RewriteContext → NodeId → Option ExpressionNode
node c id = at c.graph id

abbrev pub operation : RewriteContext → OperationId → Option OperationDef
operation c id = Catalogue.operation c.graph.catalogue id

abbrev run_evaluator :
    Option OperationEvaluator
    → List ConstantValue
    → OperationAttributes
    → ValueType
    → Option EvaluationResult
run_evaluator none operands attributes t = some no_evaluation
run_evaluator (some e) operands attributes t = elim e.evaluate [
  | none ↦ none
  | some f ↦ f operands attributes t
]

unfoldable pub evaluate_constants :
    RewriteContext
    → OperationId
    → List ConstantValue
    → OperationAttributes
    → ValueType
    → Option EvaluationResult
evaluate_constants c id operands attributes t = elim (operation c id) [
  | none ↦ none
  | some d ↦ elim d.semantics.evaluator_key [
    | none ↦ some no_evaluation
    | some key ↦ run_evaluator (find_evaluator c.evaluators key) operands attributes t
  ]
]

-- The constants of the operands up to the first that is none; the outer `none` is an exception.
unfoldable pub constants_of : RewriteContext → List NodeId → Option (Option (List ConstantValue))
constants_of c [] = some (some [])
constants_of c (o ∷ os) =
    let rest = constants_of c os in
    elim (node c o) [
      | none ↦ none
      | some n ↦ elim (get_if_constant n) [
        | none ↦ some none
        | some value ↦ elim rest [
          | none ↦ none
          | some none ↦ some none
          | some (some values) ↦ some (some (value ∷ values))
        ]
      ]
    ]

unfoldable pub evaluate : RewriteContext → RewriteSubject → Option EvaluationResult
evaluate c s = elim (constants_of c s.operands) [
  | none ↦ none
  | some none ↦ some no_evaluation
  | some (some values) ↦ evaluate_constants c s.operation values s.attributes s.result_type
]

-- The graph with one more node, which is counted.
abbrev created : RewriteContext → ExpressionGraph × NodeId → RewriteContext × NodeId
created c (g, id) = (record c { graph = g; nodes_created = c.nodes_created + 1 }, id)

unfoldable pub make_constant : RewriteContext → ConstantValue → Result (RewriteContext × NodeId)
make_constant c value = do built ← Builder.make_constant c.graph value; ok (created c built)

unfoldable pub rebuild : RewriteContext → RebuildExpression → Result (RewriteContext × NodeId)
rebuild c e = do
  built ← Builder.apply c.graph e.operation e.operands e.attributes e.result_type
  ok (created c built)
