-- ===== src/Canonicalizer/Evaluator.antt =====
-- lib/canonicalizer/evaluator_catalogue.cpp: the value of a builtin operation on constants.
pub mod Arithmetic
pub mod Order
pub mod Steps
pub mod Folds
pub mod Values
use Prim.Native.Nat.{zero, suc}
use sivra.Prelude.{
  ℕ, ◌+◌, ◌-◌, ◌≡◌, Bool, true, false, ◌&&◌, ◌||◌, not, if◌then◌else◌, ltb, leb, List, [], ◌∷◌,
  Option, none, some, length, is_empty, all, traverse, push_back, find_if, has_value, bit_and,
  bit_or, bit_xor, String, ◌==◌, nat_eq,
}
use sivra.Prelude.Int.{leb_ℤ}
use sivra.Prelude.Sort.{stable_sort}
use sivra.Prelude.Words.{add_u32, mul_u32, sub_u32, not_u32, signed_u32}
use sivra.Core.Result.{Result, ok, err, Diagnostic, error, make_error, fail, ◌>>=◌, ◌>>◌, require}
use sivra.Ir.ValueType.{
  ValueType, ValueTypeKind, ScalarCategory, scalar, floating_point, signed_integer, value_type_eq,
  kind_eq, category_eq,
}
use sivra.Ir.Constant.{
  ScalarConstant, f32_constant, i32_constant, ConstantValue, element, element_count, is_splat,
  make_scalar, make_aggregate,
}
use sivra.Ir.Attribute.{OperationAttributes}
use sivra.Ir.Operation.{OperationKey, operation_key, operation_key_eq, key_is_empty}
use sivra.Canonicalizer.Evaluator.Arithmetic.{
  BuiltinEvaluation, add, multiply, subtract, divide, maximum, minimum, sqrt, reciprocal,
  reciprocal_sqrt, square, bit_and_op, bit_and_not, bit_or_op, bit_xor_op, copy, FloatArithmetic,
  is_commutative, accepts_operand_count, supports_result_type, evaluate_i32, evaluate_f32,
}
use sivra.Canonicalizer.Evaluator.Order.{constant_less}

-- `std::get` of the wanted alternative; `none` is its exception, or that of `element`.
abbrev pub get_f32 : Option ScalarConstant → Option ℕ
get_f32 none = none
get_f32 (some (f32_constant bits)) = some bits
get_f32 (some (i32_constant bits)) = none

abbrev pub get_i32 : Option ScalarConstant → Option ℕ
get_i32 none = none
get_i32 (some (i32_constant bits)) = some bits
get_i32 (some (f32_constant bits)) = none

-- `evaluation_result`.
pub data EvaluationResult : Type 0 where
  no_evaluation : EvaluationResult
  evaluated_constant : ConstantValue → EvaluationResult
  invalid_evaluation : Diagnostic → EvaluationResult

abbrev apply_first : (ℕ → List ℕ → ScalarConstant) → Option (List ℕ) → Option ScalarConstant
apply_first f none = none
apply_first f (some []) = none
apply_first f (some (first ∷ rest)) = some (f first rest)

-- A diagnostic of the bundle that a failure carries.
abbrev front : List Diagnostic → Diagnostic
front [] = record { code = "empty"; severity = error }
front (d ∷ ds) = d

abbrev evaluation_of : Result ConstantValue → EvaluationResult
evaluation_of (ok v) = evaluated_constant v
evaluation_of (err ds) = invalid_evaluation (front ds)

unfoldable pub ordered_operands : BuiltinEvaluation → List ConstantValue → List ConstantValue
ordered_operands ev operands =
    if is_commutative ev then stable_sort constant_less operands else operands

module _ (float : FloatArithmetic) where
  -- `none` is an exception: an operand has no such lane, or an element of the other kind.
  unfoldable pub evaluate_scalar :
      BuiltinEvaluation → List ConstantValue → ℕ → ValueType → Option ScalarConstant
  evaluate_scalar ev operands lane t =
      if t.category == floating_point
      then apply_first (λ first rest. f32_constant (evaluate_f32 float ev first rest))
          (traverse (λ c. get_f32 (element c lane)) operands)
      else apply_first (λ first rest. i32_constant (evaluate_i32 ev first rest))
          (traverse (λ c. get_i32 (element c lane)) operands)

  -- The lanes from `lane` on, so many of them.
  unfoldable pub evaluate_lanes :
      BuiltinEvaluation → List ConstantValue → ValueType → ℕ → ℕ → Option (List ScalarConstant)
  evaluate_lanes ev operands t zero lane = some []
  evaluate_lanes ev operands t (suc rounds) lane = elim (evaluate_scalar ev operands lane t) [
    | none ↦ none
    | some e ↦ elim (evaluate_lanes ev operands t rounds (lane + 1)) [
      | none ↦ none
      | some es ↦ some (e ∷ es)
    ]
  ]

  -- `none` is an exception, as in `evaluate_scalar`.
  unfoldable pub evaluate_builtin :
      BuiltinEvaluation
      → List ConstantValue
      → OperationAttributes
      → ValueType
      → Option EvaluationResult
  unfolding ordered_operands evaluate_lanes
  evaluate_builtin ev operands attributes t =
      if not (accepts_operand_count ev (length operands))
        || not (is_empty attributes)
        || not (supports_result_type ev t)
      then some no_evaluation
      else if not (all (λ (c : ConstantValue). c.result_type == t) operands)
      then some no_evaluation
      else if t.kind == scalar
      then elim (evaluate_scalar ev (ordered_operands ev operands) 0 t) [
        | none ↦ none
        | some e ↦ some (evaluation_of (make_scalar t e))
      ]
      else elim (evaluate_lanes ev (ordered_operands ev operands) t t.lane_count 0) [
        | none ↦ none
        | some es ↦ some (evaluation_of (make_aggregate t es))
      ]

-- `operation_evaluator`; a null function is `none`.
abbrev pub EvaluateOperation : Type 0
EvaluateOperation = List ConstantValue → OperationAttributes → ValueType → Option EvaluationResult

pub record OperationEvaluator : Type 0 where
  pub operation : OperationKey
  pub evaluate : Option EvaluateOperation

abbrev pub EvaluatorCatalogue : Type 0
EvaluatorCatalogue = List OperationEvaluator

abbrev any_key : OperationKey → List OperationKey → Bool
any_key k [] = false
any_key k (j ∷ js) = j == k || any_key k js

unfoldable pub check_evaluators : List OperationKey → List OperationEvaluator → Result (Unit {0})
check_evaluators seen [] = ok tt
check_evaluators seen (e ∷ es) = do
  require (not (key_is_empty e.operation || e.operation.version == 0 || not (has_value e.evaluate)))
      "canonicalizer.evaluator_catalogue.invalid_evaluator"
  require (not (any_key e.operation seen)) "canonicalizer.evaluator_catalogue.duplicate_evaluator"
  check_evaluators (e.operation ∷ seen) es

unfoldable pub create_evaluators : List OperationEvaluator → Result EvaluatorCatalogue
create_evaluators es = do check_evaluators [] es; ok es

unfoldable pub find_evaluator : EvaluatorCatalogue → OperationKey → Option OperationEvaluator
find_evaluator es key = find_if (λ (e : OperationEvaluator). e.operation == key) es

abbrev builtin : FloatArithmetic → String → BuiltinEvaluation → OperationEvaluator
builtin float key ev = record {
  operation = operation_key key;
  evaluate = some (evaluate_builtin float ev);
}

unfoldable pub builtin_evaluators : FloatArithmetic → List OperationEvaluator
builtin_evaluators float =
    builtin float "add" add
    ∷ builtin float "multiply" multiply
    ∷ builtin float "subtract" subtract
    ∷ builtin float "divide" divide
    ∷ builtin float "maximum" maximum
    ∷ builtin float "minimum" minimum
    ∷ builtin float "sqrt" sqrt
    ∷ builtin float "reciprocal" reciprocal
    ∷ builtin float "reciprocal_sqrt" reciprocal_sqrt
    ∷ builtin float "square" square
    ∷ builtin float "bit_and" bit_and_op
    ∷ builtin float "bit_and_not" bit_and_not
    ∷ builtin float "bit_or" bit_or_op
    ∷ builtin float "bit_xor" bit_xor_op
    ∷ builtin float "copy" copy
    ∷ []
