-- ===== src/Canonicalizer/Rules/Structural.antt =====
-- lib/canonicalizer/rules/structural.cpp: flattening, ordering and deduplication of operands.
use sivra.Prelude.{
  ℕ, ◌+◌, Bool, true, false, ◌&&◌, ◌||◌, not, if◌then◌else◌, ltb, leb, List, [], ◌∷◌, ◌++◌, Option,
  none, some, length, all, any, has_value, push_back, ◌==◌, nat_eq, list_eq,
}
use sivra.Prelude.Sort.{stable_sort}
use sivra.Ir.ValueType.{value_type_eq}
use sivra.Ir.Ids.{NodeId, operation_id_eq, node_id_eq}
use sivra.Ir.Attribute.{attribute_eq}
use sivra.Ir.Trait.{OperationTrait, has_trait, associative, commutative, idempotent}
use sivra.Ir.Operation.{OperationDef}
use sivra.Ir.Graph.{ExpressionGraph, ExpressionNode, get_if_operation}
use sivra.Ir.Structural.{Ordering, less, record_of, compare, equal_nodes}
use sivra.Canonicalizer.Configuration.{is_trait_enabled}
use sivra.Canonicalizer.Rewrite.{
  RewriteSubject, RewriteResult, no_match, replace_with, rebuild_expression, RewriteContext, node,
  operation,
}

-- The rebuild of the subject with other operands.
abbrev pub with_operands : RewriteSubject → List NodeId → RewriteResult
with_operands s os = rebuild_expression (record {
  operation = s.operation;
  operands = os;
  attributes = s.attributes;
  result_type = s.result_type;
})

-- The trait is enabled and declared, and there are two operands at least.
abbrev pub trait_applies : RewriteContext → RewriteSubject → OperationDef → OperationTrait → Bool
trait_applies c s d t =
    is_trait_enabled c.configuration t
    && has_trait d.semantics.traits t
    && leb 2 (length s.operands)

-- A rule on the definition of the subject's operation; `none` is an exception.
abbrev pub on_operation :
    (OperationDef → Option RewriteResult) → Option OperationDef → Option RewriteResult
on_operation rule none = none
on_operation rule (some d) = rule d

abbrev pub maximum_flattened_operands : ℕ
maximum_flattened_operands = 64

-- The operands of a child that the flattening puts in the child's place, behind `count` operands.
abbrev pub flattens : RewriteSubject → ℕ → ExpressionNode → Option (List NodeId)
flattens s count child = elim (get_if_operation child) [
  | none ↦ none
  | some a ↦
      if not (a.operation == s.operation)
        || not (child.result_type == s.result_type)
        || not (a.attributes == s.attributes)
        || ltb (length a.operands) 2
        || ltb maximum_flattened_operands (count + length a.operands)
      then none
      else some a.operands
]

-- `flattened` and `changed`.
pub record Flattened : Type 0 where
  pub operands : List NodeId
  pub changed : Bool

abbrev pub flatten_operand : Flattened → NodeId → Option (List NodeId) → Flattened
flatten_operand f o none = record f { operands = push_back f.operands o }
flatten_operand f o (some os) = record { operands = f.operands ++ os; changed = true }

abbrev pub on_child :
    (Option (List NodeId) → Option Flattened)
    → RewriteSubject
    → ℕ
    → Option ExpressionNode
    → Option Flattened
on_child go_on s count none = none
on_child go_on s count (some child) = go_on (flattens s count child)

-- The loop over the operands; `none` is an exception.
unfoldable pub flatten_operands :
    RewriteContext → RewriteSubject → Flattened → List NodeId → Option Flattened
flatten_operands c s f [] = some f
flatten_operands c s f (o ∷ os) =
    on_child (λ inner. flatten_operands c s (flatten_operand f o inner) os) s (length f.operands)
      (node c o)

abbrev pub flattened_result : RewriteSubject → Option Flattened → Option RewriteResult
flattened_result s none = none
flattened_result s (some f) = some (if f.changed then with_operands s f.operands else no_match)

unfoldable pub apply_associative_flattening : RewriteContext → RewriteSubject → Option RewriteResult
apply_associative_flattening c s =
    on_operation
      (λ d.
        if trait_applies c s d associative
        then flattened_result s
            (flatten_operands c s (record { operands = []; changed = false }) s.operands)
        else some no_match)
      (operation c s.operation)

abbrev pub is_less : Option Ordering → Bool
is_less (some less) = true
is_less _ = false

-- The comparison of a node throws unless its record can be read.
abbrev pub comparable : ExpressionGraph → List NodeId → Bool
comparable g os = all (λ o. has_value (record_of g o)) os

abbrev pub node_less : ExpressionGraph → NodeId → NodeId → Bool
node_less g l r = is_less (compare g l g r)

abbrev pub ordered_result : RewriteSubject → List NodeId → RewriteResult
ordered_result s os = if os == s.operands then no_match else with_operands s os

unfoldable pub apply_commutative_ordering : RewriteContext → RewriteSubject → Option RewriteResult
apply_commutative_ordering c s =
    on_operation
      (λ d.
        if trait_applies c s d commutative
        then if comparable c.graph s.operands
          then some (ordered_result s (stable_sort (node_less c.graph) s.operands))
          else none
        else some no_match)
      (operation c s.operation)

-- The loop of the deduplication, behind the operands `unique`.
unfoldable pub deduplicate : ExpressionGraph → List NodeId → List NodeId → List NodeId
deduplicate g unique [] = unique
deduplicate g unique (o ∷ os) =
    deduplicate g
      (if any (λ existing. equal_nodes g existing g o) unique then unique else push_back unique o)
      os

abbrev pub unique_result : RewriteSubject → List NodeId → RewriteResult
unique_result s (o ∷ []) = if 1 == length s.operands then no_match else replace_with o
unique_result s os = if length os == length s.operands then no_match else with_operands s os

unfoldable pub apply_idempotent_deduplication :
    RewriteContext → RewriteSubject → Option RewriteResult
apply_idempotent_deduplication c s =
    on_operation
      (λ d.
        if trait_applies c s d idempotent
        then if comparable c.graph s.operands
          then some (unique_result s (deduplicate c.graph [] s.operands))
          else none
        else some no_match)
      (operation c s.operation)
