-- ===== src/Tests/Rewrites.antt =====
-- lib/canonicalizer/rules/structural.cpp on the maximum of two symbols, nested and repeated.
use sivra.Prelude.{
  ℕ, ◌≤◌, ◌≡◌, refl, ◌∙◌, codes, List, [], ◌∷◌, ◌++◌, none, some, length, map, get_elem?, max,
  arith, ◌⊎◌, inl, inr,
}
use mathlib.Core.List.{Memᴰ, Permᴰ}
use sivra.Ir.Ids.{NodeId, OperationId}
use sivra.Ir.Structural.Meaning.{Meaning, IsModel, GraphFits}
use sivra.Ir.ValueType.{i32}
use sivra.Ir.Trait.{associative, commutative, idempotent, ◌|||◌, has_trait}
use sivra.Ir.Signature.{same_as_result}
use sivra.Ir.Operation.{OperationDef, operation_key}
use sivra.Ir.Builtins.{semantics_with_evaluator}
use sivra.Ir.Catalogue.{OperationCatalogue}
use sivra.Ir.Catalogue as Catalogue
use sivra.Ir.Graph.{ExpressionNode, ExpressionPayload, at, size, symbol_name}
use sivra.Ir.Validation.{is_earlier}
use sivra.Ir.Structural.{
  compare, compare_records, record_of, node_records, node_record, payload_data, append_u8,
  append_u32, append_u64, append_string, append_type, append_attributes, compare_bytes, equal_nodes,
}
use sivra.Prelude.Sort.{stable_sort, insert}
use sivra.Canonicalizer.Configuration.{configuration, is_trait_enabled}
use sivra.Canonicalizer.Rewrite.{RewriteSubject, RewriteContext, operation}
use sivra.Canonicalizer.Rules.Structural.{
  with_operands, deduplicate, flatten_operands, apply_idempotent_deduplication,
  apply_commutative_ordering, apply_associative_flattening,
}
use sivra.Canonicalizer.Rules.Deduplication.{apply_idempotent_deduplication-same}
use sivra.Canonicalizer.Rules.Ordering.{apply_commutative_ordering-same}
use sivra.Canonicalizer.Rules.Flattening.{apply_associative_flattening-same}
use sivra.Canonicalizer.Rules.Meaning.{
  HasValue, ResultHasValue, IsAssociative, IsIdempotent, HonoursTraits,
}

abbrev pub largest : List ℕ → ℕ
largest [] = 0
largest (x ∷ xs) = max x (largest xs)

largest-append : (xs ys : List ℕ) → largest (xs ++ ys) ≡ max (largest xs) (largest ys)
largest-append [] ys = omega arith
largest-append (x ∷ xs) ys = omega (arith, largest-append xs ys)

pub largest-IsAssociative : IsAssociative largest
largest-IsAssociative xs ys zs two =
    omega (
      arith,
      largest-append xs (largest ys ∷ zs),
      largest-append xs (ys ++ zs),
      largest-append ys zs,
    )

pub largest-perm : {xs ys : List ℕ} → Permᴰ xs ys → largest xs ≡ largest ys
largest-perm Permᴰ.nil = refl
largest-perm (Permᴰ.cons e p) = omega (arith, e, largest-perm p)
largest-perm (Permᴰ.swap e f) = omega (arith, e, f)
largest-perm (Permᴰ.trans p q) = largest-perm p ∙ largest-perm q

largest-mem : {y : ℕ} {xs : List ℕ} → Memᴰ y xs → y ≤ largest xs
largest-mem (Memᴰ.head e) = omega (arith, e)
largest-mem (Memᴰ.tail m) = omega (arith, largest-mem m)

pub largest-IsIdempotent : IsIdempotent largest
largest-IsIdempotent = (
  (λ x. omega arith),
  λ xs zs y m. omega (arith, largest-append xs (y ∷ zs), largest-append xs zs, largest-mem m),
)

abbrev pub maximum_id : OperationId
maximum_id = record { index = 0; owner = 7 }

abbrev pub maximum_def : OperationDef
maximum_def = record {
  id = maximum_id;
  stable_key = operation_key "maximum";
  name = codes "maximum";
  signature = record {
    arity = record { minimum = 1; maximum = none };
    operand_types = same_as_result;
  };
  attribute_schema = [];
  semantics = record (semantics_with_evaluator "maximum") {
    traits = associative ||| commutative ||| idempotent;
  };
}

abbrev pub maximum_catalogue : OperationCatalogue
maximum_catalogue = record { owner = 7; definitions = maximum_def ∷ []; by_key = []; by_name = [] }

abbrev pub node_id : ℕ → NodeId
node_id index = record { index = index; owner = 3 }

abbrev pub symbol_node : ℕ → ExpressionNode
symbol_node index = record {
  id = node_id index;
  result_type = i32;
  payload = ExpressionPayload.symbol (record { index = index; owner = 3 });
}

abbrev maximum_node : ExpressionNode
maximum_node = record {
  id = node_id 2;
  result_type = i32;
  payload =
      ExpressionPayload.operation
        (record { operation = maximum_id; operands = node_id 0 ∷ node_id 1 ∷ []; attributes = [] });
}

abbrev context : RewriteContext
context = record {
  graph = record {
    owner = 3;
    external_value_owner = 5;
    catalogue = maximum_catalogue;
    nodes = symbol_node 0 ∷ symbol_node 1 ∷ maximum_node ∷ [];
    symbol_names = codes "x" ∷ codes "y" ∷ [];
    next_external_value = 0;
  };
  configuration = configuration;
  evaluators = [];
  nodes_created = 0;
}

abbrev pub meaning : Meaning ℕ
meaning = record {
  of_constant = λ t es. length es;
  of_symbol = λ t name. elim name [ [] ↦ 0 | c ∷ cs ↦ c ];
  of_external_value = λ t v. v.index;
  of_unknown = λ t reason. length reason;
  of_operation = λ t key attributes values. largest values;
  of_merge = λ t values. length values;
}

abbrev pub value_at : List ℕ → NodeId → ℕ
value_at vs o = elim (get_elem? vs o.index) [ none ↦ 0 | some v ↦ v ]

abbrev values : NodeId → ℕ
values = value_at (120 ∷ 121 ∷ 121 ∷ [])

values-IsModel : IsModel meaning context.graph values
unfolding at symbol_name Catalogue.operation
values-IsModel id n d here read = ground arith

context-HonoursTraits : HonoursTraits meaning context
context-HonoursTraits id d t as' found =
    (λ _. largest-IsAssociative, λ _ xs ys p. largest-perm p, λ _. largest-IsIdempotent)

node-cases :
    (id : NodeId) (n : ExpressionNode)
    → at context.graph id ≡ some n
    → (n ≡ symbol_node 0) ⊎ ((n ≡ symbol_node 1) ⊎ (n ≡ maximum_node))
unfolding at
node-cases id n here = ground arith

context-GraphFits : GraphFits context.graph
unfolding symbol_name Catalogue.operation
context-GraphFits id n here = elim (node-cases id n here) [
  | inl here ↦ rw here ((omega arith, omega arith), λ name e. ground arith)
  | inr (inl here) ↦ rw here ((omega arith, omega arith), λ name e. ground arith)
  | inr (inr here) ↦ rw here (
    (omega arith, omega arith),
    (
      (λ d e. let same : maximum_def ≡ d = ground arith in rw (← same) (omega arith, omega arith)),
      (omega arith, tt),
      omega arith,
    ),
  )
]

abbrev subject : List NodeId → RewriteSubject
subject operands = record {
  operation = maximum_id;
  result_type = i32;
  operands = operands;
  attributes = [];
}

subject-HasValue :
    (os : List NodeId)
    → HasValue meaning values context maximum_id os [] i32 (largest (map values os))
unfolding Catalogue.operation
subject-HasValue os = (maximum_def, refl, refl)

abbrev repeated : List NodeId
repeated = node_id 1 ∷ node_id 0 ∷ node_id 1 ∷ []

deduplicated :
    apply_idempotent_deduplication context (subject repeated)
    ≡ some (with_operands (subject repeated) (node_id 1 ∷ node_id 0 ∷ []))
unfolding apply_idempotent_deduplication Catalogue.operation is_trait_enabled has_trait
    configuration deduplicate equal_nodes compare compare_records record_of node_records node_record
    payload_data append_u8 append_u32 append_u64 append_string append_type append_attributes
    compare_bytes is_earlier at size symbol_name
deduplicated = refl

ordered :
    apply_commutative_ordering context (subject repeated)
    ≡ some (with_operands (subject repeated) (node_id 0 ∷ node_id 1 ∷ node_id 1 ∷ []))
unfolding apply_commutative_ordering Catalogue.operation is_trait_enabled has_trait configuration
    stable_sort insert compare compare_records record_of node_records node_record payload_data
    append_u8 append_u32 append_u64 append_string append_type append_attributes compare_bytes
    is_earlier at size symbol_name
ordered = refl

abbrev nested : List NodeId
nested = node_id 2 ∷ node_id 0 ∷ []

flattened :
    apply_associative_flattening context (subject nested)
    ≡ some (with_operands (subject nested) (node_id 0 ∷ node_id 1 ∷ node_id 0 ∷ []))
unfolding apply_associative_flattening Catalogue.operation is_trait_enabled has_trait configuration
    flatten_operands at
flattened = refl

abbrev KeepsValue : List NodeId → List NodeId → Type 0
KeepsValue before after =
    ResultHasValue meaning values context (largest (map values before))
      (with_operands (subject before) after)

apply_idempotent_deduplication-same_example : KeepsValue repeated (node_id 1 ∷ node_id 0 ∷ [])
apply_idempotent_deduplication-same_example =
    apply_idempotent_deduplication-same meaning values context (subject repeated)
      (largest (map values repeated))
      (with_operands (subject repeated) (node_id 1 ∷ node_id 0 ∷ [])) values-IsModel
      context-GraphFits context-HonoursTraits (subject-HasValue repeated) deduplicated

apply_commutative_ordering-same_example :
    KeepsValue repeated (node_id 0 ∷ node_id 1 ∷ node_id 1 ∷ [])
apply_commutative_ordering-same_example =
    apply_commutative_ordering-same meaning values context (subject repeated)
      (largest (map values repeated))
      (with_operands (subject repeated) (node_id 0 ∷ node_id 1 ∷ node_id 1 ∷ []))
      context-HonoursTraits (subject-HasValue repeated) ordered

apply_associative_flattening-same_example :
    KeepsValue nested (node_id 0 ∷ node_id 1 ∷ node_id 0 ∷ [])
apply_associative_flattening-same_example =
    apply_associative_flattening-same meaning values context (subject nested)
      (largest (map values nested))
      (with_operands (subject nested) (node_id 0 ∷ node_id 1 ∷ node_id 0 ∷ [])) values-IsModel
      context-HonoursTraits (subject-HasValue nested) flattened
