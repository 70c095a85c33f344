-- ===== src/Tests/Algebraic.antt =====
-- lib/canonicalizer/rules/algebraic.cpp on the product and the exclusive or of a symbol and zero.
use sivra.Prelude.{
  ℕ, ◌+◌, ◌*◌, ◌%◌, ◌^◌, ◌≡◌, refl, ap, ◌∙◌, codes, List, [], ◌∷◌, ◌++◌, none, some, length, All,
  bit_xor, if◌then◌else◌, ◌==◌, list_eq, nat_eq, get_elem?, arith,
}
use sivra.Ir.ValueType.{ValueType, i32, f32}
use sivra.Ir.Constant.{
  ScalarConstant, f32_constant, i32_constant, constant_bits, single, element, element_count,
}
use sivra.Ir.Trait.{associative, commutative, ◌|||◌}
use sivra.Ir.Signature.{same_as_result}
use sivra.Ir.Ids.{NodeId, OperationId}
use sivra.Ir.Operation.{
  OperationDef, OperationRegistration, well_known, zero, one, operation_key, operation_key_eq,
}
use sivra.Ir.Builtins.{semantics_with_evaluator, builtin_registrations}
use sivra.Ir.Catalogue as Catalogue
use sivra.Ir.Graph.{ExpressionNode, ExpressionPayload, at, symbol_name}
use sivra.Ir.Structural.{elements_from}
use sivra.Ir.Structural.Meaning.{Meaning, IsModel}
use sivra.Canonicalizer.Configuration.{configuration}
use sivra.Canonicalizer.Rewrite.{RewriteSubject, RewriteContext, replace_with}
use sivra.Canonicalizer.Rules.Match.{
  matches_well_known_constant, matches_operation_constant, constant_operand_matches,
  operand_matches,
}
use sivra.Canonicalizer.Rules.Algebraic.{
  collapse, apply_annihilator_collapse, eliminate_identities, apply_identity_elimination,
}
use sivra.Canonicalizer.Rules.Annihilators.{HonoursAnnihilators, apply_annihilator_collapse-same}
use sivra.Canonicalizer.Rules.Identities.{HonoursIdentities, apply_identity_elimination-same}
use sivra.Canonicalizer.Rules.Denotes.{Denotes, IgnoresZeroSigns}
use sivra.Prelude.Words.Laws.{xor_comm, xor-zero}
use sivra.Canonicalizer.Rules.Meaning.{HasValue, ResultHasValue}

abbrev product : List ℕ → ℕ
product [] = 1
product (x ∷ xs) = x * product xs

product-zero : (xs zs : List ℕ) → product (xs ++ 0 ∷ zs) ≡ 0
product-zero [] zs = omega arith
product-zero (x ∷ xs) zs = ap (λ p. x * p) (product-zero xs zs) ∙ omega arith

-- The word of a constant with one lane.
abbrev word : List ScalarConstant → ℕ
word (e ∷ []) = constant_bits e
word _ = 0

abbrev xors : List ℕ → ℕ
xors [] = 0
xors (x ∷ xs) = bit_xor x (xors xs)

xors-zero : (xs zs : List ℕ) → xors (xs ++ 0 ∷ zs) ≡ xors (xs ++ zs)
xors-zero [] zs = xor_comm 0 (xors zs) ∙ xor-zero (xors zs)
xors-zero (x ∷ xs) zs = ap (bit_xor x) (xors-zero xs zs)

word-zero :
    (t : ValueType) (es : List ScalarConstant) → All (Denotes (well_known zero) t) es → word es ≡ 0
word-zero t [] h = refl
word-zero t (f32_constant bits ∷ []) h = h.0
word-zero t (i32_constant bits ∷ []) h = h.0
word-zero t (e ∷ o ∷ es) h = refl

-- The operations of lib/ir/builtins.cpp, in the order of their ids.
abbrev numbered : ℕ → List OperationRegistration → List OperationDef
numbered i [] = []
numbered i (r ∷ rs) =
    record {
      id = record { index = i; owner = 7 };
      stable_key = r.key;
      name = r.name;
      signature = r.signature;
      attribute_schema = r.attribute_schema;
      semantics = r.semantics;
    }
    ∷ numbered (i + 1) rs

abbrev multiply_id : OperationId
multiply_id = record { index = 1; owner = 7 }

abbrev multiply_def : OperationDef
multiply_def = record {
  id = multiply_id;
  stable_key = operation_key "multiply";
  name = codes "multiply";
  signature = record {
    arity = record { minimum = 2; maximum = none };
    operand_types = same_as_result;
  };
  attribute_schema = [];
  semantics = record (semantics_with_evaluator "multiply") {
    traits = associative ||| commutative;
    identity = some (well_known one);
    annihilator = some (well_known zero);
  };
}

abbrev node_id : ℕ → NodeId
node_id index = record { index = index; owner = 3 }

abbrev symbol_node : ExpressionNode
symbol_node = record {
  id = node_id 0;
  result_type = i32;
  payload = ExpressionPayload.symbol (record { index = 0; owner = 3 });
}

abbrev zero_node : ExpressionNode
zero_node = record {
  id = node_id 1;
  result_type = i32;
  payload =
      ExpressionPayload.constant (record { result_type = i32; storage = single (i32_constant 0) });
}

abbrev context : RewriteContext
context = record {
  graph = record {
    owner = 3;
    external_value_owner = 5;
    catalogue = record {
      owner = 7;
      definitions = numbered 0 builtin_registrations;
      by_key = [];
      by_name = [];
    };
    nodes = symbol_node ∷ zero_node ∷ [];
    symbol_names = codes "x" ∷ [];
    next_external_value = 0;
  };
  configuration = configuration;
  evaluators = [];
  nodes_created = 0;
}

abbrev meaning : Meaning ℕ
meaning = record {
  of_constant = λ t es. word es;
  of_symbol = λ t name. elim name [ [] ↦ 0 | c ∷ cs ↦ c ];
  of_external_value = λ t v. v.index;
  of_unknown = λ t reason. length reason;
  of_operation = λ t key attributes values.
      if key == operation_key "multiply"
      then product values % 2 ^ 32
      else if key == operation_key "bit_xor"
      then xors values
      else length values;
  of_merge = λ t values. length values;
}

abbrev value_at : List ℕ → NodeId → ℕ
value_at vs o = elim (get_elem? vs o.index) [ none ↦ 0 | some v ↦ v ]

abbrev values : NodeId → ℕ
values = value_at (120 ∷ 0 ∷ [])

values-IsModel : IsModel meaning context.graph values
unfolding at symbol_name element element_count elements_from
values-IsModel id n d here read = ground arith

only_multiply :
    (d : OperationDef)
    → Catalogue.operation context.graph.catalogue multiply_id ≡ some d
    → multiply_def ≡ d
unfolding Catalogue.operation builtin_registrations
only_multiply d found = ground arith

values-IgnoresZeroSigns : IgnoresZeroSigns meaning context.graph
unfolding at element element_count elements_from
values-IgnoresZeroSigns id n v es here payload read = ground arith

abbrev subject : RewriteSubject
subject = record {
  operation = multiply_id;
  result_type = i32;
  operands = node_id 0 ∷ node_id 1 ∷ [];
  attributes = [];
}

context-HonoursAnnihilators : HonoursAnnihilators meaning context subject
context-HonoursAnnihilators d found =
    let same = only_multiply d found in
    (
      (λ k xs zs y declared constant.
          let is_zero : well_known zero ≡ k = ground arith in
          let (es, one_lane, all_zero, value) = constant in
          let nothing : y ≡ 0 = value ∙ word-zero i32 es (rw is_zero all_zero) in
          let key : d.stable_key ≡ operation_key "multiply" = ground arith in
          rw (nothing, key) (ap (λ p. p % 2 ^ 32) (product-zero xs zs))),
      (λ k zs y declared constant. absurd (ground arith)),
      (λ k xs y declared constant. absurd (ground arith)),
    )

subject-HasValue : HasValue meaning values context multiply_id (node_id 0 ∷ node_id 1 ∷ []) [] i32 0
unfolding Catalogue.operation builtin_registrations
subject-HasValue = (multiply_def, refl, refl)

collapsed : apply_annihilator_collapse context subject ≡ some (replace_with (node_id 1))
unfolding builtin_registrations apply_annihilator_collapse Catalogue.operation collapse
    operand_matches constant_operand_matches matches_operation_constant matches_well_known_constant
    at element element_count elements_from
collapsed = refl

apply_annihilator_collapse-same_example :
    ResultHasValue meaning values context 0 (replace_with (node_id 1))
apply_annihilator_collapse-same_example =
    apply_annihilator_collapse-same meaning values context subject 0 (replace_with (node_id 1))
      values-IsModel values-IgnoresZeroSigns context-HonoursAnnihilators subject-HasValue collapsed

abbrev xor_id : OperationId
xor_id = record { index = 13; owner = 7 }

abbrev xor_def : OperationDef
xor_def = record multiply_def {
  id = xor_id;
  stable_key = operation_key "bit_xor";
  name = codes "bit_xor";
  semantics = record (semantics_with_evaluator "bit_xor") {
    traits = associative ||| commutative;
    identity = some (well_known zero);
  };
}

abbrev xor_subject : RewriteSubject
xor_subject = record subject { operation = xor_id }

only_xor :
    (d : OperationDef) → Catalogue.operation context.graph.catalogue xor_id ≡ some d → xor_def ≡ d
unfolding Catalogue.operation builtin_registrations
only_xor d found = ground arith

context-HonoursIdentities : HonoursIdentities meaning context xor_subject
context-HonoursIdentities d found =
    let same = only_xor d found in
    let key : d.stable_key ≡ operation_key "bit_xor" = ground arith in
    (
      (λ x. rw key (xor-zero x)),
      (λ k xs zs y declared constant beside.
          let is_zero : well_known zero ≡ k = ground arith in
          let (es, one_lane, all_zero, value) = constant in
          let nothing : y ≡ 0 = value ∙ word-zero i32 es (rw is_zero all_zero) in
          rw (nothing, key) (xors-zero xs zs)),
      (λ k x zs y declared constant. absurd (ground arith)),
      (λ k x xs y declared constant. absurd (ground arith)),
    )

xor_subject-HasValue :
    HasValue meaning values context xor_id (node_id 0 ∷ node_id 1 ∷ []) [] i32 120
unfolding Catalogue.operation builtin_registrations
xor_subject-HasValue = (xor_def, refl, refl)

eliminated : apply_identity_elimination context xor_subject ≡ some (replace_with (node_id 0))
unfolding builtin_registrations apply_identity_elimination Catalogue.operation eliminate_identities
    operand_matches constant_operand_matches matches_operation_constant matches_well_known_constant
    at element element_count elements_from
eliminated = refl

apply_identity_elimination-same_example :
    ResultHasValue meaning values context 120 (replace_with (node_id 0))
apply_identity_elimination-same_example =
    apply_identity_elimination-same meaning values context xor_subject 120
      (replace_with (node_id 0)) values-IsModel values-IgnoresZeroSigns context-HonoursIdentities
      xor_subject-HasValue eliminated

-- The same on floats, with -0.0 for 0: the operand goes, and the sign of the value with it.
abbrev float_context : RewriteContext
float_context = record context {
  graph = record context.graph {
    nodes =
        record symbol_node { result_type = f32 }
        ∷ record zero_node {
          result_type = f32;
          payload =
              ExpressionPayload.constant
                (record { result_type = f32; storage = single (f32_constant 0x8000_0000) });
        }
        ∷ [];
  };
}

negative_zero_dropped :
    (apply_identity_elimination float_context (record xor_subject { result_type = f32 })
      ≡ some (replace_with (node_id 0)))
    × (xors (120 ∷ 0x8000_0000 ∷ []) ≡ 0x8000_0078)
unfolding builtin_registrations apply_identity_elimination Catalogue.operation eliminate_identities
    operand_matches constant_operand_matches matches_operation_constant matches_well_known_constant
    at element element_count elements_from
negative_zero_dropped = (refl, refl)
