-- ===== src/Ir/Builtins.antt =====
-- lib/ir/builtins/operations.cpp: the fifteen operations that every catalogue starts with.
use sivra.Prelude.{String, codes, List, [], ◌∷◌, none, some}
use sivra.Core.Result.{Result}
use sivra.Ir.Constant.{f32_constant}
use sivra.Ir.Signature.{OperationSignature, same_as_result}
use sivra.Ir.Trait.{no_trait, associative, commutative, idempotent, ◌|||◌}
use sivra.Ir.Ids.{OperationId}
use sivra.Ir.Operation.{
  OperationConstant, well_known, explicit, zero, one, all_bits_set, OperationSemantics,
  OperationRegistration, operation_key,
}
use sivra.Ir.Catalogue.{CatalogueBuilder, register_operations}

abbrev unary_same_type : OperationSignature
unary_same_type = record {
  arity = record { minimum = 1; maximum = some 1 };
  operand_types = same_as_result;
}

abbrev variadic_same_type : OperationSignature
variadic_same_type = record {
  arity = record { minimum = 2; maximum = none };
  operand_types = same_as_result;
}

abbrev binary_same_type : OperationSignature
binary_same_type = record {
  arity = record { minimum = 2; maximum = some 2 };
  operand_types = same_as_result;
}

abbrev pub negative_infinity : OperationConstant
negative_infinity = explicit (f32_constant 0xFF80_0000)

abbrev pub positive_infinity : OperationConstant
positive_infinity = explicit (f32_constant 0x7F80_0000)

-- The semantics of a registration that names its evaluator and nothing else.
abbrev pub semantics_with_evaluator : String → OperationSemantics
semantics_with_evaluator key = record {
  traits = no_trait;
  evaluator_key = some (operation_key key);
  identity = none;
  annihilator = none;
  left_identity = none;
  right_identity = none;
  left_annihilator = none;
  right_annihilator = none;
}

abbrev registration : String → OperationSignature → OperationSemantics → OperationRegistration
registration key signature semantics = record {
  key = operation_key key;
  name = codes key;
  signature = signature;
  attribute_schema = [];
  semantics = semantics;
}

unfoldable pub builtin_registrations : List OperationRegistration
builtin_registrations =
    registration "add" variadic_same_type (record (semantics_with_evaluator "add") {
      traits = associative ||| commutative;
      identity = some (well_known zero);
    })
    ∷ registration "multiply" variadic_same_type (record (semantics_with_evaluator "multiply") {
      traits = associative ||| commutative;
      identity = some (well_known one);
      annihilator = some (well_known zero);
    })
    ∷ registration "subtract" binary_same_type
        (record (semantics_with_evaluator "subtract") { right_identity = some (well_known zero) })
    ∷ registration "divide" binary_same_type
        (record (semantics_with_evaluator "divide") { right_identity = some (well_known one) })
    ∷ registration "maximum" variadic_same_type (record (semantics_with_evaluator "maximum") {
      traits = associative ||| commutative ||| idempotent;
      identity = some negative_infinity;
      annihilator = some positive_infinity;
    })
    ∷ registration "minimum" variadic_same_type (record (semantics_with_evaluator "minimum") {
      traits = associative ||| commutative ||| idempotent;
      identity = some positive_infinity;
      annihilator = some negative_infinity;
    })
    ∷ registration "sqrt" unary_same_type (semantics_with_evaluator "sqrt")
    ∷ registration "reciprocal" unary_same_type (semantics_with_evaluator "reciprocal")
    ∷ registration "reciprocal_sqrt" unary_same_type (semantics_with_evaluator "reciprocal_sqrt")
    ∷ registration "square" unary_same_type (semantics_with_evaluator "square")
    ∷ registration "bit_and" variadic_same_type (record (semantics_with_evaluator "bit_and") {
      traits = associative ||| commutative ||| idempotent;
      identity = some (well_known all_bits_set);
      annihilator = some (well_known zero);
    })
    ∷ registration "bit_and_not" binary_same_type (record (semantics_with_evaluator "bit_and_not") {
      left_identity = some (well_known zero);
      right_annihilator = some (well_known zero);
    })
    ∷ registration "bit_or" variadic_same_type (record (semantics_with_evaluator "bit_or") {
      traits = associative ||| commutative ||| idempotent;
      identity = some (well_known zero);
      annihilator = some (well_known all_bits_set);
    })
    ∷ registration "bit_xor" variadic_same_type (record (semantics_with_evaluator "bit_xor") {
      traits = associative ||| commutative;
      identity = some (well_known zero);
    })
    ∷ registration "copy" unary_same_type (semantics_with_evaluator "copy")
    ∷ []

-- The ids come back as a list, in the order of the fields of `builtin_operation_ids`.
unfoldable pub register_builtin_operations :
    CatalogueBuilder → Result (CatalogueBuilder × List OperationId)
unfolding builtin_registrations
register_builtin_operations builder = register_operations builder builtin_registrations
