-- ===== src/Ir/Signature.antt =====
-- lib/ir/operation_signature.cpp: how many operands an operation takes, and of which types.
use sivra.Prelude.{ℕ, Bool, true, ◌&&◌, leb, List, [], ◌∷◌, Option, none, some, length, ◌==◌}
use sivra.Core.Result.{Result, ok, require, ◌>>=◌, ◌>>◌}
use sivra.Ir.ValueType.{ValueType, value_type_eq}
use sivra.Ir.Attribute.{OperationAttributes}
use sivra.Ir.Schema.{AttributeSchema, validate_attributes}

pub record ArityConstraint : Type 0 where
  pub minimum : ℕ
  pub maximum : Option ℕ

abbrev pub within_maximum : ℕ → Option ℕ → Bool
within_maximum count none = true
within_maximum count (some m) = leb count m

unfoldable pub validate_arity : ArityConstraint → Result (Unit {0})
validate_arity a = require (within_maximum a.minimum a.maximum) "ir.signature.invalid_arity"

unfoldable pub accepts : ArityConstraint → ℕ → Bool
accepts a count = leb a.minimum count && within_maximum count a.maximum

pub data OperandTypeConstraint : Type 0 where
  any_type same_as_result : OperandTypeConstraint

pub record OperationSignature : Type 0 where
  pub arity : ArityConstraint
  pub operand_types : OperandTypeConstraint

abbrev pub validate_definition : OperationSignature → Result (Unit {0})
validate_definition s = validate_arity s.arity

-- The loop over the operand types, if they have to be the result's.
unfoldable pub check_operand_types : ValueType → List ValueType → Result (Unit {0})
check_operand_types result [] = ok tt
check_operand_types result (t ∷ ts) = do
  require (t == result) "ir.graph.type_mismatch"
  check_operand_types result ts

abbrev check_constraint : OperandTypeConstraint → ValueType → List ValueType → Result (Unit {0})
check_constraint any_type result actual = ok tt
check_constraint same_as_result result actual = check_operand_types result actual

unfoldable pub validate_application :
    OperationSignature
    → ValueType
    → List ValueType
    → OperationAttributes
    → AttributeSchema
    → Result (Unit {0})
validate_application s result actual attributes schema = do
  require (accepts s.arity (length actual)) "ir.graph.invalid_arity"
  check_constraint s.operand_types result actual
  _ ← validate_attributes schema attributes
  ok tt
