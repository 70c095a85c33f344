-- ===== src/Ir/Operation.antt =====
-- lib/ir/operation.cpp: an operation of the catalogue, with its key and its declared semantics.
use sivra.Prelude.{
  ℕ, ◌≡◌, ◌↔◌, Bool, true, ◌&&◌, String, Text, codes, Option, is_empty, Eq, nat_beq, list_beq,
  list_beq_iff, nat_eq, arith,
}
use sivra.Ir.Constant.{ScalarConstant}
use sivra.Ir.Ids.{OperationId}
use sivra.Ir.Schema.{AttributeSchema}
use sivra.Ir.Signature.{OperationSignature}
use sivra.Ir.Trait.{OperationTrait}

pub data WellKnownConstant : Type 0 where
  zero one all_bits_set : WellKnownConstant

-- `operation_constant`: its variant `element`.
pub data OperationConstant : Type 0 where
  well_known : WellKnownConstant → OperationConstant
  explicit : ScalarConstant → OperationConstant

pub record OperationKey : Type 0 where
  pub value : Text
  pub version : ℕ

abbrev pub operation_key_beq : OperationKey → OperationKey → Bool
operation_key_beq a b = list_beq a.value b.value && nat_beq a.version b.version

pub operation_key_beq_iff : (a b : OperationKey) → (operation_key_beq a b ≡ true) ↔ (a ≡ b)
operation_key_beq_iff a b = ground (arith, list_beq_iff a.value b.value)

instance abbrev pub operation_key_eq : Eq OperationKey
operation_key_eq = record { beq = operation_key_beq; beq_iff = operation_key_beq_iff }

-- The constructor from a literal, with the default version.
abbrev pub operation_key : String → OperationKey
operation_key value = record { value = codes value; version = 1 }

abbrev pub key_is_empty : OperationKey → Bool
key_is_empty k = is_empty k.value

pub record OperationSemantics : Type 0 where
  pub traits : OperationTrait
  pub evaluator_key : Option OperationKey
  pub identity : Option OperationConstant
  pub annihilator : Option OperationConstant
  pub left_identity : Option OperationConstant
  pub right_identity : Option OperationConstant
  pub left_annihilator : Option OperationConstant
  pub right_annihilator : Option OperationConstant

pub record OperationDef : Type 0 where
  pub id : OperationId
  pub stable_key : OperationKey
  pub name : Text
  pub signature : OperationSignature
  pub attribute_schema : AttributeSchema
  pub semantics : OperationSemantics

pub record OperationRegistration : Type 0 where
  pub key : OperationKey
  pub name : Text
  pub signature : OperationSignature
  pub attribute_schema : AttributeSchema
  pub semantics : OperationSemantics
