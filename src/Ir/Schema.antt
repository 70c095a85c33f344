-- ===== src/Ir/Schema.antt =====
-- lib/ir/operation_attribute.cpp, `operation_attribute_schema`: the fields that an operation's
-- attributes may fill, their constraints and their defaults.
use sivra.Prelude.{
  Bool, true, false, ◌&&◌, ◌||◌, not, if◌then◌else◌, List, [], ◌∷◌, ◌++◌, Option, none, some,
  has_value, is_empty, any, push_back, Text, text_lt, ◌==◌, nat_eq, list_eq, option_eq,
}
use sivra.Prelude.Int.{ℤ, leb_ℤ}
use sivra.Prelude.Sort.{stable_sort}
use sivra.Core.Result.{Result, ok, err, fail, require, ◌>>=◌, ◌>>◌}
use sivra.Ir.ValueType.{validate as validate_type}
use sivra.Ir.Attribute.{
  AttributeKind, integer_kind, enum_kind, attribute_kind_eq, AttributeValue, integer, boolean,
  enum_key, index_vector, value_type, kind_of, OperationAttribute, OperationAttributes, create,
  find,
}

pub record AttributeField : Type 0 where
  pub key : Text
  pub kind : AttributeKind
  pub required : Bool
  pub default_value : Option AttributeValue
  pub minimum_integer : Option ℤ
  pub maximum_integer : Option ℤ
  pub allowed_enum_values : List Text

-- What `operation_attribute_schema::create` returns, sorted by key.
abbrev pub AttributeSchema : Type 0
AttributeSchema = List AttributeField

unfoldable pub enum_value_allowed : AttributeField → Text → Bool
enum_value_allowed f v = is_empty f.allowed_enum_values || any (λ w. w == v) f.allowed_enum_values

abbrev pub at_least : Option ℤ → ℤ → Bool
at_least none v = true
at_least (some m) v = leb_ℤ m v

abbrev pub at_most : Option ℤ → ℤ → Bool
at_most none v = true
at_most (some m) v = leb_ℤ v m

abbrev pub is_ok : Result (Unit {0}) → Bool
is_ok (ok _) = true
is_ok (err _) = false

abbrev pub value_in_field : AttributeField → AttributeValue → Bool
value_in_field f (integer v) = at_least f.minimum_integer v && at_most f.maximum_integer v
value_in_field f (enum_key k) = not (is_empty k) && enum_value_allowed f k
value_in_field f (value_type t) = is_ok (validate_type t)
value_in_field f (boolean _) = true
value_in_field f (index_vector _) = true

unfoldable pub value_is_valid_for_field : AttributeField → AttributeValue → Bool
value_is_valid_for_field f v = kind_of v == f.kind && value_in_field f v

abbrev pub range_is_empty : Option ℤ → Option ℤ → Bool
range_is_empty (some low) (some high) = not (leb_ℤ low high)
range_is_empty _ _ = false

-- The enum values at the front were accepted already.
unfoldable pub check_enum_values : List Text → List Text → Result (Unit {0})
check_enum_values earlier [] = ok tt
check_enum_values earlier (v ∷ vs) = do
  require (not (is_empty v)) "ir.attribute_schema.invalid_enum"
  require (not (any (λ w. w == v) earlier)) "ir.attribute_schema.invalid_enum"
  check_enum_values (push_back earlier v) vs

abbrev default_is_valid : AttributeField → Option AttributeValue → Bool
default_is_valid f none = true
default_is_valid f (some v) = value_is_valid_for_field f v

unfoldable pub check_field : Option Text → AttributeField → Result (Unit {0})
check_field previous f = do
  require (not (is_empty f.key)) "ir.attribute_schema.empty_key"
  require (not (previous == some f.key)) "ir.attribute_schema.duplicate"
  require (not (range_is_empty f.minimum_integer f.maximum_integer))
      "ir.attribute_schema.invalid_range"
  require
      (not (
        (has_value f.minimum_integer || has_value f.maximum_integer)
        && not (f.kind == integer_kind)))
      "ir.attribute_schema.invalid_range"
  require (not (not (is_empty f.allowed_enum_values) && not (f.kind == enum_kind)))
      "ir.attribute_schema.invalid_enum"
  check_enum_values [] f.allowed_enum_values
  require (default_is_valid f f.default_value) "ir.attribute_schema.invalid_default"

unfoldable pub check_fields : Option Text → List AttributeField → Result (Unit {0})
check_fields previous [] = ok tt
check_fields previous (f ∷ fs) = do check_field previous f; check_fields (some f.key) fs

unfoldable pub create_schema : List AttributeField → Result AttributeSchema
create_schema fields = do
  let normalized = stable_sort (λ (a b : AttributeField). text_lt a.key b.key) fields
  check_fields none normalized
  ok normalized

unfoldable pub find_field : AttributeSchema → Text → Option AttributeField
find_field [] k = none
find_field (f ∷ fs) k =
    if text_lt f.key k then find_field fs k else if f.key == k then some f else none

abbrev pub invalid_value_code : AttributeValue → Result (Unit {0})
invalid_value_code (integer _) = fail "ir.attribute.range"
invalid_value_code (enum_key _) = fail "ir.attribute.enum"
invalid_value_code _ = fail "ir.attribute.value"

unfoldable pub check_attribute : AttributeSchema → OperationAttribute → Result (Unit {0})
check_attribute schema a = elim (find_field schema a.key) [
  | none ↦ fail "ir.attribute.unknown"
  | some f ↦
      if not (kind_of a.value == f.kind)
      then fail "ir.attribute.kind"
      else if not (value_is_valid_for_field f a.value)
      then invalid_value_code a.value
      else ok tt
]

unfoldable pub check_attributes : AttributeSchema → List OperationAttribute → Result (Unit {0})
check_attributes schema [] = ok tt
check_attributes schema (a ∷ as') = do check_attribute schema a; check_attributes schema as'

-- The defaults that the second loop appends, in the order of the fields.
unfoldable pub missing_defaults :
    List AttributeField → OperationAttributes → Result (List OperationAttribute)
missing_defaults [] attributes = ok []
missing_defaults (f ∷ fs) attributes = elim (find attributes f.key) [
  | some v ↦ missing_defaults fs attributes
  | none ↦ elim f.default_value [
    | some d ↦ do
      rest ← missing_defaults fs attributes
      ok (record { key = f.key; value = d } ∷ rest)
    | none ↦ if f.required then fail "ir.attribute.required" else missing_defaults fs attributes
  ]
]

unfoldable pub validate_attributes :
    AttributeSchema → OperationAttributes → Result OperationAttributes
validate_attributes schema attributes = do
  check_attributes schema attributes
  added ← missing_defaults schema attributes
  create (attributes ++ added)
