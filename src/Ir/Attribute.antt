-- ===== src/Ir/Attribute.antt =====
-- lib/ir/operation_attribute.cpp: attributes of an operation, sorted by key, and their schema.
use sivra.Prelude.{
  ℕ, ◌≡◌, ◌↔◌, Bool, true, false, ◌&&◌, not, if◌then◌else◌, List, [], ◌∷◌, Option, none, some,
  is_empty, Text, text_lt, ◌==◌, Eq, nat_eq, list_eq, option_eq, list_beq, list_beq_iff, nat_beq,
  arith,
}
use sivra.Prelude.Int.{ℤ, int_beq, int_beq_iff, int_eq}
use sivra.Prelude.Sort.{stable_sort}
use sivra.Core.Result.{Result, ok, require, ◌>>◌}
use sivra.Ir.ValueType.{ValueType, value_type_eq, value_type_beq, value_type_beq_iff}

pub data AttributeKind : Type 0 where
  integer_kind boolean_kind enum_kind index_vector_kind type_kind : AttributeKind

pub data AttributeValue : Type 0 where
  integer : ℤ → AttributeValue
  boolean : Bool → AttributeValue
  enum_key : Text → AttributeValue
  index_vector : List ℕ → AttributeValue
  value_type : ValueType → AttributeValue

-- `value.index()`, cast to the kind.
abbrev pub kind_of : AttributeValue → AttributeKind
kind_of (integer _) = integer_kind
kind_of (boolean _) = boolean_kind
kind_of (enum_key _) = enum_kind
kind_of (index_vector _) = index_vector_kind
kind_of (value_type _) = type_kind

abbrev pub attribute_kind_index : AttributeKind → ℕ
attribute_kind_index integer_kind = 0
attribute_kind_index boolean_kind = 1
attribute_kind_index enum_kind = 2
attribute_kind_index index_vector_kind = 3
attribute_kind_index type_kind = 4

abbrev pub attribute_kind_beq : AttributeKind → AttributeKind → Bool
attribute_kind_beq a b = nat_beq (attribute_kind_index a) (attribute_kind_index b)

pub attribute_kind_beq_iff : (a b : AttributeKind) → (attribute_kind_beq a b ≡ true) ↔ (a ≡ b)
attribute_kind_beq_iff a b = ground arith

instance abbrev pub attribute_kind_eq : Eq AttributeKind
attribute_kind_eq = record { beq = attribute_kind_beq; beq_iff = attribute_kind_beq_iff }

abbrev bool_beq : Bool → Bool → Bool
bool_beq true b = b
bool_beq false b = not b

abbrev pub attribute_value_beq : AttributeValue → AttributeValue → Bool
attribute_value_beq (integer a) (integer b) = int_beq a b
attribute_value_beq (boolean a) (boolean b) = bool_beq a b
attribute_value_beq (enum_key a) (enum_key b) = list_beq a b
attribute_value_beq (index_vector a) (index_vector b) = list_beq a b
attribute_value_beq (value_type a) (value_type b) = value_type_beq a b
attribute_value_beq _ _ = false

pub attribute_value_beq_iff : (a b : AttributeValue) → (attribute_value_beq a b ≡ true) ↔ (a ≡ b)
attribute_value_beq_iff (integer a) (integer b) = ground (arith, int_beq_iff a b)
attribute_value_beq_iff (boolean a) (boolean b) = ground arith
attribute_value_beq_iff (enum_key a) (enum_key b) = ground (arith, list_beq_iff a b)
attribute_value_beq_iff (index_vector a) (index_vector b) = ground (arith, list_beq_iff a b)
attribute_value_beq_iff (value_type a) (value_type b) = ground (arith, value_type_beq_iff a b)
attribute_value_beq_iff a b = ground arith

pub record OperationAttribute : Type 0 where
  pub key : Text
  pub value : AttributeValue

abbrev pub attribute_beq : OperationAttribute → OperationAttribute → Bool
attribute_beq a b = list_beq a.key b.key && attribute_value_beq a.value b.value

pub attribute_beq_iff : (a b : OperationAttribute) → (attribute_beq a b ≡ true) ↔ (a ≡ b)
attribute_beq_iff a b =
    ground (arith, list_beq_iff a.key b.key, attribute_value_beq_iff a.value b.value)

instance abbrev pub attribute_eq : Eq OperationAttribute
attribute_eq = record { beq = attribute_beq; beq_iff = attribute_beq_iff }

-- `operation_attributes`: what `create` returns, sorted by key.
abbrev pub OperationAttributes : Type 0
OperationAttributes = List OperationAttribute

-- The loop over the sorted attributes; `previous` is the key at `index - 1`.
unfoldable pub check_keys : Option Text → List OperationAttribute → Result (Unit {0})
check_keys previous [] = ok tt
check_keys previous (a ∷ as') = do
  require (not (is_empty a.key)) "ir.attribute.empty_key"
  require (not (previous == some a.key)) "ir.attribute.duplicate"
  check_keys (some a.key) as'

unfoldable pub create : List OperationAttribute → Result OperationAttributes
unfolding check_keys
create attributes = do
  let normalized = stable_sort (λ a b. text_lt a.key b.key) attributes
  check_keys none normalized
  ok normalized

-- `std::ranges::lower_bound` by key on a range sorted by key, and the test that follows it.
unfoldable pub find : OperationAttributes → Text → Option AttributeValue
find [] k = none
find (a ∷ as') k = if text_lt a.key k then find as' k else if a.key == k then some a.value else none
