-- ===== src/Ir/Constant.antt =====
-- lib/ir/constant.cpp: constants, one element or one for each lane, held as bit patterns.
pub mod Laws
use sivra.Prelude.{
  ℕ, zero, suc, ◌≡◌, ◌↔◌, Bool, true, false, ◌&&◌, not, if◌then◌else◌, ltb, List, [], ◌∷◌, Option,
  none, some, length, get_elem?, ◌==◌, Eq, nat_eq, list_eq, nat_beq, list_beq, list_beq_iff, arith,
}
use sivra.Core.Result.{Result, ok, err, fail, require, ◌>>=◌, ◌>>◌}
use sivra.Ir.ValueType.{
  ValueType, ValueTypeKind, ScalarCategory, scalar, vector, floating_point, signed_integer,
  value_type_eq, value_type_beq, value_type_beq_iff, kind_eq, category_eq,
}

-- `f32_constant` and `i32_constant` both hold the `uint32_t` of their bits.
pub data ScalarConstant : Type 0 where
  f32_constant : ℕ → ScalarConstant
  i32_constant : ℕ → ScalarConstant

abbrev pub constant_bits : ScalarConstant → ℕ
constant_bits (f32_constant b) = b
constant_bits (i32_constant b) = b

abbrev pub scalar_constant_beq : ScalarConstant → ScalarConstant → Bool
scalar_constant_beq (f32_constant a) (f32_constant b) = nat_beq a b
scalar_constant_beq (f32_constant a) (i32_constant b) = false
scalar_constant_beq (i32_constant a) (f32_constant b) = false
scalar_constant_beq (i32_constant a) (i32_constant b) = nat_beq a b

pub scalar_constant_beq_iff : (a b : ScalarConstant) → (scalar_constant_beq a b ≡ true) ↔ (a ≡ b)
scalar_constant_beq_iff a b = ground arith

instance abbrev pub scalar_constant_eq : Eq ScalarConstant
scalar_constant_eq = record { beq = scalar_constant_beq; beq_iff = scalar_constant_beq_iff }

-- The variant `m_storage`: one element for all lanes, or one for each.
pub data ConstantStorage : Type 0 where
  single : ScalarConstant → ConstantStorage
  elements : List ScalarConstant → ConstantStorage

pub record ConstantValue : Type 0 where
  pub result_type : ValueType
  pub storage : ConstantStorage

unfoldable pub matches_type : ScalarConstant → ValueType → Bool
matches_type (f32_constant b) t = t.category == floating_point && t.element_bit_width == 32
matches_type (i32_constant b) t = t.category == signed_integer && t.element_bit_width == 32

unfoldable pub validate_element : ScalarConstant → ValueType → Result (Unit {0})
validate_element c t = require (matches_type c t) "ir.constant.type_mismatch"

unfoldable pub validate_elements : List ScalarConstant → ValueType → Result (Unit {0})
validate_elements [] t = ok tt
validate_elements (c ∷ cs) t = do validate_element c t; validate_elements cs t

unfoldable pub make_scalar : ValueType → ScalarConstant → Result ConstantValue
make_scalar t c = do
  require (t.kind == scalar) "ir.constant.invalid_shape"
  validate_element c t
  ok (record { result_type = t; storage = single c })

unfoldable pub make_splat : ValueType → ScalarConstant → Result ConstantValue
make_splat t c = do
  require (t.kind == vector) "ir.constant.invalid_shape"
  validate_element c t
  ok (record { result_type = t; storage = single c })

unfoldable pub make_aggregate : ValueType → List ScalarConstant → Result ConstantValue
make_aggregate t cs = do
  require (t.kind == vector) "ir.constant.invalid_shape"
  require (length cs == t.lane_count) "ir.constant.invalid_shape"
  validate_elements cs t
  ok (record { result_type = t; storage = elements cs })

unfoldable pub element_count : ConstantValue → ℕ
element_count c = if c.result_type.kind == vector then c.result_type.lane_count else 1

abbrev is_single : ConstantStorage → Bool
is_single (single c) = true
is_single (elements cs) = false

unfoldable pub is_splat : ConstantValue → Bool
is_splat c = c.result_type.kind == vector && is_single c.storage

abbrev stored : ConstantStorage → ℕ → Option ScalarConstant
stored (single c) i = some c
stored (elements cs) i = get_elem? cs i

-- `none` is the exception `std::out_of_range`.
unfoldable pub element : ConstantValue → ℕ → Option ScalarConstant
unfolding element_count
element c i = if ltb i (element_count c) then stored c.storage i else none

-- What the factories guarantee of a constant: each lane has an element, of the type's own kind.
abbrev pub IsMade : ConstantValue → Type 0
IsMade v =
    (lane : ℕ)
    → ltb lane (element_count v) ≡ true
    → (c : ScalarConstant) × (element v lane ≡ some c) × (matches_type c v.result_type ≡ true)
