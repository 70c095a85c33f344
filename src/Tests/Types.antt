-- ===== src/Tests/Types.antt =====
-- lib/ir/value_type.cpp and lib/ir/constant.cpp on a vector of four lanes.
use sivra.Prelude.{◌*◌, ◌≤◌, ◌<◌, ◌≡◌, ◌↔◌, refl, inr, true, List, [], ◌∷◌, some, arith}
use sivra.Core.Result.{ok}
use sivra.Ir.ValueType.{ValueType, vector, signed_integer, validate, bit_width, u32_max}
use sivra.Ir.ValueType.Laws.{IsMade, validate_iff_made, bit_width_exact}
use sivra.Ir.Constant.{
  ScalarConstant, f32_constant, i32_constant, ConstantValue, elements, matches_type,
  validate_element, validate_elements, make_aggregate, element, element_count,
}
use sivra.Ir.Constant.Laws.{element-made}

abbrev i32x4 : ValueType
i32x4 = record { kind = vector; category = signed_integer; element_bit_width = 32; lane_count = 4 }

i32x4-valid : validate i32x4 ≡ ok tt
unfolding validate
i32x4-valid = refl

vector_type_valid : (validate i32x4 ≡ ok tt) ↔ IsMade i32x4
vector_type_valid = validate_iff_made i32x4

bit_width_exact_example : (bit_width i32x4 ≡ 32 * 4) × (32 * 4 ≤ u32_max)
bit_width_exact_example = bit_width_exact i32x4 i32x4-valid refl

abbrev lanes : List ScalarConstant
lanes = i32_constant 1 ∷ i32_constant 2 ∷ i32_constant 3 ∷ i32_constant 4 ∷ []

abbrev vector_constant : ConstantValue
vector_constant = record { result_type = i32x4; storage = elements lanes }

made : make_aggregate i32x4 lanes ≡ ok vector_constant
unfolding make_aggregate validate_elements validate_element matches_type
made = refl

third : element vector_constant 2 ≡ some (i32_constant 3)
unfolding element
third = refl

bound : 2 < element_count vector_constant
unfolding element_count
bound = omega arith

element-made_example :
    (e : ScalarConstant) × (element vector_constant 2 ≡ some e) × (matches_type e i32x4 ≡ true)
element-made_example =
    element-made i32x4 (f32_constant 0) lanes vector_constant 2 (inr (inr made)) bound
