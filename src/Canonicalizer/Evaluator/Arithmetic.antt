-- ===== src/Canonicalizer/Evaluator/Arithmetic.antt =====
-- lib/canonicalizer/evaluator_catalogue.cpp: the builtin operations on the bits of one lane.
use sivra.Prelude.{
  ℕ, Bool, true, false, ◌&&◌, ◌||◌, not, if◌then◌else◌, leb, List, [], ◌∷◌, bit_and, bit_or,
  bit_xor, ◌==◌, nat_eq,
}
use sivra.Prelude.Int.{leb_ℤ}
use sivra.Prelude.Words.{add_u32, mul_u32, sub_u32, not_u32, signed_u32}
use sivra.Ir.ValueType.{
  ValueType, floating_point, signed_integer, value_type_eq, kind_eq, category_eq,
}
use sivra.Ir.Operation.{operation_key_eq}

pub data BuiltinEvaluation : Type 0 where
  add multiply subtract divide maximum minimum sqrt reciprocal reciprocal_sqrt square bit_and_op
        bit_and_not bit_or_op bit_xor_op copy :
      BuiltinEvaluation

-- The arithmetic of `float`, on bit patterns: the language's, with the library's `sqrt`, `fmax` and
-- `fmin`.
pub record FloatArithmetic : Type 0 where
  pub float_add : ℕ → ℕ → ℕ
  pub float_multiply : ℕ → ℕ → ℕ
  pub float_subtract : ℕ → ℕ → ℕ
  pub float_divide : ℕ → ℕ → ℕ
  pub float_maximum : ℕ → ℕ → ℕ
  pub float_minimum : ℕ → ℕ → ℕ
  pub float_sqrt : ℕ → ℕ

-- The bits of `1.0F`.
abbrev pub float_one : ℕ
float_one = 0x3F80_0000

unfoldable pub is_commutative : BuiltinEvaluation → Bool
is_commutative add = true
is_commutative multiply = true
is_commutative maximum = true
is_commutative minimum = true
is_commutative bit_and_op = true
is_commutative bit_or_op = true
is_commutative bit_xor_op = true
is_commutative _ = false

unfoldable pub accepts_operand_count : BuiltinEvaluation → ℕ → Bool
accepts_operand_count sqrt n = n == 1
accepts_operand_count reciprocal n = n == 1
accepts_operand_count reciprocal_sqrt n = n == 1
accepts_operand_count square n = n == 1
accepts_operand_count copy n = n == 1
accepts_operand_count subtract n = n == 2
accepts_operand_count divide n = n == 2
accepts_operand_count bit_and_not n = n == 2
accepts_operand_count _ n = leb 2 n

abbrev needs_float : BuiltinEvaluation → Bool
needs_float divide = true
needs_float sqrt = true
needs_float reciprocal = true
needs_float reciprocal_sqrt = true
needs_float _ = false

unfoldable pub supports_result_type : BuiltinEvaluation → ValueType → Bool
supports_result_type ev t =
    t.element_bit_width == 32
    && (t.category == floating_point || not (needs_float ev) && t.category == signed_integer)

unfoldable pub canonical_f32_bits : ℕ → ℕ
canonical_f32_bits bits =
    if bit_and bits 0x7FFF_FFFF == 0
    then 0
    else if bit_and bits 0x7F80_0000 == 0x7F80_0000 && not (bit_and bits 0x007F_FFFF == 0)
    then 0x7FC0_0000
    else bits

abbrev pub fold_bits : (ℕ → ℕ → ℕ) → ℕ → List ℕ → ℕ
fold_bits step acc [] = acc
fold_bits step acc (x ∷ xs) = fold_bits step (step acc x) xs

-- One round of the loop over the further operands, for `int32_t`.
unfoldable pub i32_step : BuiltinEvaluation → ℕ → ℕ → ℕ
i32_step add bits rhs = add_u32 bits rhs
i32_step multiply bits rhs = mul_u32 bits rhs
i32_step subtract bits rhs = sub_u32 bits rhs
i32_step bit_and_op bits rhs = bit_and bits rhs
i32_step bit_and_not bits rhs = bit_and (not_u32 bits) rhs
i32_step bit_or_op bits rhs = bit_or bits rhs
i32_step bit_xor_op bits rhs = bit_xor bits rhs
i32_step maximum bits rhs = if not (leb_ℤ (signed_u32 rhs) (signed_u32 bits)) then rhs else bits
i32_step minimum bits rhs = if not (leb_ℤ (signed_u32 bits) (signed_u32 rhs)) then rhs else bits
i32_step _ bits rhs = bits

unfoldable pub evaluate_i32 : BuiltinEvaluation → ℕ → List ℕ → ℕ
evaluate_i32 copy first rest = first
evaluate_i32 square first rest = mul_u32 first first
evaluate_i32 ev first rest = fold_bits (i32_step ev) first rest

module _ (float : FloatArithmetic) where
  open float use {
    float_add, float_multiply, float_subtract, float_divide, float_maximum, float_minimum,
    float_sqrt,
  }

  unfoldable pub f32_step : BuiltinEvaluation → ℕ → ℕ → ℕ
  f32_step add value rhs = float_add value rhs
  f32_step multiply value rhs = float_multiply value rhs
  f32_step subtract value rhs = float_subtract value rhs
  f32_step divide value rhs = float_divide value rhs
  f32_step maximum value rhs = float_maximum value rhs
  f32_step minimum value rhs = float_minimum value rhs
  f32_step _ value rhs = value

  unfoldable pub evaluate_f32 : BuiltinEvaluation → ℕ → List ℕ → ℕ
  unfolding f32_step
  evaluate_f32 copy first rest = first
  evaluate_f32 bit_and_op first rest = fold_bits (i32_step bit_and_op) first rest
  evaluate_f32 bit_and_not first rest = fold_bits (i32_step bit_and_not) first rest
  evaluate_f32 bit_or_op first rest = fold_bits (i32_step bit_or_op) first rest
  evaluate_f32 bit_xor_op first rest = fold_bits (i32_step bit_xor_op) first rest
  evaluate_f32 sqrt first rest = canonical_f32_bits (float_sqrt first)
  evaluate_f32 reciprocal first rest = canonical_f32_bits (float_divide float_one first)
  evaluate_f32 reciprocal_sqrt first rest =
      canonical_f32_bits (float_divide float_one (float_sqrt first))
  evaluate_f32 square first rest = canonical_f32_bits (float_multiply first first)
  evaluate_f32 ev first rest = canonical_f32_bits (fold_bits (f32_step ev) first rest)
