-- ===== src/Tests/Evaluators.antt =====
-- lib/canonicalizer/evaluator_catalogue.cpp on words.
use sivra.Prelude.{ℕ, ◌≡◌, refl, true, List, [], ◌∷◌, arith, All, map, some}
use mathlib.Core.List.{Permᴰ, Perm}
use sivra.Prelude.Words.{signed_u32}
use sivra.Ir.ValueType.{i32}
use sivra.Canonicalizer.Evaluator.{evaluated_constant, evaluate_builtin}
use sivra.Canonicalizer.Evaluator.Arithmetic.{
  minimum, FloatArithmetic, is_commutative, accepts_operand_count, supports_result_type,
  evaluate_i32, i32_step,
}
use sivra.Canonicalizer.Evaluator.Steps.{IsWord}
use sivra.Canonicalizer.Evaluator.Values.{word_constant, evaluate_builtin-i32}
use sivra.Canonicalizer.Evaluator.Folds.{interpret, interpret-perm}

-- `-1`, `1` and `INT32_MIN`.
abbrev words : List ℕ
words = 0xFFFF_FFFF ∷ 1 ∷ 0x8000_0000 ∷ []

abbrev turned : List ℕ
turned = 1 ∷ 0xFFFF_FFFF ∷ 0x8000_0000 ∷ []

turned-Perm : Perm words turned
turned-Perm = ∣ Permᴰ.swap {a = 0xFFFF_FFFF} {b = 1} refl refl ∣₁

smallest : evaluate_i32 minimum 0xFFFF_FFFF (1 ∷ 0x8000_0000 ∷ []) ≡ 0x8000_0000
unfolding evaluate_i32 i32_step signed_u32
smallest = refl

minimum-commutes : is_commutative minimum ≡ true
unfolding is_commutative
minimum-commutes = refl

words-IsWord : All IsWord words
words-IsWord = (omega arith, (omega arith, (omega arith, tt)))

interpret-perm_example : interpret minimum words ≡ interpret minimum turned
interpret-perm_example =
    interpret-perm minimum words turned minimum-commutes words-IsWord turned-Perm

-- The builtin arithmetic on floats, here with constant results: no integer run reads it.
abbrev no_float : FloatArithmetic
no_float = record {
  float_add = λ a b. 0;
  float_multiply = λ a b. 0;
  float_subtract = λ a b. 0;
  float_divide = λ a b. 0;
  float_maximum = λ a b. 0;
  float_minimum = λ a b. 0;
  float_sqrt = λ a. 0;
}

minimum-accepts : accepts_operand_count minimum 3 ≡ true
unfolding accepts_operand_count
minimum-accepts = refl

minimum-supported : supports_result_type minimum i32 ≡ true
unfolding supports_result_type
minimum-supported = refl

evaluate_builtin-i32_example :
    evaluate_builtin no_float minimum (map word_constant words) [] i32
    ≡ some (evaluated_constant (word_constant (interpret minimum words)))
evaluate_builtin-i32_example =
    evaluate_builtin-i32 no_float minimum words minimum-accepts minimum-supported words-IsWord
