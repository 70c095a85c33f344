-- ===== src/Canonicalizer/Evaluator/Values.antt =====
-- The whole evaluation of lib/canonicalizer/evaluator_catalogue.cpp on scalar `int32_t` constants.
use sivra.Prelude.{
  ℕ, ◌≡◌, refl, sym, Bool, true, Bool-cases, inl, inr, List, [], ◌∷◌, map, All, all, length,
  length-map, some, traverse, ◌==◌, ◌<◌, arith, if◌then◌else◌,
}
use mathlib.Core.List.Permᴰ
use sivra.Prelude.Sort.{stable_sort, stable_sort-perm, stable_sort-map, length-perm}
use sivra.Ir.ValueType.{i32, value_type_eq}
use sivra.Ir.Constant.{
  i32_constant, ConstantValue, single, element, element_count, make_scalar, validate_element,
  matches_type,
}
use sivra.Canonicalizer.Evaluator.{
  evaluated_constant, evaluate_scalar, evaluate_builtin, ordered_operands, get_i32,
}
use sivra.Canonicalizer.Evaluator.Arithmetic.{
  BuiltinEvaluation, FloatArithmetic, is_commutative, accepts_operand_count, supports_result_type,
  evaluate_i32,
}
use sivra.Canonicalizer.Evaluator.Order.{constant_less}
use sivra.Canonicalizer.Evaluator.Steps.{IsWord}
use sivra.Canonicalizer.Evaluator.Folds.{interpret, interpret-perm}

-- The scalar constant with these bits.
abbrev pub word_constant : ℕ → ConstantValue
word_constant bits = record { result_type = i32; storage = single (i32_constant bits) }

abbrev less_word : ℕ → ℕ → Bool
less_word a b = constant_less (word_constant a) (word_constant b)

-- The words in the order in which the operands are combined.
abbrev ordered_words : BuiltinEvaluation → List ℕ → List ℕ
ordered_words ev bits = if is_commutative ev then stable_sort less_word bits else bits

ordered_operands-words :
    (ev : BuiltinEvaluation) (bits : List ℕ)
    → ordered_operands ev (map word_constant bits) ≡ map word_constant (ordered_words ev bits)
unfolding ordered_operands
ordered_operands-words ev bits = elim (Bool-cases (is_commutative ev)) [
  | inl commutes ↦ rw commutes (stable_sort-map constant_less word_constant bits)
  | inr fixed ↦ rw fixed refl
]

read_words :
    (bits : List ℕ) → traverse (λ c. get_i32 (element c 0)) (map word_constant bits) ≡ some bits
unfolding element element_count
read_words [] = refl
read_words (b ∷ bs) = rw (read_words bs) refl

interpret-ordered :
    (ev : BuiltinEvaluation) (bits : List ℕ)
    → All IsWord bits
    → interpret ev (ordered_words ev bits) ≡ interpret ev bits
interpret-ordered ev bits words = elim (Bool-cases (is_commutative ev)) [
  | inl commutes ↦ rw commutes (
      sym (
        interpret-perm ev bits (stable_sort less_word bits) commutes words
          ∣ Permᴰ.symm (stable_sort-perm less_word bits) ∣₁))
  | inr fixed ↦ rw fixed refl
]

-- All operands of the right type, as the test before the evaluation wants them.
words-typed :
    (bits : List ℕ)
    → all (λ (c : ConstantValue). c.result_type == i32) (map word_constant bits) ≡ true
words-typed [] = refl
words-typed (b ∷ bs) = words-typed bs

module _ (float : FloatArithmetic) where
  evaluate_scalar-words :
      (ev : BuiltinEvaluation) (x : ℕ) (xs : List ℕ)
      → evaluate_scalar float ev (map word_constant (x ∷ xs)) 0 i32
        ≡ some (i32_constant (evaluate_i32 ev x xs))
  unfolding evaluate_scalar
  evaluate_scalar-words ev x xs = rw (read_words (x ∷ xs)) refl

  evaluate_scalar-nonempty :
      (ev : BuiltinEvaluation) (bits : List ℕ)
      → 0 < length bits
      → evaluate_scalar float ev (map word_constant bits) 0 i32
        ≡ some (i32_constant (interpret ev bits))
  evaluate_scalar-nonempty ev [] h = absurd (omega arith)
  evaluate_scalar-nonempty ev (x ∷ xs) h = evaluate_scalar-words ev x xs

accepts-nonempty : (ev : BuiltinEvaluation) (n : ℕ) → accepts_operand_count ev n ≡ true → 0 < n
unfolding accepts_operand_count
accepts-nonempty ev n h = ground arith

length-ordered_words :
    (ev : BuiltinEvaluation) (bits : List ℕ) → length (ordered_words ev bits) ≡ length bits
length-ordered_words ev bits = elim (Bool-cases (is_commutative ev)) [
  | inl commutes ↦ rw commutes (length-perm (stable_sort-perm less_word bits))
  | inr fixed ↦ rw fixed refl
]

-- On scalar `int32_t` constants of 32 bits and without attributes, an operation that accepts their number and
-- their type always evaluates, without an exception, to the constant with the value of its loop on the
-- operands in the order given, even where it sorts them first.
pub evaluate_builtin-i32 :
    (float : FloatArithmetic) (ev : BuiltinEvaluation) (bits : List ℕ)
    → accepts_operand_count ev (length bits) ≡ true
    → supports_result_type ev i32 ≡ true
    → All IsWord bits
    → evaluate_builtin float ev (map word_constant bits) [] i32
      ≡ some (evaluated_constant (word_constant (interpret ev bits)))
unfolding evaluate_builtin make_scalar validate_element matches_type
evaluate_builtin-i32 float ev bits accepted supported words =
    rw
      (
        length-map bits word_constant,
        accepted,
        supported,
        words-typed bits,
        ordered_operands-words ev bits,
        evaluate_scalar-nonempty float ev (ordered_words ev bits)
            (rw (length-ordered_words ev bits) (accepts-nonempty ev (length bits) accepted)),
        interpret-ordered ev bits words,
      )
      refl
