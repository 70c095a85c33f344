-- ===== src/Canonicalizer/Evaluator/Steps.antt =====
-- The step of the integer loop of lib/canonicalizer/evaluator_catalogue.cpp, for the operations that
-- it treats as commutative.
use sivra.Prelude.{ℕ, ◌+◌, ◌*◌, ◌/◌, ◌%◌, ◌^◌, ◌<◌, ◌≡◌, sym, ◌∙◌, ap, true, arith}
use native.Mathlib.Nat.{mul_comm, mul_assoc}
use sivra.Prelude.Words.{add_u32, mul_u32, signed_u32}
use sivra.Prelude.Words.Laws.{
  and_comm, or_comm, xor_comm, and_assoc, or_assoc, xor_assoc, and-lt, or-lt, xor-lt,
}
use sivra.Canonicalizer.Evaluator.Arithmetic.{
  BuiltinEvaluation, add, multiply, maximum, minimum, bit_and_op, bit_or_op, bit_xor_op,
  is_commutative, i32_step,
}

abbrev pub IsWord : ℕ → Type 0
IsWord a = a < 2 ^ 32

pub mul_u32_comm : (a b : ℕ) → mul_u32 a b ≡ mul_u32 b a
unfolding mul_u32
mul_u32_comm a b = ap (λ t. t % 2 ^ 32) (mul_comm a b)

pub mod-mul-mod : (x c : ℕ) → x % 2 ^ 32 * c % 2 ^ 32 ≡ x * c % 2 ^ 32
mod-mul-mod x c =
    let split : x ≡ x / 2 ^ 32 * 2 ^ 32 + x % 2 ^ 32 = omega arith in
    omega (arith, ap (λ (t : ℕ). t * c) split)

pub mul_u32_assoc : (a b c : ℕ) → mul_u32 (mul_u32 a b) c ≡ mul_u32 a (mul_u32 b c)
unfolding mul_u32
mul_u32_assoc a b c =
    mod-mul-mod (a * b) c
    ∙ ap (λ t. t % 2 ^ 32) (mul_assoc a b c ∙ mul_comm a (b * c))
    ∙ sym (mod-mul-mod (b * c) a)
    ∙ ap (λ t. t % 2 ^ 32) (mul_comm (b * c % 2 ^ 32) a)

pub i32_step_comm :
    (ev : BuiltinEvaluation) (a b : ℕ)
    → is_commutative ev ≡ true
    → IsWord a
    → IsWord b
    → i32_step ev a b ≡ i32_step ev b a
unfolding i32_step is_commutative
i32_step_comm add a b h p q = unfold add_u32 in omega arith
i32_step_comm multiply a b h p q = mul_u32_comm a b
i32_step_comm maximum a b h p q = unfold signed_u32 in ground arith
i32_step_comm minimum a b h p q = unfold signed_u32 in ground arith
i32_step_comm bit_and_op a b h p q = and_comm a b
i32_step_comm bit_or_op a b h p q = or_comm a b
i32_step_comm bit_xor_op a b h p q = xor_comm a b
i32_step_comm ev a b h p q = cc

pub i32_step_assoc :
    (ev : BuiltinEvaluation) (a b c : ℕ)
    → is_commutative ev ≡ true
    → IsWord a
    → IsWord b
    → IsWord c
    → i32_step ev (i32_step ev a b) c ≡ i32_step ev a (i32_step ev b c)
unfolding i32_step is_commutative
i32_step_assoc add a b c h p q r = unfold add_u32 in omega arith
i32_step_assoc multiply a b c h p q r = mul_u32_assoc a b c
i32_step_assoc maximum a b c h p q r = unfold signed_u32 in ground arith
i32_step_assoc minimum a b c h p q r = unfold signed_u32 in ground arith
i32_step_assoc bit_and_op a b c h p q r = and_assoc a b c
i32_step_assoc bit_or_op a b c h p q r = or_assoc a b c
i32_step_assoc bit_xor_op a b c h p q r = xor_assoc a b c
i32_step_assoc ev a b c h p q r = cc

pub i32_step-IsWord :
    (ev : BuiltinEvaluation) (a b : ℕ)
    → is_commutative ev ≡ true
    → IsWord a
    → IsWord b
    → IsWord (i32_step ev a b)
unfolding i32_step is_commutative
i32_step-IsWord add a b h p q = unfold add_u32 in omega arith
i32_step-IsWord multiply a b h p q = unfold mul_u32 in omega arith
i32_step-IsWord maximum a b h p q = ground arith
i32_step-IsWord minimum a b h p q = ground arith
i32_step-IsWord bit_and_op a b h p q = and-lt 32 a b p q
i32_step-IsWord bit_or_op a b h p q = or-lt 32 a b p q
i32_step-IsWord bit_xor_op a b h p q = xor-lt 32 a b p q
i32_step-IsWord ev a b h p q = cc
