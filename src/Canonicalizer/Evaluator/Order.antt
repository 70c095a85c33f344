-- ===== src/Canonicalizer/Evaluator/Order.antt =====
-- lib/canonicalizer/evaluator_catalogue.cpp: the order in which commutative operands are combined.
use Prim.Native.Nat.{zero, suc}
use sivra.Prelude.{ℕ, ◌+◌, Bool, true, false, if◌then◌else◌, ltb, none, some, ◌==◌, nat_eq}
use sivra.Ir.ValueType.{value_type_eq, kind_eq, category_eq}
use sivra.Ir.Constant.{
  ScalarConstant, f32_constant, i32_constant, ConstantValue, element, element_count, is_splat,
}
use sivra.Ir.Operation.{operation_key_eq}
use sivra.Canonicalizer.Evaluator.Arithmetic.{canonical_f32_bits}

unfoldable pub sortable_bits : ScalarConstant → ℕ
sortable_bits (f32_constant bits) = canonical_f32_bits bits
sortable_bits (i32_constant bits) = bits

-- The constants compared have one type, so that both have the element read here.
abbrev sortable_element : ConstantValue → ℕ → ℕ
sortable_element c i = elim (element c i) [ none ↦ 0 | some e ↦ sortable_bits e ]

abbrev less_bool : Bool → Bool → Bool
less_bool false b = b
less_bool true b = false

-- The loop of `constant_less`, with the rounds left and the index.
unfoldable pub less_from : ConstantValue → ConstantValue → ℕ → ℕ → Bool
less_from l r zero index = less_bool (is_splat l) (is_splat r)
less_from l r (suc rounds) index =
    let rest = less_from l r rounds (index + 1) in
    if sortable_element l index == sortable_element r index
    then rest
    else ltb (sortable_element l index) (sortable_element r index)

unfoldable pub constant_less : ConstantValue → ConstantValue → Bool
unfolding less_from
constant_less l r = less_from l r (element_count l) 0
