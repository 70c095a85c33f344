-- ===== src/Canonicalizer/Rules/Denotes.antt =====
-- What a declared constant of include/sivra/ir/operation.hpp stands for, against the tests of
-- lib/canonicalizer/detail/match.cpp.
use sivra.Prelude.{
  ℕ, ◌≡◌, ◌∙◌, map, All, true, if◌then◌else◌, List, [], ◌∷◌, some, length, length-map, all, arith,
  ◌==◌, nat_eq, ==→≡,
}
use sivra.Ir.ValueType.{
  ValueType, vector, kind_eq, floating_point, signed_integer, value_type_eq, category_eq,
}
use sivra.Ir.Constant.{
  ScalarConstant, f32_constant, i32_constant, ConstantValue, matches_type, scalar_constant_eq,
}
use sivra.Ir.Ids.{NodeId}
use sivra.Ir.Operation.{
  WellKnownConstant, zero, one, all_bits_set, OperationConstant, well_known, explicit,
}
use sivra.Ir.Graph.{ExpressionGraph, ExpressionNode, ExpressionPayload, at}
use sivra.Ir.Structural.{elements_of}
use sivra.Ir.Structural.Meaning.{Meaning, IsModel}
use sivra.Canonicalizer.Rules.Match.{matches_well_known_constant, matches_operation_constant}

abbrev float_bits : WellKnownConstant → ℕ
float_bits zero = 0
float_bits one = 0x3F80_0000
float_bits all_bits_set = 0xFFFF_FFFF

abbrev integer_bits : WellKnownConstant → ℕ
integer_bits zero = 0
integer_bits one = 1
integer_bits all_bits_set = 0xFFFF_FFFF

-- The type is that of the element.
abbrev IsOf : ScalarConstant → ValueType → Type 0
IsOf (f32_constant bits) t = (t.category ≡ floating_point) × (t.element_bit_width ≡ 32)
IsOf (i32_constant bits) t = (t.category ≡ signed_integer) × (t.element_bit_width ≡ 32)

-- The element that a declared constant stands for: +0.0 or 0, 1.0 or 1, the bits that are all set, or the
-- element it holds, on a type of its own.
abbrev pub Denotes : OperationConstant → ValueType → ScalarConstant → Type 0
Denotes (well_known k) t (f32_constant bits) = bits ≡ float_bits k
Denotes (well_known k) t (i32_constant bits) = bits ≡ integer_bits k
Denotes (explicit declared) t e = (e ≡ declared) × IsOf declared t

-- One lane for all types but vectors.
abbrev pub lanes : ValueType → ℕ
lanes t = if t.kind == vector then t.lane_count else 1

-- The value of a constant of type `t` whose elements, one for each lane, are all what `k` stands for.
abbrev pub IsConstant : {D : Type 0} → Meaning D → ValueType → OperationConstant → D → Type 0
IsConstant m t k x =
    (es : List ScalarConstant) × (length es ≡ lanes t)
    × All (Denotes k t) es
    × (x ≡ m.of_constant t es)

-- The element, with 0.0 for -0.0.
abbrev pub without_sign : ScalarConstant → ScalarConstant
without_sign (f32_constant bits) = f32_constant (if bits == 0x8000_0000 then 0 else bits)
without_sign (i32_constant bits) = i32_constant bits

-- No constant of the graph has another value for a -0.0 in it than for a 0.0.
abbrev pub IgnoresZeroSigns : {D : Type 0} → Meaning D → ExpressionGraph → Type 0
IgnoresZeroSigns m g =
    (id : NodeId) (n : ExpressionNode) (v : ConstantValue) (es : List ScalarConstant)
    → at g id ≡ some n
    → n.payload ≡ ExpressionPayload.constant v
    → elements_of v ≡ some es
    → m.of_constant n.result_type es ≡ m.of_constant n.result_type (map without_sign es)

-- What the matching needs of the values.
abbrev pub Reads : {D : Type 0} → Meaning D → ExpressionGraph → (NodeId → D) → Type 0
Reads m g values = IsModel m g values × IgnoresZeroSigns m g

zero-Denotes :
    (t : ValueType) (es : List ScalarConstant)
    → all (λ e. matches_operation_constant e (well_known zero) t) es ≡ true
    → All (Denotes (well_known zero) t) (map without_sign es)
unfolding matches_operation_constant matches_well_known_constant
zero-Denotes t [] h = tt
zero-Denotes t (f32_constant bits ∷ es) h = (ground arith, zero-Denotes t es (ground arith))
zero-Denotes t (i32_constant bits ∷ es) h = (ground arith, zero-Denotes t es (ground arith))

one-Denotes :
    (t : ValueType) (es : List ScalarConstant)
    → all (λ e. matches_operation_constant e (well_known one) t) es ≡ true
    → All (Denotes (well_known one) t) es
unfolding matches_operation_constant matches_well_known_constant
one-Denotes t [] h = tt
one-Denotes t (f32_constant bits ∷ es) h = (ground arith, one-Denotes t es (ground arith))
one-Denotes t (i32_constant bits ∷ es) h = (ground arith, one-Denotes t es (ground arith))

all_bits_set-Denotes :
    (t : ValueType) (es : List ScalarConstant)
    → all (λ e. matches_operation_constant e (well_known all_bits_set) t) es ≡ true
    → All (Denotes (well_known all_bits_set) t) es
unfolding matches_operation_constant matches_well_known_constant
all_bits_set-Denotes t [] h = tt
all_bits_set-Denotes t (f32_constant bits ∷ es) h =
    (ground arith, all_bits_set-Denotes t es (ground arith))
all_bits_set-Denotes t (i32_constant bits ∷ es) h =
    (ground arith, all_bits_set-Denotes t es (ground arith))

matches_type-IsOf : (e : ScalarConstant) (t : ValueType) → matches_type e t ≡ true → IsOf e t
unfolding matches_type
matches_type-IsOf (f32_constant bits) t h =
    (==→≡ t.category floating_point (ground arith), ground arith)
matches_type-IsOf (i32_constant bits) t h =
    (==→≡ t.category signed_integer (ground arith), ground arith)

explicit-Denotes :
    (declared : ScalarConstant) (t : ValueType) (es : List ScalarConstant)
    → all (λ e. matches_operation_constant e (explicit declared) t) es ≡ true
    → All (Denotes (explicit declared) t) es
unfolding matches_operation_constant
explicit-Denotes declared t [] h = tt
explicit-Denotes declared t (e ∷ es) h = (
  (==→≡ e declared (ground arith), matches_type-IsOf declared t (ground arith)),
  explicit-Denotes declared t es (ground arith),
)

-- Elements that match are what the constant stands for, but for the sign of a zero.
pub matching-Denotes :
    {D : Type 0} (m : Meaning D) (k : OperationConstant) (t : ValueType) (es : List ScalarConstant)
    (x : D)
    → all (λ e. matches_operation_constant e k t) es ≡ true
    → length es ≡ lanes t
    → m.of_constant t es ≡ m.of_constant t (map without_sign es)
    → x ≡ m.of_constant t es
    → IsConstant m t k x
matching-Denotes m (well_known zero) t es x h l same e =
    (map without_sign es, length-map es without_sign ∙ l, zero-Denotes t es h, e ∙ same)
matching-Denotes m (well_known one) t es x h l same e = (es, l, one-Denotes t es h, e)
matching-Denotes m (well_known all_bits_set) t es x h l same e =
    (es, l, all_bits_set-Denotes t es h, e)
matching-Denotes m (explicit declared) t es x h l same e =
    (es, l, explicit-Denotes declared t es h, e)
