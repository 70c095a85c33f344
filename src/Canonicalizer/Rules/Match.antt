-- ===== src/Canonicalizer/Rules/Match.antt =====
-- lib/canonicalizer/detail/match.cpp: whether an operand is a constant that an operation declares.
use sivra.Prelude.{
  ◌-◌, ◌^◌, Bool, false, ◌&&◌, ◌||◌, List, [], ◌∷◌, Option, none, some, all, any, ◌==◌, nat_eq,
}
use sivra.Ir.ValueType.{ValueType, scalar, vector, value_type_eq, kind_eq, category_eq}
use sivra.Ir.Constant.{
  ScalarConstant, f32_constant, i32_constant, ConstantValue, scalar_constant_eq, matches_type,
}
use sivra.Ir.Ids.{NodeId}
use sivra.Ir.Operation.{
  WellKnownConstant, zero, one, all_bits_set, OperationConstant, well_known, explicit,
}
use sivra.Ir.Graph.{ExpressionNode, get_if_constant}
use sivra.Ir.Structural.{elements_of}
use sivra.Canonicalizer.Rewrite.{RewriteSubject, RewriteContext, node}

-- A float is equal to zero with either sign, and to one with the bits of one only.
unfoldable pub matches_well_known_constant : ScalarConstant → WellKnownConstant → Bool
matches_well_known_constant (f32_constant bits) zero = bits == 0 || bits == 0x8000_0000
matches_well_known_constant (f32_constant bits) one = bits == 0x3F80_0000
matches_well_known_constant (f32_constant bits) all_bits_set = bits == 2 ^ 32 - 1
matches_well_known_constant (i32_constant bits) zero = bits == 0
matches_well_known_constant (i32_constant bits) one = bits == 1
matches_well_known_constant (i32_constant bits) all_bits_set = bits == 2 ^ 32 - 1

unfoldable pub matches_operation_constant : ScalarConstant → OperationConstant → ValueType → Bool
matches_operation_constant actual (well_known k) t =
    (t.kind == scalar || t.kind == vector) && matches_well_known_constant actual k
matches_operation_constant actual (explicit e) t =
    (t.kind == scalar || t.kind == vector) && (matches_type e t && actual == e)

-- No factory makes a constant without an element for a lane, where the source would throw.
abbrev pub elements_match : OperationConstant → ValueType → Option (List ScalarConstant) → Bool
elements_match expected t none = false
elements_match expected t (some es) = all (λ e. matches_operation_constant e expected t) es

abbrev pub constant_matches : RewriteSubject → OperationConstant → Option ConstantValue → Bool
constant_matches s expected none = false
constant_matches s expected (some v) =
    v.result_type == s.result_type && elements_match expected s.result_type (elements_of v)

unfoldable pub constant_operand_matches : RewriteSubject → ExpressionNode → OperationConstant → Bool
constant_operand_matches s child expected =
    s.result_type == child.result_type && constant_matches s expected (get_if_constant child)

-- The constants that are given, out of three that may be.
abbrev pub present : Option OperationConstant → List OperationConstant → List OperationConstant
present none es = es
present (some e) es = e ∷ es

-- `operand_matches` for one constant after another; the node is read if there is any. `none` is an
-- exception.
unfoldable pub operand_matches :
    RewriteSubject → RewriteContext → NodeId → List OperationConstant → Option Bool
operand_matches s c o [] = some false
operand_matches s c o (e ∷ es) = elim (node c o) [
  | none ↦ none
  | some child ↦ some (any (constant_operand_matches s child) (e ∷ es))
]
