-- ===== src/Ir/Constant/Laws.antt =====
-- The factories of lib/ir/constant.cpp against the reads of a constant.
use sivra.Prelude.{
  ℕ, zero, suc, ◌≡◌, ◌⊎◌, inl, inr, true, lt→ltb, List, [], ◌∷◌, some, length, get_elem?, arith,
  refl, ◌<◌,
}
use sivra.Core.Result.{ok}
use sivra.Ir.ValueType.{ValueType}
use sivra.Ir.Constant.{
  ScalarConstant, ConstantValue, matches_type, validate_element, validate_elements, make_scalar,
  make_splat, make_aggregate, element_count, element, IsMade,
}

validate_elements-get :
    (cs : List ScalarConstant) (t : ValueType) (i : ℕ)
    → validate_elements cs t ≡ ok tt
    → i < length cs
    → (c : ScalarConstant) × (get_elem? cs i ≡ some c) × (matches_type c t ≡ true)
unfolding validate_elements validate_element
validate_elements-get [] t i h lt = absurd (omega arith)
validate_elements-get (c ∷ cs) t zero h lt = (c, refl, ground arith)
validate_elements-get (c ∷ cs) t (suc i) h lt =
    validate_elements-get cs t i (ground arith) (omega arith)

make_scalar-IsMade :
    (t : ValueType) (c : ScalarConstant) {v : ConstantValue} → make_scalar t c ≡ ok v → IsMade v
unfolding make_scalar validate_element element
make_scalar-IsMade t c h lane lt = (c, ground arith, ground arith)

make_splat-IsMade :
    (t : ValueType) (c : ScalarConstant) {v : ConstantValue} → make_splat t c ≡ ok v → IsMade v
unfolding make_splat validate_element element
make_splat-IsMade t c h lane lt = (c, ground arith, ground arith)

make_aggregate-IsMade :
    (t : ValueType) (cs : List ScalarConstant) {v : ConstantValue}
    → make_aggregate t cs ≡ ok v
    → IsMade v
unfolding make_aggregate element
make_aggregate-IsMade t cs h lane lt =
    let (c, e, m) = validate_elements-get cs t lane (ground arith) (ground arith) in
    (c, ground arith, ground arith)

made-IsMade :
    (t : ValueType) (c : ScalarConstant) (cs : List ScalarConstant) (v : ConstantValue)
    → (make_scalar t c ≡ ok v) ⊎ (make_splat t c ≡ ok v) ⊎ (make_aggregate t cs ≡ ok v)
    → IsMade v
made-IsMade t c cs v (inl h) = make_scalar-IsMade t c h
made-IsMade t c cs v (inr (inl h)) = make_splat-IsMade t c h
made-IsMade t c cs v (inr (inr h)) = make_aggregate-IsMade t cs h

-- Whichever of the three factories made it, a constant has in each lane below its element count an
-- element of its type's own kind, so reading that lane never throws.
pub element-made :
    (t : ValueType) (c : ScalarConstant) (cs : List ScalarConstant) (v : ConstantValue) (lane : ℕ)
    → (make_scalar t c ≡ ok v) ⊎ (make_splat t c ≡ ok v) ⊎ (make_aggregate t cs ≡ ok v)
    → lane < element_count v
    → (e : ScalarConstant) × (element v lane ≡ some e) × (matches_type e v.result_type ≡ true)
element-made t c cs v lane h lt = made-IsMade t c cs v h lane (lt→ltb _ _ lt)
