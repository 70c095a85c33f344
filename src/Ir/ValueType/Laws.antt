-- ===== src/Ir/ValueType/Laws.antt =====
-- The factories of lib/ir/value_type.cpp against its validation.
use sivra.Prelude.{ℕ, ◌*◌, ◌/◌, ◌≤◌, ◌≡◌, ◌↔◌, ◌⊎◌, ◌<◌, arith}
use sivra.Core.Result.{ok}
use sivra.Ir.ValueType.{
  ValueType, vector, unknown_type, scalar_type, vector_type, validate, bit_width, u32_max,
}

pub div-mul-le : (a b c : ℕ) → 0 < b → c ≤ a / b → b * c ≤ a
div-mul-le a b c p h = grind arith

-- The type of a value, if its kind is not `unknown`, that the factories can return.
abbrev pub IsMade : ValueType → Type 0
IsMade t =
    (t ≡ unknown_type t.element_bit_width)
    ⊎ (scalar_type t.category t.element_bit_width ≡ ok t)
    ⊎ (vector_type t.category t.element_bit_width t.lane_count ≡ ok t)

-- `validate` accepts exactly the types that a factory makes.
pub validate_iff_made : (t : ValueType) → (validate t ≡ ok tt) ↔ IsMade t
unfolding validate unknown_type scalar_type vector_type
validate_iff_made t = ground arith

-- The width of a valid vector is the true product: the check in `vector` rules out a wrap-around.
pub bit_width_exact :
    (t : ValueType)
    → validate t ≡ ok tt
    → t.kind ≡ vector
    → (bit_width t ≡ t.element_bit_width * t.lane_count)
      × (t.element_bit_width * t.lane_count ≤ u32_max)
unfolding validate bit_width
bit_width_exact t h k = ground (arith, div-mul-le u32_max t.element_bit_width t.lane_count)
