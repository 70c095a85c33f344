-- ===== src/Ir/ValueType.antt =====
-- lib/ir/value_type.cpp: the type of a value, with its factories and its validation.
pub mod Laws
use sivra.Prelude.{
  ℕ, ◌*◌, ◌/◌, ◌%◌, ◌^◌, ◌-◌, ◌≡◌, ◌↔◌, Bool, true, false, ◌&&◌, ◌||◌, not, if◌then◌else◌, ltb, leb,
  ◌==◌, Eq, nat_eq, nat_beq, arith, refl,
}
use sivra.Core.Result.{Result, ok, err, fail}

pub data ValueTypeKind : Type 0 where
  unknown scalar vector : ValueTypeKind

pub data ScalarCategory : Type 0 where
  unknown floating_point signed_integer unsigned_integer : ScalarCategory

-- The enumerators' values, in the order of the declaration.
abbrev pub kind_index : ValueTypeKind → ℕ
kind_index ValueTypeKind.unknown = 0
kind_index scalar = 1
kind_index vector = 2

abbrev pub category_index : ScalarCategory → ℕ
category_index ScalarCategory.unknown = 0
category_index floating_point = 1
category_index signed_integer = 2
category_index unsigned_integer = 3

pub record ValueType : Type 0 where
  pub kind : ValueTypeKind
  pub category : ScalarCategory
  pub element_bit_width : ℕ
  pub lane_count : ℕ

abbrev pub kind_beq : ValueTypeKind → ValueTypeKind → Bool
kind_beq a b = nat_beq (kind_index a) (kind_index b)

pub kind_beq_iff : (a b : ValueTypeKind) → (kind_beq a b ≡ true) ↔ (a ≡ b)
kind_beq_iff a b = ground arith

instance abbrev pub kind_eq : Eq ValueTypeKind
kind_eq = record { beq = kind_beq; beq_iff = kind_beq_iff }

abbrev pub category_beq : ScalarCategory → ScalarCategory → Bool
category_beq a b = nat_beq (category_index a) (category_index b)

pub category_beq_iff : (a b : ScalarCategory) → (category_beq a b ≡ true) ↔ (a ≡ b)
category_beq_iff a b = ground arith

instance abbrev pub category_eq : Eq ScalarCategory
category_eq = record { beq = category_beq; beq_iff = category_beq_iff }

-- The defaulted comparison, field by field.
abbrev pub value_type_beq : ValueType → ValueType → Bool
value_type_beq a b =
    kind_beq a.kind b.kind
    && category_beq a.category b.category
    && nat_beq a.element_bit_width b.element_bit_width
    && nat_beq a.lane_count b.lane_count

pub value_type_beq_iff : (a b : ValueType) → (value_type_beq a b ≡ true) ↔ (a ≡ b)
value_type_beq_iff a b =
    ground (arith, kind_beq_iff a.kind b.kind, category_beq_iff a.category b.category)

instance abbrev pub value_type_eq : Eq ValueType
value_type_eq = record { beq = value_type_beq; beq_iff = value_type_beq_iff }

abbrev pub u32_max : ℕ
u32_max = 0xffff_ffff

unfoldable pub unknown_type : ℕ → ValueType
unknown_type bit_width = record {
  kind = ValueTypeKind.unknown;
  category = ScalarCategory.unknown;
  element_bit_width = bit_width;
  lane_count = 0;
}

unfoldable pub scalar_type : ScalarCategory → ℕ → Result ValueType
scalar_type category bit_width =
    if category == ScalarCategory.unknown || bit_width == 0
    then fail "ir.value_type.invalid_scalar"
    else ok (record {
      kind = scalar;
      category = category;
      element_bit_width = bit_width;
      lane_count = 1;
    })

abbrev pub f32 : ValueType
f32 = record { kind = scalar; category = floating_point; element_bit_width = 32; lane_count = 1 }

abbrev pub i32 : ValueType
i32 = record { kind = scalar; category = signed_integer; element_bit_width = 32; lane_count = 1 }

unfoldable pub vector_type : ScalarCategory → ℕ → ℕ → Result ValueType
vector_type element_category element_bit_width lane_count =
    if element_category == ScalarCategory.unknown || element_bit_width == 0 || lane_count == 0
    then fail "ir.value_type.invalid_vector"
    else if ltb (u32_max / element_bit_width) lane_count
    then fail "ir.value_type.invalid_vector"
    else ok (record {
      kind = vector;
      category = element_category;
      element_bit_width = element_bit_width;
      lane_count = lane_count;
    })

-- The product is one of `uint32_t`, and wraps.
unfoldable pub bit_width : ValueType → ℕ
bit_width t =
    if t.kind == vector then t.element_bit_width * t.lane_count % 2 ^ 32 else t.element_bit_width

abbrev has_valid_shape : ValueTypeKind → ValueType → Bool
has_valid_shape ValueTypeKind.unknown t = t.category == ScalarCategory.unknown && t.lane_count == 0
has_valid_shape scalar t =
    not (t.category == ScalarCategory.unknown)
    && not (t.element_bit_width == 0)
    && t.lane_count == 1
has_valid_shape vector t =
    not (t.category == ScalarCategory.unknown)
    && not (t.element_bit_width == 0)
    && not (t.lane_count == 0)
    && leb t.lane_count (u32_max / t.element_bit_width)

unfoldable pub validate : ValueType → Result (Unit {0})
validate t = if has_valid_shape t.kind t then ok tt else fail "ir.value_type.invalid"
