-- ===== src/Ir/Structural/Prefix.antt =====
-- The appends of lib/ir/structural.cpp as codes that can be read off the front of a text.
use sivra.Prelude.{
  ℕ, ◌/◌, ◌%◌, ◌^◌, ◌<◌, ◌≡◌, refl, ap, sym, ◌∙◌, List, [], ◌∷◌, ◌++◌, length, All, Text, arith,
}
use mathlib.Core.List.{append_assoc}
use sivra.Ir.ValueType.{ValueType, ValueTypeKind, ScalarCategory, kind_index, category_index}
use sivra.Ir.Constant.{ScalarConstant, f32_constant, i32_constant, constant_bits}
use sivra.Ir.Structural.{
  append_u8, append_u32, append_u64, append_string, append_type, append_element, concat_map,
}

-- Two codes in front of two texts that agree are the same code, for values in `P`.
abbrev pub IsPrefix {ℓ κ} : {A : Type ℓ} → (A → Text) → (A → Type κ) → Type (ℓ ⊔ κ)
IsPrefix {A} e P = (a b : A) (u v : Text) → P a → P b → e a ++ u ≡ e b ++ v → (a ≡ b) × (u ≡ v)

pub u8-IsPrefix : IsPrefix append_u8 (λ a. a < 2 ^ 8)
unfolding append_u8
u8-IsPrefix a b u v p q e = ground arith

DigitsU32 : ℕ → ℕ → Type 0
DigitsU32 a b =
    (a % 2 ^ 8 ≡ b % 2 ^ 8)
    × (a / 2 ^ 8 % 2 ^ 8 ≡ b / 2 ^ 8 % 2 ^ 8)
    × (a / 2 ^ 16 % 2 ^ 8 ≡ b / 2 ^ 16 % 2 ^ 8)
    × (a / 2 ^ 24 % 2 ^ 8 ≡ b / 2 ^ 24 % 2 ^ 8)

digits-eq : (a b : ℕ) → a < 2 ^ 32 → b < 2 ^ 32 → DigitsU32 a b → a ≡ b
unfolding DigitsU32
digits-eq a b p q d = omega (arith, d.0, d.1, d.2, d.3)

pub u32-IsPrefix : IsPrefix append_u32 (λ a. a < 2 ^ 32)
unfolding append_u32 DigitsU32
u32-IsPrefix a b u v p q e =
    let d : DigitsU32 a b = ground arith in (digits-eq a b p q d, ground arith)

pub u64-IsPrefix : IsPrefix append_u64 (λ a. a < 2 ^ 64)
unfolding append_u64 append_u32 DigitsU32
u64-IsPrefix a b u v p q e =
    let low : DigitsU32 (a % 2 ^ 32) (b % 2 ^ 32) = ground arith in
    let high : DigitsU32 (a / 2 ^ 32) (b / 2 ^ 32) = ground arith in
    let same_low = digits-eq (a % 2 ^ 32) (b % 2 ^ 32) (omega arith) (omega arith) low in
    let same_high = digits-eq (a / 2 ^ 32) (b / 2 ^ 32) (omega arith) (omega arith) high in
    (omega (arith, same_low, same_high), ground arith)

-- A text can be read off once its length is known.
split_length :
    (xs ys us vs : Text) → length xs ≡ length ys → xs ++ us ≡ ys ++ vs → (xs ≡ ys) × (us ≡ vs)
split_length [] [] us vs n e = (refl, e)
split_length [] (y ∷ ys) us vs n e = absurd (omega (arith, n))
split_length (x ∷ xs) [] us vs n e = absurd (omega (arith, n))
split_length (x ∷ xs) (y ∷ ys) us vs n e = ground (arith, split_length xs ys us vs)

abbrev pub TextFits : Text → Type 0
TextFits t = length t < 2 ^ 64

pub string-IsPrefix : IsPrefix append_string TextFits
unfolding append_string
string-IsPrefix a b u v p q e =
    let (n, rest) = u64-IsPrefix (length a) (length b) (a ++ u) (b ++ v) p q (
      sym (append_assoc (append_u64 (length a)) a u)
      ∙ e
      ∙ append_assoc (append_u64 (length b)) b v) in
    split_length a b u v n rest

-- A list whose length is known, by the code of its elements.
pub concat_map-IsPrefix {ℓ κ} :
    {A : Type ℓ} (e : A → Text) (P : A → Type κ)
    → IsPrefix e P
    → (xs ys : List A) (u v : Text) → length xs ≡ length ys
    → All P xs
    → All P ys
    → concat_map e xs ++ u ≡ concat_map e ys ++ v
    → (xs ≡ ys) × (u ≡ v)
concat_map-IsPrefix e P f [] [] u v n p q h = (refl, h)
concat_map-IsPrefix e P f [] (y ∷ ys) u v n p q h = absurd (omega (arith, n))
concat_map-IsPrefix e P f (x ∷ xs) [] u v n p q h = absurd (omega (arith, n))
concat_map-IsPrefix e P f (x ∷ xs) (y ∷ ys) u v n p q h =
    let (same, rest) =
      f x y (concat_map e xs ++ u) (concat_map e ys ++ v) p.0 q.0 (
        sym (append_assoc (e x) (concat_map e xs) u)
        ∙ h
        ∙ append_assoc (e y) (concat_map e ys) v) in
    let (others, end) = concat_map-IsPrefix e P f xs ys u v (omega (arith, n)) p.1 q.1 rest in
    (cc (same, others), end)

-- One code behind another; `f` says of the second what it is once the first is known.
pub pair-IsPrefix {ℓ κ} :
    {A : Type ℓ} {P : A → Type κ} (e : A → Text)
    → IsPrefix e P
    → (a b : A) (s t u v : Text) → P a
    → P b
    → (e a ++ s) ++ u ≡ (e b ++ t) ++ v
    → (a ≡ b) × (s ++ u ≡ t ++ v)
pair-IsPrefix e f a b s t u v p q h =
    f a b (s ++ u) (t ++ v) p q (sym (append_assoc (e a) s u) ∙ h ∙ append_assoc (e b) t v)

kind-eq : (a b : ValueTypeKind) → kind_index a ≡ kind_index b → a ≡ b
kind-eq a b h = ground arith

kind-lt : (a : ValueTypeKind) → kind_index a < 2 ^ 8
kind-lt a = ground arith

category-eq : (a b : ScalarCategory) → category_index a ≡ category_index b → a ≡ b
category-eq a b h = ground arith

category-lt : (a : ScalarCategory) → category_index a < 2 ^ 8
category-lt a = ground arith

abbrev pub TypeFits : ValueType → Type 0
TypeFits t = (t.element_bit_width < 2 ^ 32) × (t.lane_count < 2 ^ 32)

pub type-IsPrefix : IsPrefix append_type TypeFits
unfolding append_type
type-IsPrefix a b u v p q e =
    let (kind, after_kind) =
      pair-IsPrefix append_u8 u8-IsPrefix (kind_index a.kind) (kind_index b.kind) _ _ u v
        (kind-lt a.kind) (kind-lt b.kind) e in
    let (category, after_category) =
      pair-IsPrefix append_u8 u8-IsPrefix (category_index a.category) (category_index b.category) _
        _ u v (category-lt a.category) (category-lt b.category) after_kind in
    let (width, after_width) =
      pair-IsPrefix append_u32 u32-IsPrefix a.element_bit_width b.element_bit_width _ _ u v p.0 q.0
        after_category in
    let (lanes, end) = u32-IsPrefix a.lane_count b.lane_count u v p.1 q.1 after_width in
    (cc (kind-eq a.kind b.kind kind, category-eq a.category b.category category, width, lanes), end)

abbrev pub ElementFits : ScalarConstant → Type 0
ElementFits c = constant_bits c < 2 ^ 32

pub element-IsPrefix : IsPrefix append_element ElementFits
unfolding append_element append_u8
element-IsPrefix (f32_constant a) (f32_constant b) u v p q e =
    let (same, end) = u32-IsPrefix a b u v p q (ground arith) in (ap f32_constant same, end)
element-IsPrefix (i32_constant a) (i32_constant b) u v p q e =
    let (same, end) = u32-IsPrefix a b u v p q (ground arith) in (ap i32_constant same, end)
element-IsPrefix (f32_constant a) (i32_constant b) u v p q e = ground arith
element-IsPrefix (i32_constant a) (f32_constant b) u v p q e = ground arith
