-- ===== src/Ir/Structural/Encoding.antt =====
-- The attributes and the constants of a node as codes, in lib/ir/structural.cpp.
use Prim.Native.Nat.{zero, suc}
use sivra.Prelude.{
  ℕ, ◌+◌, ◌^◌, ◌<◌, ◌≡◌, refl, ap, sym, ◌∙◌, Bool, List, ◌∷◌, ◌++◌, Option, none, some, length, All,
  Text, arith,
}
use sivra.Prelude.Int.{ℤ, pos, negsuc}
use sivra.Ir.Constant.{ScalarConstant, ConstantValue, element, element_count, is_splat}
use sivra.Ir.Attribute.{
  AttributeValue, integer, boolean, enum_key, index_vector, value_type, kind_of,
  attribute_kind_index, OperationAttribute, OperationAttributes,
}
use sivra.Ir.Structural.{
  append_u8, append_u32, append_u64, append_string, append_element, prepend, elements_from,
  elements_of, append_constant, flag, unsigned, append_entry, append_attribute_value,
  append_attribute, append_attributes,
}
use sivra.Ir.Structural.Prefix.{
  IsPrefix, u8-IsPrefix, u32-IsPrefix, u64-IsPrefix, string-IsPrefix, concat_map-IsPrefix,
  pair-IsPrefix, type-IsPrefix, element-IsPrefix, TextFits, TypeFits, ElementFits,
}

-- The range of `int64_t`.
abbrev pub IntFits : ℤ → Type 0
IntFits (pos n) = n < 2 ^ 63
IntFits (negsuc n) = n < 2 ^ 63

unsigned-lt : (a : ℤ) → IntFits a → unsigned a < 2 ^ 64
unsigned-lt (pos n) p = omega arith
unsigned-lt (negsuc n) p = omega arith

unsigned-eq : (a b : ℤ) → IntFits a → IntFits b → unsigned a ≡ unsigned b → a ≡ b
unsigned-eq (pos a) (pos b) p q e = ap pos e
unsigned-eq (pos a) (negsuc b) p q e = absurd (omega arith)
unsigned-eq (negsuc a) (pos b) p q e = absurd (omega arith)
unsigned-eq (negsuc a) (negsuc b) p q e = ap negsuc (omega arith)

abbrev pub WordFits : ℕ → Type 0
WordFits n = n < 2 ^ 32

-- The widths that the program gives the parts of an attribute.
abbrev pub EntryFits : AttributeValue → Type 0
EntryFits (integer i) = IntFits i
EntryFits (boolean b) = Unit {0}
EntryFits (enum_key k) = TextFits k
EntryFits (index_vector is) = (length is < 2 ^ 64) × All WordFits is
EntryFits (value_type t) = TypeFits t

flag-eq : (a b : Bool) → flag a ≡ flag b → a ≡ b
flag-eq a b e = ground arith

flag-lt : (a : Bool) → flag a < 2 ^ 8
flag-lt a = ground arith

entry-same :
    (a b : AttributeValue) (u v : Text)
    → EntryFits a
    → EntryFits b
    → attribute_kind_index (kind_of a) ≡ attribute_kind_index (kind_of b)
    → append_entry a ++ u ≡ append_entry b ++ v
    → (a ≡ b) × (u ≡ v)
unfolding append_entry
entry-same (integer a) (integer b) u v p q k e =
    let (same, end) =
      u64-IsPrefix (unsigned a) (unsigned b) u v (unsigned-lt a p) (unsigned-lt b q) e in
    (ap integer (unsigned-eq a b p q same), end)
entry-same (boolean a) (boolean b) u v p q k e =
    let (same, end) = u8-IsPrefix (flag a) (flag b) u v (flag-lt a) (flag-lt b) e in
    (ap boolean (flag-eq a b same), end)
entry-same (enum_key a) (enum_key b) u v p q k e =
    let (same, end) = string-IsPrefix a b u v p q e in (ap enum_key same, end)
entry-same (index_vector a) (index_vector b) u v p q k e =
    let (n, rest) = pair-IsPrefix append_u64 u64-IsPrefix (length a) (length b) _ _ u v p.0 q.0 e in
    let (same, end) = concat_map-IsPrefix append_u32 WordFits u32-IsPrefix a b u v n p.1 q.1 rest in
    (ap index_vector same, end)
entry-same (value_type a) (value_type b) u v p q k e =
    let (same, end) = type-IsPrefix a b u v p q e in (ap value_type same, end)
entry-same a b u v p q k e = absurd (ground arith)

attribute_kind-lt : (v : AttributeValue) → attribute_kind_index (kind_of v) < 2 ^ 8
attribute_kind-lt v = ground arith

attribute_value-IsPrefix : IsPrefix append_attribute_value EntryFits
unfolding append_attribute_value
attribute_value-IsPrefix a b u v p q e =
    let (kind, rest) =
      pair-IsPrefix append_u8 u8-IsPrefix (attribute_kind_index (kind_of a))
        (attribute_kind_index (kind_of b)) _ _ u v (attribute_kind-lt a) (attribute_kind-lt b) e in
    entry-same a b u v p q kind rest

abbrev pub AttributeFits : OperationAttribute → Type 0
AttributeFits a = TextFits a.key × EntryFits a.value

attribute-IsPrefix : IsPrefix append_attribute AttributeFits
unfolding append_attribute
attribute-IsPrefix a b u v p q e =
    let (key, rest) = pair-IsPrefix append_string string-IsPrefix a.key b.key _ _ u v p.0 q.0 e in
    let (value, end) = attribute_value-IsPrefix a.value b.value u v p.1 q.1 rest in
    (cc (key, value), end)

abbrev pub AttributesFit : OperationAttributes → Type 0
AttributesFit as' = (length as' < 2 ^ 64) × All AttributeFits as'

pub attributes-IsPrefix : IsPrefix append_attributes AttributesFit
unfolding append_attributes
attributes-IsPrefix a b u v p q e =
    let (n, rest) = pair-IsPrefix append_u64 u64-IsPrefix (length a) (length b) _ _ u v p.0 q.0 e in
    concat_map-IsPrefix append_attribute AttributeFits attribute-IsPrefix a b u v n p.1 q.1 rest

pub prepend-some {ℓ} :
    {A : Type ℓ} (first : Option A) (others : Option (List A)) (ys : List A)
    → prepend first others ≡ some ys
    → (x : A) × (xs : List A) × (first ≡ some x) × (others ≡ some xs) × (ys ≡ x ∷ xs)
prepend-some none others ys h = absurd (ground arith)
prepend-some (some x) none ys h = absurd (ground arith)
prepend-some (some x) (some xs) ys h = (x, xs, refl, refl, ground arith)

pub length-elements_from :
    (c : ConstantValue) (rounds lane : ℕ) (es : List ScalarConstant)
    → elements_from c rounds lane ≡ some es
    → length es ≡ rounds
unfolding elements_from
length-elements_from c zero lane es h = ground arith
length-elements_from c (suc rounds) lane es h =
    let (e, rest, _, read, same) =
      prepend-some (element c lane) (elements_from c rounds (lane + 1)) es h in
    ground (arith, same, length-elements_from c rounds (lane + 1) rest read)

-- Two constants with one code have the same elements and are splats together.
pub constant-same :
    (a b : ConstantValue) (xs ys : List ScalarConstant) (u v : Text)
    → elements_of a ≡ some xs
    → elements_of b ≡ some ys
    → (element_count a < 2 ^ 64) × All ElementFits xs
    → (element_count b < 2 ^ 64) × All ElementFits ys
    → append_constant a xs ++ u ≡ append_constant b ys ++ v
    → (is_splat a ≡ is_splat b) × (xs ≡ ys)
unfolding append_constant
constant-same a b xs ys u v read_a read_b p q e =
    let (splat, after_splat) =
      pair-IsPrefix append_u8 u8-IsPrefix (flag (is_splat a)) (flag (is_splat b)) _ _ u v
        (flag-lt (is_splat a)) (flag-lt (is_splat b)) e in
    let (n, rest) =
      pair-IsPrefix append_u64 u64-IsPrefix (element_count a) (element_count b) _ _ u v p.0 q.0
        after_splat in
    let counted : length xs ≡ length ys =
      length-elements_from a (element_count a) 0 xs read_a
      ∙ n
      ∙ sym (length-elements_from b (element_count b) 0 ys read_b) in
    let (same, end) =
      concat_map-IsPrefix append_element ElementFits element-IsPrefix xs ys u v counted p.1 q.1
        rest in
    (flag-eq (is_splat a) (is_splat b) splat, same)
