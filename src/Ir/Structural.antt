-- ===== src/Ir/Structural.antt =====
-- lib/ir/structural.cpp: nodes as bytes, and the order of nodes by those bytes and their operands.
-- The caches of the records and of the pairs compared are left out: nodes never change once they are
-- added, so a cached result is the computed one. So is the digest, for the hash of the library.
pub mod Prefix
pub mod Encoding
pub mod Meaning
pub mod Records
pub mod Equality
pub mod Readable
pub mod Comparison
use Prim.Native.Nat.{zero, suc}
use sivra.Prelude.{
  ℕ, ◌+◌, ◌-◌, ◌/◌, ◌%◌, ◌^◌, ◌≡◌, Bool, true, false, ◌&&◌, if◌then◌else◌, ltb, List, [], ◌∷◌, ◌++◌,
  Option, none, some, all, traverse, length, get_elem?, Text, ◌==◌, nat_eq,
}
use sivra.Prelude.Int.{ℤ, pos, negsuc}
use sivra.Ir.ValueType.{ValueType, kind_index, category_index}
use sivra.Ir.Constant.{
  ScalarConstant, f32_constant, i32_constant, ConstantValue, element, element_count, is_splat,
}
use sivra.Ir.Ids.{NodeId}
use sivra.Ir.Attribute.{
  AttributeValue, integer, boolean, enum_key, index_vector, value_type, kind_of,
  attribute_kind_index, OperationAttribute, OperationAttributes,
}
use sivra.Ir.Operation.{OperationDef}
use sivra.Ir.Catalogue as Catalogue
use sivra.Ir.Graph.{
  ExpressionGraph, ExpressionNode, ExpressionPayload, OperationApplication, constant, symbol,
  external_value, unknown, operation, merge, payload_kind, payload_operands, at, size, symbol_name,
}
use sivra.Ir.Validation.{is_earlier}

-- Each of these is what the function of that name appends to its output.
unfoldable pub append_u8 : ℕ → Text
append_u8 value = value % 2 ^ 8 ∷ []

unfoldable pub append_u32 : ℕ → Text
append_u32 value =
    value % 2 ^ 8 ∷ value / 2 ^ 8 % 2 ^ 8 ∷ value / 2 ^ 16 % 2 ^ 8 ∷ value / 2 ^ 24 % 2 ^ 8 ∷ []

unfoldable pub append_u64 : ℕ → Text
unfolding append_u32
append_u64 value = append_u32 value ++ append_u32 (value / 2 ^ 32)

-- The characters of a text are bytes already.
unfoldable pub append_string : Text → Text
append_string value = append_u64 (length value) ++ value

unfoldable pub append_type : ValueType → Text
append_type t =
    append_u8 (kind_index t.kind)
    ++ (append_u8 (category_index t.category)
        ++ (append_u32 t.element_bit_width ++ append_u32 t.lane_count))

unfoldable pub append_element : ScalarConstant → Text
append_element (f32_constant bits) = append_u8 0 ++ append_u32 bits
append_element (i32_constant bits) = append_u8 1 ++ append_u32 bits

abbrev pub flag : Bool → ℕ
flag true = 1
flag false = 0

-- One text behind the other.
abbrev pub concat_map {ℓ} : {A : Type ℓ} → (A → Text) → List A → Text
concat_map f [] = []
concat_map f (x ∷ xs) = f x ++ concat_map f xs

-- The first of several reads and the others, where no read throws.
abbrev pub prepend {ℓ} : {A : Type ℓ} → Option A → Option (List A) → Option (List A)
prepend none xs = none
prepend (some x) none = none
prepend (some x) (some xs) = some (x ∷ xs)

-- The elements of a constant from `lane` on, so many of them; `none` is an exception of `element`.
unfoldable pub elements_from : ConstantValue → ℕ → ℕ → Option (List ScalarConstant)
elements_from c zero lane = some []
elements_from c (suc rounds) lane = prepend (element c lane) (elements_from c rounds (lane + 1))

abbrev pub elements_of : ConstantValue → Option (List ScalarConstant)
elements_of c = elements_from c (element_count c) 0

-- With the elements read.
unfoldable pub append_constant : ConstantValue → List ScalarConstant → Text
append_constant c es =
    append_u8 (flag (is_splat c)) ++ (append_u64 (element_count c) ++ concat_map append_element es)

-- The cast of an `int64_t` to `uint64_t`.
abbrev pub unsigned : ℤ → ℕ
unsigned (pos n) = n
unsigned (negsuc n) = 2 ^ 64 - 1 - n

unfoldable pub append_entry : AttributeValue → Text
append_entry (integer i) = append_u64 (unsigned i)
append_entry (boolean b) = append_u8 (flag b)
append_entry (enum_key k) = append_string k
append_entry (index_vector is) = append_u64 (length is) ++ concat_map append_u32 is
append_entry (value_type t) = append_type t

unfoldable pub append_attribute_value : AttributeValue → Text
append_attribute_value v = append_u8 (attribute_kind_index (kind_of v)) ++ append_entry v

unfoldable pub append_attribute : OperationAttribute → Text
append_attribute a = append_string a.key ++ append_attribute_value a.value

unfoldable pub append_attributes : OperationAttributes → Text
append_attributes as' = append_u64 (length as') ++ concat_map append_attribute as'

abbrev pub operation_bytes : OperationApplication → OperationDef → Text
operation_bytes a d =
    append_string d.stable_key.value
    ++ (append_u32 d.stable_key.version
        ++ (append_attributes a.attributes ++ append_u64 (length a.operands)))

-- The part behind the kind and the type; `none` is an exception.
unfoldable pub payload_data : ExpressionGraph → ExpressionPayload → Option Text
payload_data g (constant c) = elim (elements_of c) [
  | none ↦ none
  | some es ↦ some (append_constant c es)
]
payload_data g (symbol s) = elim (symbol_name g s) [
  | none ↦ none
  | some name ↦ some (append_string name)
]
payload_data g (external_value v) = some (append_u64 v.owner ++ append_u32 v.index)
payload_data g (unknown reason) = some (append_string reason)
payload_data g (operation a) = elim (Catalogue.operation g.catalogue a.operation) [
  | none ↦ none
  | some d ↦ some (operation_bytes a d)
]
payload_data g (merge incoming) = some (append_u64 (length incoming))

-- `node_record`.
pub record NodeRecord : Type 0 where
  pub data_bytes : Text
  pub children : List NodeId

-- The record of the node at place `index`; `none` is an exception, also for an operand that is not an
-- earlier node.
unfoldable pub node_record : ExpressionGraph → ℕ → ExpressionNode → Option NodeRecord
unfolding payload_data
node_record g index n =
    if all (is_earlier g index) (payload_operands n.payload)
    then elim (payload_data g n.payload) [
      | none ↦ none
      | some bytes ↦ some (record {
        data_bytes = append_u8 (payload_kind n.payload) ++ (append_type n.result_type ++ bytes);
        children = payload_operands n.payload;
      })
    ]
    else none

-- The loop of `record`: the records of all nodes.
unfoldable pub node_records : ExpressionGraph → ℕ → List ExpressionNode → Option (List NodeRecord)
node_records g index [] = some []
node_records g index (n ∷ ns) = prepend (node_record g index n) (node_records g (index + 1) ns)

-- `record`; `none` is an exception.
unfoldable pub record_of : ExpressionGraph → NodeId → Option NodeRecord
record_of g root = elim (at g root) [
  | none ↦ none
  | some n ↦ elim (node_records g 0 g.nodes) [ none ↦ none | some rs ↦ get_elem? rs root.index ]
]

-- `std::strong_ordering`.
pub data Ordering : Type 0 where
  less equal greater : Ordering

unfoldable pub compare_bytes : Text → Text → Ordering
compare_bytes [] [] = equal
compare_bytes [] (y ∷ ys) = less
compare_bytes (x ∷ xs) [] = greater
compare_bytes (x ∷ xs) (y ∷ ys) =
    let rest = compare_bytes xs ys in if ltb x y then less else if ltb y x then greater else rest

abbrev pub compare_children :
    (NodeId → NodeId → Option Ordering) → List NodeId → List NodeId → Option Ordering
compare_children go [] rs = some equal
compare_children go (l ∷ ls) [] = none
compare_children go (l ∷ ls) (r ∷ rs) = elim (go l r) [
  | none ↦ none
  | some less ↦ some less
  | some greater ↦ some greater
  | some equal ↦ compare_children go ls rs
]

-- Two records, the operands compared by `go`.
abbrev pub compare_record :
    (NodeId → NodeId → Option Ordering) → Option NodeRecord → Option NodeRecord → Option Ordering
compare_record go none r = none
compare_record go (some l) none = none
compare_record go (some l) (some r) = elim (compare_bytes l.data_bytes r.data_bytes) [
  | less ↦ some less
  | greater ↦ some greater
  | equal ↦ compare_children go l.children r.children
]

-- With fuel for so many levels; `none` is an exception or the end of the fuel.
unfoldable pub compare_records :
    ℕ → ExpressionGraph → NodeId → ExpressionGraph → NodeId → Option Ordering
compare_records zero lg l rg r = none
compare_records (suc fuel) lg l rg r =
    compare_record (λ a b. compare_records fuel lg a rg b) (record_of lg l) (record_of rg r)

-- Operands are earlier nodes, so there are no more levels than nodes.
unfoldable pub compare : ExpressionGraph → NodeId → ExpressionGraph → NodeId → Option Ordering
compare lg l rg r = compare_records (suc (size lg)) lg l rg r

abbrev pub is_equal : Option Ordering → Bool
is_equal (some equal) = true
is_equal _ = false

-- `equal`; an exception counts as false.
unfoldable pub equal_nodes : ExpressionGraph → NodeId → ExpressionGraph → NodeId → Bool
equal_nodes lg l rg r = is_equal (compare lg l rg r)
