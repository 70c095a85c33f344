-- ===== src/Ir/Structural/Readable.antt =====
-- Graphs whose records lib/ir/structural.cpp reads without an exception.
use Prim.Native.Nat.{zero, suc}
use sivra.Prelude.{
  ℕ, ◌+◌, ◌≤◌, ◌≡◌, refl, true, List, [], ◌∷◌, some, Option-cases, inl, inr, length, get_elem?,
  get_elem?-of_lt, all, All, Text, arith, nat_eq,
}
use sivra.Core.Result.{ok}
use sivra.Ir.ValueType.{ValueType}
use sivra.Ir.Constant.{ScalarConstant, ConstantValue, element_count, IsMade}
use sivra.Ir.Ids.{NodeId}
use sivra.Ir.Catalogue as Catalogue
use sivra.Ir.Graph.{
  ExpressionGraph, ExpressionNode, ExpressionPayload, constant, symbol, external_value, unknown,
  operation, merge, payload_operands, at, contains, symbol_name,
}
use sivra.Ir.Validation.{is_earlier, check_payload, validate_graph}
use sivra.Ir.Validation.Order.{Earlier, validate_graph-Earlier, validate_graph-payload}
use sivra.Ir.Structural.Records.{record_bytes}
use sivra.Ir.Structural.{
  append_constant, append_string, operation_bytes, elements_from, NodeRecord, node_record,
  node_records, record_of, payload_data,
}

elements_from-total :
    (c : ConstantValue) (rounds lane : ℕ)
    → IsMade c
    → rounds + lane ≤ element_count c
    → (es : List ScalarConstant) × (elements_from c rounds lane ≡ some es)
unfolding elements_from
elements_from-total c zero lane made h = ([], refl)
elements_from-total c (suc rounds) lane made h =
    let (e, here, _) = made lane (ground arith) in
    let (es, there) = elements_from-total c rounds (lane + 1) made (omega arith) in
    (e ∷ es, ground arith)

-- Each constant is one that the factories make.
abbrev pub ConstantsMade : ExpressionGraph → Type 0
ConstantsMade g =
    (i : ℕ) (n : ExpressionNode) (c : ConstantValue)
    → get_elem? g.nodes i ≡ some n
    → n.payload ≡ constant c
    → IsMade c

abbrev PayloadMade : ExpressionPayload → Type 0
PayloadMade p = (c : ConstantValue) → p ≡ constant c → IsMade c

payload_data-total :
    (g : ExpressionGraph) (index : ℕ) (t : ValueType) (p : ExpressionPayload)
    → PayloadMade p
    → check_payload g index t p ≡ []
    → (bytes : Text) × (payload_data g p ≡ some bytes)
unfolding payload_data
payload_data-total g index t (constant c) made h =
    let (es, read) = elements_from-total c (element_count c) 0 (made c refl) (omega arith) in
    (append_constant c es, ground arith)
payload_data-total g index t (symbol s) made h = elim (Option-cases (symbol_name g s)) [
  | inl absent ↦ ground arith
  | inr (name, found) ↦ (append_string name, ground arith)
]
payload_data-total g index t (external_value v) made h = (_, refl)
payload_data-total g index t (unknown reason) made h = (_, refl)
payload_data-total g index t (merge incoming) made h = (_, refl)
payload_data-total g index t (operation a) made h =
    elim (Option-cases (Catalogue.operation g.catalogue a.operation)) [
      | inl absent ↦ ground arith
      | inr (d, found) ↦ (operation_bytes a d, ground arith)
    ]

all-Earlier :
    (g : ExpressionGraph) (index : ℕ) (os : List NodeId)
    → All (Earlier g index) os
    → all (is_earlier g index) os ≡ true
unfolding is_earlier
all-Earlier g index [] h = refl
all-Earlier g index (o ∷ os) (h, hs) = ground (arith, all-Earlier g index os hs)

node_record-made :
    (g : ExpressionGraph) (i : ℕ) (n : ExpressionNode) (bytes : Text)
    → all (is_earlier g i) (payload_operands n.payload) ≡ true
    → payload_data g n.payload ≡ some bytes
    → node_record g i n
      ≡ some (record { data_bytes = record_bytes n bytes; children = payload_operands n.payload })
unfolding node_record
node_record-made g i n bytes passed read = ground arith

node_records-total :
    (g : ExpressionGraph) (i : ℕ) (ns : List ExpressionNode)
    → ((k : ℕ) (n : ExpressionNode)
        → get_elem? ns k ≡ some n
        → (r : NodeRecord) × (node_record g (i + k) n ≡ some r))
    → (rs : List NodeRecord) × (node_records g i ns ≡ some rs) × (length rs ≡ length ns)
unfolding node_records
node_records-total g i [] each = ([], refl, refl)
node_records-total g i (n ∷ ns) each =
    let (r, here) = each 0 n refl in
    let (rs, there, counted) =
      node_records-total g (i + 1) ns
        (λ k m e. let (s, made) = each (suc k) m e in (s, ground arith)) in
    (r ∷ rs, ground arith, ground arith)

record_of-made :
    (g : ExpressionGraph) (id : NodeId) (n : ExpressionNode) (rs : List NodeRecord) (r : NodeRecord)
    → at g id ≡ some n
    → node_records g 0 g.nodes ≡ some rs
    → get_elem? rs id.index ≡ some r
    → record_of g id ≡ some r
unfolding record_of
record_of-made g id n rs r found recorded here = ground arith

module _ (g : ExpressionGraph) (valid : validate_graph g ≡ ok tt) (made : ConstantsMade g) where
  node_record-total :
      (i : ℕ) (n : ExpressionNode)
      → get_elem? g.nodes i ≡ some n
      → (r : NodeRecord) × (node_record g i n ≡ some r)
  unfolding node_record
  node_record-total i n here =
      let (_, earlier) = validate_graph-Earlier g i n valid here in
      let passed = all-Earlier g i (payload_operands n.payload) earlier in
      let (bytes, read) =
        payload_data-total g i n.result_type n.payload (λ c. made i n c here)
          (validate_graph-payload g i n valid here) in
      (_, node_record-made g i n bytes passed read)

  -- The record of each node can be read.
  pub record_of-total :
      (id : NodeId) → contains g id ≡ true → (r : NodeRecord) × (record_of g id ≡ some r)
  unfolding contains at
  record_of-total id h =
      let (rs, recorded, counted) =
        node_records-total g 0 g.nodes
          (λ k n e. let (r, made) = node_record-total k n e in (r, ground arith)) in
      let (n, found) = get_elem?-of_lt g.nodes id.index (ground arith) in
      let (r, here) = get_elem?-of_lt rs id.index (ground arith) in
      (r, record_of-made g id n rs r (ground arith) recorded here)
