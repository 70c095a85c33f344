-- ===== src/Ir/Structural/Records.antt =====
-- The records of the nodes in lib/ir/structural.cpp: what a record holds of its node.
use Prim.Native.Nat.{zero, suc}
use sivra.Prelude.{
  ℕ, ◌+◌, ◌≡◌, refl, true, List, [], ◌∷◌, ◌++◌, Option, none, some, get_elem?, all, Text, arith,
  nat_eq,
}
use sivra.Ir.Ids.{NodeId}
use sivra.Ir.Graph.{ExpressionGraph, ExpressionNode, payload_kind, payload_operands, at}
use sivra.Ir.Validation.{is_earlier}
use sivra.Ir.Structural.{
  append_u8, append_type, NodeRecord, node_record, node_records, record_of, payload_data,
}
use sivra.Ir.Structural.Encoding.{prepend-some}

abbrev pub record_bytes : ExpressionNode → Text → Text
record_bytes n bytes = append_u8 (payload_kind n.payload) ++ (append_type n.result_type ++ bytes)

-- What a record is made of.
abbrev pub Recorded : ExpressionGraph → ℕ → ExpressionNode → NodeRecord → Type 0
Recorded g index n r =
    (bytes : Text) × (payload_data g n.payload ≡ some bytes)
    × (r.data_bytes ≡ record_bytes n bytes)
    × (r.children ≡ payload_operands n.payload)
    × (all (is_earlier g index) (payload_operands n.payload) ≡ true)

node_record-cases :
    (g : ExpressionGraph) (index : ℕ) (n : ExpressionNode) (r : NodeRecord) (bytes : Option Text)
    → payload_data g n.payload ≡ bytes
    → node_record g index n ≡ some r
    → Recorded g index n r
unfolding node_record
node_record-cases g index n r none e h = absurd (ground arith)
node_record-cases g index n r (some bytes) e h =
    (bytes, e, ground arith, ground arith, ground arith)

pub node_record-Recorded :
    (g : ExpressionGraph) (index : ℕ) (n : ExpressionNode) (r : NodeRecord)
    → node_record g index n ≡ some r
    → Recorded g index n r
node_record-Recorded g index n r h = node_record-cases g index n r (payload_data g n.payload) refl h

node_records-at :
    (g : ExpressionGraph) (index k : ℕ) (ns : List ExpressionNode) (rs : List NodeRecord)
    (r : NodeRecord)
    → node_records g index ns ≡ some rs
    → get_elem? rs k ≡ some r
    → (n : ExpressionNode) × (get_elem? ns k ≡ some n) × (node_record g (index + k) n ≡ some r)
unfolding node_records
node_records-at g index k [] rs r h e = absurd (ground arith)
node_records-at g index zero (n ∷ ns) rs r h e =
    let (first, rest, here, there, same) =
      prepend-some (node_record g index n) (node_records g (index + 1) ns) rs h in
    (n, refl, ground arith)
node_records-at g index (suc k) (n ∷ ns) rs r h e =
    let (first, rest, here, there, same) =
      prepend-some (node_record g index n) (node_records g (index + 1) ns) rs h in
    let (m, found, made) = node_records-at g (index + 1) k ns rest r there (ground arith) in
    (m, found, ground arith)

-- The two reads behind `record_of`.
record_of-reads :
    (g : ExpressionGraph) (id : NodeId) (r : NodeRecord) (found : Option ExpressionNode)
    (all_of : Option (List NodeRecord))
    → at g id ≡ found
    → node_records g 0 g.nodes ≡ all_of
    → record_of g id ≡ some r
    → (n : ExpressionNode) × (rs : List NodeRecord) × (at g id ≡ some n)
      × (node_records g 0 g.nodes ≡ some rs)
      × (get_elem? rs id.index ≡ some r)
unfolding record_of
record_of-reads g id r none all_of e f h = absurd (ground arith)
record_of-reads g id r (some n) none e f h = absurd (ground arith)
record_of-reads g id r (some n) (some rs) e f h = (n, rs, e, f, ground arith)

-- What `record_of` reads is the record of the node at that id.
pub record_of-Recorded :
    (g : ExpressionGraph) (id : NodeId) (r : NodeRecord)
    → record_of g id ≡ some r
    → (n : ExpressionNode) × (at g id ≡ some n) × Recorded g id.index n r
unfolding at
record_of-Recorded g id r h =
    let (n, rs, found, recorded, read) =
      record_of-reads g id r (at g id) (node_records g 0 g.nodes) refl refl h in
    let (m, here, made) = node_records-at g 0 id.index g.nodes rs r recorded read in
    (n, found, node_record-Recorded g id.index n r (ground arith))
