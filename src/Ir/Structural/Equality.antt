-- ===== src/Ir/Structural/Equality.antt =====
-- Nodes that lib/ir/structural.cpp finds equal.
use Prim.Native.Nat.{zero, suc}
use sivra.Prelude.{
  ℕ, ◌^◌, ◌<◌, ◌≡◌, refl, ap, sym, ◌∙◌, true, List, [], ◌∷◌, ◌++◌, map, Option, none, some, length,
  Text, arith, nat_eq,
}
use mathlib.Core.List.{append-nil}
use sivra.Ir.Ids.{NodeId}
use sivra.Ir.Graph.{
  ExpressionGraph, ExpressionNode, ExpressionPayload, payload_kind, payload_operands, size,
}
use sivra.Ir.Structural.{
  append_u8, append_type, NodeRecord, record_of, Ordering, equal, compare_bytes, compare_children,
  compare_record, compare_records, compare, equal_nodes, is_equal,
}
use sivra.Ir.Structural.Prefix.{TypeFits, u8-IsPrefix, pair-IsPrefix, type-IsPrefix}
use sivra.Ir.Structural.Records.{Recorded, record_of-Recorded}
use sivra.Ir.Structural.Meaning.{
  Meaning, IsModel, GraphFits, PayloadFits, payload-SameCode, payload_value-total, SameCode,
}

pub compare_bytes-equal : (xs ys : Text) → compare_bytes xs ys ≡ equal → xs ≡ ys
unfolding compare_bytes
compare_bytes-equal [] [] h = refl
compare_bytes-equal [] (y ∷ ys) h = ground arith
compare_bytes-equal (x ∷ xs) [] h = ground arith
compare_bytes-equal (x ∷ xs) (y ∷ ys) h = ground (arith, compare_bytes-equal xs ys)

compare_record-equal :
    (go : NodeId → NodeId → Option Ordering) (l r : Option NodeRecord)
    → compare_record go l r ≡ some equal
    → (a b : NodeRecord) × (l ≡ some a)
      × (r ≡ some b)
      × (compare_bytes a.data_bytes b.data_bytes ≡ equal)
      × (compare_children go a.children b.children ≡ some equal)
compare_record-equal go none r h = absurd (ground arith)
compare_record-equal go (some a) none h = absurd (ground arith)
compare_record-equal go (some a) (some b) h = (a, b, refl, refl, ground arith, ground arith)

payload_kind-lt : (p : ExpressionPayload) → payload_kind p < 2 ^ 8
payload_kind-lt p = ground arith

children-cases :
    (go : NodeId → NodeId → Option Ordering) (l r : NodeId) (ls rs : List NodeId)
    → compare_children go (l ∷ ls) (r ∷ rs) ≡ some equal
    → (go l r ≡ some equal) × (compare_children go ls rs ≡ some equal)
children-cases go l r ls rs h = ground arith

is_equal-some : (o : Option Ordering) → is_equal o ≡ true → o ≡ some equal
is_equal-some o h = ground arith

module _ {D : Type 0} (m : Meaning D) (left right : NodeId → D) (lg rg : ExpressionGraph) where
  -- Operands compared as equal have equal values, if `go` finds only such operands equal.
  children-same :
      (go : NodeId → NodeId → Option Ordering)
      → ((a b : NodeId) → go a b ≡ some equal → left a ≡ right b)
      → (ls rs : List NodeId) → length ls ≡ length rs
      → compare_children go ls rs ≡ some equal
      → map left ls ≡ map right rs
  children-same go sound [] [] n h = refl
  children-same go sound [] (r ∷ rs) n h = absurd (omega (arith, n))
  children-same go sound (l ∷ ls) [] n h = absurd (omega (arith, n))
  children-same go sound (l ∷ ls) (r ∷ rs) n h =
      let (here, rest) = children-cases go l r ls rs h in
      cc (sound l r here, children-same go sound ls rs (omega (arith, n)) rest)

  -- Two nodes with one record, up to the operands.
  pub nodes-SameCode :
      (i j : ℕ) (a b : ExpressionNode) (r s : NodeRecord)
      → Recorded lg i a r
      → Recorded rg j b s
      → TypeFits a.result_type × PayloadFits lg a.payload
      → TypeFits b.result_type × PayloadFits rg b.payload
      → r.data_bytes ≡ s.data_bytes
      → (a.result_type ≡ b.result_type)
        × SameCode m left right lg rg a.result_type a.payload b.payload
  nodes-SameCode i j a b r s (x, dx, ex, _, _) (y, dy, ey, _, _) fa fb e =
      let (kind, after_kind) =
        pair-IsPrefix append_u8 u8-IsPrefix (payload_kind a.payload) (payload_kind b.payload) _ _ []
          [] (payload_kind-lt a.payload) (payload_kind-lt b.payload)
          (ap (λ w. w ++ []) (sym ex ∙ e ∙ ey)) in
      let (same, rest) =
        pair-IsPrefix append_type type-IsPrefix a.result_type b.result_type _ _ [] [] fa.0 fb.0
          after_kind in
      let bytes : y ≡ x = sym (append-nil y) ∙ sym rest ∙ append-nil x in
      (
        same,
        payload-SameCode m left right lg rg a.result_type a.payload b.payload x fa.1 fb.1 kind dx
            (dy ∙ ap some bytes),
      )

  -- Nodes compared as equal have one value.
  records-same :
      IsModel m lg left
      → IsModel m rg right
      → GraphFits lg
      → GraphFits rg
      → (fuel : ℕ) (l r : NodeId) → compare_records fuel lg l rg r ≡ some equal
      → left l ≡ right r
  unfolding compare_records
  records-same ml mr fl fr zero l r h = absurd (ground arith)
  records-same ml mr fl fr (suc fuel) l r h =
      let go : NodeId → NodeId → Option Ordering = λ a b. compare_records fuel lg a rg b in
      let (rl, rr, read_l, read_r, bytes, children) =
        compare_record-equal go (record_of lg l) (record_of rg r) h in
      let (a, at_l, ra) = record_of-Recorded lg l rl read_l in
      let (b, at_r, rb) = record_of-Recorded rg r rr read_r in
      let (t, codes) =
        nodes-SameCode l.index r.index a b rl rr ra rb (fl l a at_l) (fr r b at_r)
          (compare_bytes-equal rl.data_bytes rr.data_bytes bytes) in
      let operands =
        children-same go (records-same ml mr fl fr fuel) (payload_operands a.payload)
          (payload_operands b.payload) codes.0 (cc (children, ra.3, rb.3)) in
      let (d, read) = payload_value-total m left lg a.result_type a.payload ra.0 ra.1 in
      ml l a d at_l read ∙ sym (mr r b d at_r (cc (t, codes.1 operands, read)))

-- Nodes that are structurally equal have one value under every meaning of types, constants, names,
-- keys and attributes, if each graph's values are those of its nodes and its numbers are of the
-- widths of the program.
pub equal_nodes-same :
    {D : Type 0} (m : Meaning D) (left right : NodeId → D) (lg rg : ExpressionGraph) (l r : NodeId)
    → IsModel m lg left
    → IsModel m rg right
    → GraphFits lg
    → GraphFits rg
    → equal_nodes lg l rg r ≡ true
    → left l ≡ right r
unfolding equal_nodes compare
equal_nodes-same m left right lg rg l r ml mr fl fr h =
    records-same m left right lg rg ml mr fl fr (suc (size lg)) l r
      (is_equal-some (compare lg l rg r) h)
