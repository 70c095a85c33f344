-- ===== src/Ir/Structural/Comparison.antt =====
-- The comparison of lib/ir/structural.cpp on graphs that validate.
use Prim.Native.Nat.{zero, suc}
use sivra.Prelude.{
  ℕ, ◌<◌, ◌≡◌, refl, ap, true, List, [], ◌∷◌, Option, some, length, all, All, Text, arith, nat_eq,
}
use sivra.Core.Result.{ok}
use sivra.Ir.Ids.{NodeId}
use sivra.Ir.Graph.{ExpressionGraph, contains, size}
use sivra.Ir.Validation.{is_earlier, validate_graph}
use sivra.Ir.Structural.{
  NodeRecord, record_of, Ordering, less, equal, greater, compare_bytes, compare_children,
  compare_record, compare_records, compare, is_equal, equal_nodes,
}
use sivra.Ir.Structural.Records.{record_of-Recorded}
use sivra.Ir.Structural.Meaning.{Meaning, GraphFits}
use sivra.Ir.Structural.Equality.{compare_bytes-equal, nodes-SameCode}
use sivra.Ir.Structural.Readable.{ConstantsMade, record_of-total}

-- A node that a walk with so much fuel can still enter.
abbrev Within : ExpressionGraph → ℕ → NodeId → Type 0
Within g fuel o = (contains g o ≡ true) × (o.index < fuel)

operands-Within :
    (g : ExpressionGraph) (index fuel : ℕ) (os : List NodeId)
    → index < suc fuel
    → index < size g
    → all (is_earlier g index) os ≡ true
    → All (Within g fuel) os
unfolding is_earlier contains size
operands-Within g index fuel [] p q h = tt
operands-Within g index fuel (o ∷ os) p q h =
    ((ground arith, ground arith), operands-Within g index fuel os p q (ground arith))

children-Within :
    (g : ExpressionGraph) (fuel : ℕ) (o : NodeId) (r : NodeRecord)
    → contains g o ≡ true
    → o.index < suc fuel
    → record_of g o ≡ some r
    → All (Within g fuel) r.children
unfolding contains size
children-Within g fuel o r h p read =
    let (_, _, made) = record_of-Recorded g o r read in
    rw made.3 (operands-Within g o.index fuel _ p (ground arith) made.4)

compare_children-next :
    (go : NodeId → NodeId → Option Ordering) (l r : NodeId) (ls rs : List NodeId) (o : Ordering)
    → go l r ≡ some o
    → ((p : Ordering) × (compare_children go ls rs ≡ some p))
    → (p : Ordering) × (compare_children go (l ∷ ls) (r ∷ rs) ≡ some p)
compare_children-next go l r ls rs less h rest = (less, ground arith)
compare_children-next go l r ls rs greater h rest = (greater, ground arith)
compare_children-next go l r ls rs equal h (p, rest) = (p, ground arith)

compare_children-total :
    (go : NodeId → NodeId → Option Ordering) (P Q : NodeId → Type 0)
    → ((l r : NodeId) → P l → Q r → (o : Ordering) × (go l r ≡ some o))
    → (ls rs : List NodeId) → length ls ≡ length rs
    → All P ls
    → All Q rs
    → (o : Ordering) × (compare_children go ls rs ≡ some o)
compare_children-total go P Q each [] rs n ps qs = (equal, refl)
compare_children-total go P Q each (l ∷ ls) [] n ps qs = absurd (omega (arith, n))
compare_children-total go P Q each (l ∷ ls) (r ∷ rs) n (p, ps) (q, qs) =
    let (o, here) = each l r p q in
    compare_children-next go l r ls rs o here
      (compare_children-total go P Q each ls rs (omega (arith, n)) ps qs)

compare_record-next :
    (go : NodeId → NodeId → Option Ordering) (a b : NodeRecord) (o : Ordering)
    → compare_bytes a.data_bytes b.data_bytes ≡ o
    → (o ≡ equal → (p : Ordering) × (compare_children go a.children b.children ≡ some p))
    → (p : Ordering) × (compare_record go (some a) (some b) ≡ some p)
compare_record-next go a b less h rest = (less, ground arith)
compare_record-next go a b greater h rest = (greater, ground arith)
compare_record-next go a b equal h rest = let (p, e) = rest refl in (p, ground arith)

nothing : Meaning (Unit {0})
nothing = record {
  of_constant = λ _ _. tt;
  of_symbol = λ _ _. tt;
  of_external_value = λ _ _. tt;
  of_unknown = λ _ _. tt;
  of_operation = λ _ _ _ _. tt;
  of_merge = λ _ _. tt;
}

module _ (lg rg : ExpressionGraph) (fl : GraphFits lg) (fr : GraphFits rg) where
  children-counted :
      (l r : NodeId) (a b : NodeRecord)
      → record_of lg l ≡ some a
      → record_of rg r ≡ some b
      → compare_bytes a.data_bytes b.data_bytes ≡ equal
      → length a.children ≡ length b.children
  children-counted l r a b read_l read_r h =
      let (m, at_l, ra) = record_of-Recorded lg l a read_l in
      let (n, at_r, rb) = record_of-Recorded rg r b read_r in
      let (_, codes) =
        nodes-SameCode nothing (λ _. tt) (λ _. tt) lg rg l.index r.index m n a b ra rb (fl l m at_l)
          (fr r n at_r) (compare_bytes-equal a.data_bytes b.data_bytes h) in
      cc (codes.0, ra.3, rb.3)

  compare_records-total :
      validate_graph lg ≡ ok tt
      → validate_graph rg ≡ ok tt
      → ConstantsMade lg
      → ConstantsMade rg
      → (fuel : ℕ) (l r : NodeId) → Within lg fuel l
      → contains rg r ≡ true
      → (o : Ordering) × (compare_records fuel lg l rg r ≡ some o)
  unfolding compare_records
  compare_records-total vl vr ml mr zero l r (_, p) q = absurd (omega arith)
  compare_records-total vl vr ml mr (suc fuel) l r (p, lt) q =
      let (a, read_l) = record_of-total lg vl ml l p in
      let (b, read_r) = record_of-total rg vr mr r q in
      let go : NodeId → NodeId → Option Ordering = λ x y. compare_records fuel lg x rg y in
      let (o, e) =
        compare_record-next go a b (compare_bytes a.data_bytes b.data_bytes) refl (λ same.
          compare_children-total go (Within lg fuel) (Within rg r.index)
            (λ x y in_left in_right. compare_records-total vl vr ml mr fuel x y in_left in_right.0)
            a.children b.children (children-counted l r a b read_l read_r same)
            (children-Within lg fuel l a p lt read_l)
            (children-Within rg r.index r b q (omega arith) read_r)) in
      (o, cc (e, read_l, read_r))

-- The comparison of two nodes returns an order, and so its recursion ends, for graphs that validate,
-- whose constants are as the factories make them and whose numbers are of the widths of the program.
pub compare-returns :
    (lg rg : ExpressionGraph) (l r : NodeId)
    → validate_graph lg ≡ ok tt
    → validate_graph rg ≡ ok tt
    → ConstantsMade lg
    → ConstantsMade rg
    → GraphFits lg
    → GraphFits rg
    → contains lg l ≡ true
    → contains rg r ≡ true
    → (o : Ordering) × (compare lg l rg r ≡ some o)
unfolding compare contains size
compare-returns lg rg l r vl vr ml mr fl fr p q =
    compare_records-total lg rg fl fr vl vr ml mr (suc (size lg)) l r (p, ground arith) q

compare_bytes_self : (xs : Text) → compare_bytes xs xs ≡ equal
unfolding compare_bytes
compare_bytes_self [] = refl
compare_bytes_self (x ∷ xs) = ground (arith, compare_bytes_self xs)

compare_children_self :
    (go : NodeId → NodeId → Option Ordering) (P : NodeId → Type 0)
    → ((o : NodeId) → P o → go o o ≡ some equal)
    → (os : List NodeId) → All P os
    → compare_children go os os ≡ some equal
compare_children_self go P each [] ps = refl
compare_children_self go P each (o ∷ os) (p, ps) =
    let here = each o p in let rest = compare_children_self go P each os ps in ground arith

compare_record_self :
    (go : NodeId → NodeId → Option Ordering) (a : NodeRecord)
    → compare_children go a.children a.children ≡ some equal
    → compare_record go (some a) (some a) ≡ some equal
compare_record_self go a h = ground (arith, compare_bytes_self a.data_bytes)

module _ (g : ExpressionGraph) (valid : validate_graph g ≡ ok tt) (made : ConstantsMade g) where
  compare_records_self :
      (fuel : ℕ) (o : NodeId) → Within g fuel o → compare_records fuel g o g o ≡ some equal
  unfolding compare_records
  compare_records_self zero o (_, p) = absurd (omega arith)
  compare_records_self (suc fuel) o (p, lt) =
      let (a, read) = record_of-total g valid made o p in
      let go : NodeId → NodeId → Option Ordering = λ x y. compare_records fuel g x g y in
      let operands =
        compare_children_self go (Within g fuel) (compare_records_self fuel) a.children
          (children-Within g fuel o a p lt read) in
      cc (compare_record_self go a operands, read)

  -- A node of a graph that validates, with constants as the factories make them, is structurally
  -- equal to itself.
  pub equal_nodes_self : (o : NodeId) → contains g o ≡ true → equal_nodes g o g o ≡ true
  unfolding equal_nodes compare contains size
  equal_nodes_self o p = ap is_equal (compare_records_self (suc (size g)) o (p, ground arith))
