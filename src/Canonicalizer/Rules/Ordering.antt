-- ===== src/Canonicalizer/Rules/Ordering.antt =====
-- The ordering of lib/canonicalizer/rules/structural.cpp keeps values.
use sivra.Prelude.{◌≡◌, ap, ◌∙◌, Bool-cases, inl, inr, List, map, some, arith, ◌==◌, list_eq}
use mathlib.Core.List.{Permᴰ}
use sivra.Prelude.Sort.{stable_sort, stable_sort-perm}
use sivra.Ir.Ids.{NodeId, node_id_eq}
use sivra.Ir.Trait.{commutative}
use sivra.Ir.Operation.{OperationDef}
use sivra.Ir.Structural.Meaning.{Meaning}
use sivra.Canonicalizer.Rewrite.{RewriteSubject, RewriteResult, no_match, RewriteContext, operation}
use sivra.Canonicalizer.Rules.Structural.{
  trait_applies, node_less, ordered_result, apply_commutative_ordering,
}
use sivra.Canonicalizer.Rules.Meaning.{HonoursTraits, HasValue, ResultHasValue}

perm-map : {A B : Type 0} (f : A → B) {xs ys : List A} → Permᴰ xs ys → Permᴰ (map f xs) (map f ys)
perm-map f Permᴰ.nil = Permᴰ.nil
perm-map f (Permᴰ.cons e p) = Permᴰ.cons (ap f e) (perm-map f p)
perm-map f (Permᴰ.swap e e') = Permᴰ.swap (ap f e) (ap f e')
perm-map f (Permᴰ.trans p q) = Permᴰ.trans (perm-map f p) (perm-map f q)

ordered_result-value :
    {D : Type 0} (m : Meaning D) (values : NodeId → D) (c : RewriteContext) (s : RewriteSubject)
    (d : OperationDef) (v : D) (os : List NodeId)
    → operation c s.operation ≡ some d
    → m.of_operation s.result_type d.stable_key s.attributes (map values os) ≡ v
    → ResultHasValue m values c v (ordered_result s os)
ordered_result-value m values c s d v os found e = elim (Bool-cases (os == s.operands)) [
  | inl same ↦ rw same tt
  | inr other ↦ rw other (d, found, e)
]

-- Where a meaning is as the traits of the operations say, putting commutative operands in order
-- keeps the value of the subject.
pub apply_commutative_ordering-same :
    {D : Type 0} (m : Meaning D) (values : NodeId → D) (c : RewriteContext) (s : RewriteSubject)
    (v : D) (r : RewriteResult)
    → HonoursTraits m c
    → HasValue m values c s.operation s.operands s.attributes s.result_type v
    → apply_commutative_ordering c s ≡ some r
    → ResultHasValue m values c v r
unfolding apply_commutative_ordering
apply_commutative_ordering-same m values c s v r honours (d, found, e) h =
    elim (Bool-cases (trait_applies c s d commutative)) [
      | inr other ↦ let made : r ≡ no_match = ground arith in rw made tt
      | inl applies ↦
          let sorted = stable_sort (node_less c.graph) s.operands in
          let made : r ≡ ordered_result s sorted = ground arith in
          let law = (honours s.operation d s.result_type s.attributes found).1 (ground arith) in
          let moved = perm-map values (stable_sort-perm (node_less c.graph) s.operands) in
          rw made (
            ordered_result-value m values c s d v sorted found
              (law (map values sorted) (map values s.operands) moved ∙ e))
    ]
