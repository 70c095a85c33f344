-- ===== src/Canonicalizer/Rules/Annihilators.antt =====
-- The collapse to an annihilator in lib/canonicalizer/rules/algebraic.cpp keeps values.
use sivra.Prelude.{
  ◌+◌, ◌≡◌, refl, ap, sym, ◌∙◌, Bool, Bool-cases, true, ◌||◌, if◌then◌else◌, inl, inr, List, [],
  ◌∷◌, ◌++◌, map, none, some, Option-cases, length, length-append, has_value, arith, ◌==◌, nat_eq,
}
use mathlib.Core.List.{append_assoc, map-append}
use sivra.Ir.ValueType.{value_type_eq}
use sivra.Ir.Ids.{NodeId}
use sivra.Ir.Operation.{OperationConstant, OperationSemantics, OperationDef}
use sivra.Ir.Structural.Meaning.{Meaning, IsModel}
use sivra.Canonicalizer.Rewrite.{
  RewriteSubject, RewriteResult, no_match, replace_with, RewriteContext, operation,
}
use sivra.Canonicalizer.Rules.Match.{operand_matches}
use sivra.Canonicalizer.Rules.Algebraic.{annihilators_at, collapse, apply_annihilator_collapse}
use sivra.Canonicalizer.Rules.Meaning.{HasValue, ResultHasValue}
use sivra.Canonicalizer.Rules.Constants.{at_front, at_back, operand_matches-cases}
use sivra.Canonicalizer.Rules.Denotes.{IsConstant, IgnoresZeroSigns, Reads}

-- The operation of the subject gives what its declared annihilator stands for wherever that is, or where
-- it is first or last.
abbrev pub HonoursAnnihilators : {D : Type 0} → Meaning D → RewriteContext → RewriteSubject → Type 0
HonoursAnnihilators {D} m c s =
    (d : OperationDef)
    → operation c s.operation ≡ some d
    → ((k : OperationConstant) (xs zs : List D) (y : D)
        → d.semantics.annihilator ≡ some k
        → IsConstant m s.result_type k y
        → m.of_operation s.result_type d.stable_key s.attributes (xs ++ y ∷ zs) ≡ y)
      × ((k : OperationConstant) (zs : List D) (y : D)
          → d.semantics.left_annihilator ≡ some k
          → IsConstant m s.result_type k y
          → m.of_operation s.result_type d.stable_key s.attributes (y ∷ zs) ≡ y)
      × ((k : OperationConstant) (xs : List D) (y : D)
          → d.semantics.right_annihilator ≡ some k
          → IsConstant m s.result_type k y
          → m.of_operation s.result_type d.stable_key s.attributes (xs ++ y ∷ []) ≡ y)

abbrev declares : OperationSemantics → Bool
declares sem =
    has_value sem.annihilator || has_value sem.left_annihilator || has_value sem.right_annihilator

module _ {D : Type 0} (m : Meaning D) (values : NodeId → D) (c : RewriteContext)
    (s : RewriteSubject) where
  -- An operand that matches an annihilator at its place has the value of the whole.
  annihilates :
      (d : OperationDef) (v : D) (before after : List NodeId) (o : NodeId)
      → Reads m c.graph values
      → HonoursAnnihilators m c s
      → operation c s.operation ≡ some d
      → m.of_operation s.result_type d.stable_key s.attributes (map values (before ++ o ∷ after))
        ≡ v
      → operand_matches s c o
          (annihilators_at d.semantics (length before) (length (before ++ o ∷ after)))
        ≡ some true
      → values o ≡ v
  annihilates d v before after o model honours found e h =
      let (anywhere, first, last) = honours d found in
      let f = λ (vs : List D). m.of_operation s.result_type d.stable_key s.attributes vs in
      let split = ap f (map-append values before (o ∷ after)) in
      elim (operand_matches-cases m values c s o d.semantics.annihilator
        (if length before == 0 then d.semantics.left_annihilator else none)
        (if length before + 1 == length (before ++ o ∷ after)
          then d.semantics.right_annihilator
          else none)
        model h) [
          | inl (k, given, is_k) ↦
              sym (anywhere k (map values before) (map values after) (values o) given is_k)
              ∙ sym split
              ∙ e
          | inr (inl (k, given, is_k)) ↦
              let none_before : before ≡ [] =
                at_front before k d.semantics.left_annihilator given in
              let declared : d.semantics.left_annihilator ≡ some k = ground arith in
              sym (first k (map values after) (values o) declared is_k)
              ∙ sym (ap (λ l. f (map values (l ++ o ∷ after))) none_before)
              ∙ e
          | inr (inr (k, given, is_k)) ↦
              let none_after : after ≡ [] =
                at_back before after o k d.semantics.right_annihilator given in
              let declared : d.semantics.right_annihilator ≡ some k = ground arith in
              sym (last k (map values before) (values o) declared is_k)
              ∙ sym (ap (λ l. f (map values before ++ values o ∷ map values l)) none_after)
              ∙ sym split
              ∙ e
        ]

  collapse-value :
      (d : OperationDef) (v : D) (r : RewriteResult) (before os : List NodeId)
      → Reads m c.graph values
      → HonoursAnnihilators m c s
      → operation c s.operation ≡ some d
      → m.of_operation s.result_type d.stable_key s.attributes (map values s.operands) ≡ v
      → s.operands ≡ before ++ os
      → collapse c s d.semantics (length before) os ≡ some r
      → ResultHasValue m values c v r
  unfolding collapse
  collapse-value d v r before [] model honours found e parts h =
      let made : r ≡ no_match = ground arith in rw made tt
  collapse-value d v r before (o ∷ os) model honours found e parts h =
      elim (Option-cases
        (operand_matches s c o (annihilators_at d.semantics (length before) (length s.operands)))) [
          | inl failed ↦ absurd (ground arith)
          | inr (b, tested) ↦ elim (Bool-cases b) [
            | inl yes' ↦
                let made : r ≡ replace_with o = ground arith in
                rw made (
                  annihilates d v before os o model honours found
                    (ap (λ l. m.of_operation s.result_type d.stable_key s.attributes (map values l))
                        (sym parts)
                      ∙ e)
                    (ap
                        (λ l.
                          operand_matches s c o
                            (annihilators_at d.semantics (length before) (length l)))
                        (sym parts)
                      ∙ tested
                      ∙ ap some yes'))
            | inr no' ↦
                let next : length (before ++ o ∷ []) ≡ length before + 1 =
                  length-append before (o ∷ []) in
                let rest : collapse c s d.semantics (length before + 1) os ≡ some r =
                  ground arith in
                collapse-value d v r (before ++ o ∷ []) os model honours found e
                  (parts ∙ sym (append_assoc before (o ∷ []) os))
                  (ap (λ i. collapse c s d.semantics i os) next ∙ rest)
          ]
        ]

-- Where the subject's operation gives what its declared annihilators stand for, no constant of the graph
-- has another value for a -0.0 in it than for a 0.0, and the values are those of the graph's nodes, the
-- collapse to an annihilator keeps the value of the subject.
pub apply_annihilator_collapse-same :
    {D : Type 0} (m : Meaning D) (values : NodeId → D) (c : RewriteContext) (s : RewriteSubject)
    (v : D) (r : RewriteResult)
    → IsModel m c.graph values
    → IgnoresZeroSigns m c.graph
    → HonoursAnnihilators m c s
    → HasValue m values c s.operation s.operands s.attributes s.result_type v
    → apply_annihilator_collapse c s ≡ some r
    → ResultHasValue m values c v r
unfolding apply_annihilator_collapse
apply_annihilator_collapse-same m values c s v r model signs honours (d, found, e) h =
    elim (Bool-cases (declares d.semantics)) [
      | inr other ↦ let made : r ≡ no_match = ground arith in rw made tt
      | inl given ↦
          let went : collapse c s d.semantics 0 s.operands ≡ some r = ground arith in
          collapse-value m values c s d v r [] s.operands (model, signs) honours found e refl went
    ]
