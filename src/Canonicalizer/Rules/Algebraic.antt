-- ===== src/Canonicalizer/Rules/Algebraic.antt =====
-- lib/canonicalizer/rules/algebraic.cpp: copies, identities and annihilators.
use sivra.Prelude.{
  ℕ, ◌+◌, Bool, true, false, ◌&&◌, ◌||◌, if◌then◌else◌, List, [], ◌∷◌, Option, none, some, length,
  is_empty, has_value, push_back, ◌==◌, nat_eq,
}
use sivra.Ir.Ids.{NodeId}
use sivra.Ir.Operation.{OperationConstant, OperationSemantics, operation_key, operation_key_eq}
use sivra.Canonicalizer.Rewrite.{
  RewriteSubject, RewriteResult, no_match, replace_with, RewriteContext, operation,
}
use sivra.Canonicalizer.Rules.Structural.{with_operands, on_operation}
use sivra.Canonicalizer.Rules.Match.{present, operand_matches}

abbrev pub copied : List NodeId → RewriteResult
copied (o ∷ []) = replace_with o
copied os = no_match

unfoldable pub apply_copy_elimination : RewriteContext → RewriteSubject → Option RewriteResult
apply_copy_elimination c s =
    on_operation
      (λ d.
        if d.stable_key == operation_key "copy" && is_empty s.attributes
        then some (copied s.operands)
        else some no_match)
      (operation c s.operation)

-- What an operand at place `index` of `count` may match: the constant for any place, the one for the
-- first and the one for the last.
abbrev pub expected_at :
    Option OperationConstant
    → Option OperationConstant
    → Option OperationConstant
    → ℕ
    → ℕ
    → List OperationConstant
expected_at anywhere left right index count = present anywhere (
    present (if index == 0 then left else none)
      (present (if index + 1 == count then right else none) []))

abbrev pub identities_at : OperationSemantics → ℕ → ℕ → List OperationConstant
identities_at sem index count =
    expected_at sem.identity sem.left_identity sem.right_identity index count

abbrev pub annihilators_at : OperationSemantics → ℕ → ℕ → List OperationConstant
annihilators_at sem index count =
    expected_at sem.annihilator sem.left_annihilator sem.right_annihilator index count

-- `first_identity` and `remaining`.
pub record IdentityLoop : Type 0 where
  pub first_identity : Option NodeId
  pub remaining : List NodeId

abbrev pub identity_round : IdentityLoop → NodeId → Bool → IdentityLoop
identity_round l o true = record l {
  first_identity = elim l.first_identity [ none ↦ some o | some first ↦ some first ];
}
identity_round l o false = record l { remaining = push_back l.remaining o }

abbrev pub on_match {ℓ} : {A : Type ℓ} → (Bool → Option A) → Option Bool → Option A
on_match go_on none = none
on_match go_on (some b) = go_on b

unfoldable pub eliminate_identities :
    RewriteContext
    → RewriteSubject
    → OperationSemantics
    → IdentityLoop
    → ℕ
    → List NodeId
    → Option IdentityLoop
eliminate_identities c s sem l index [] = some l
eliminate_identities c s sem l index (o ∷ os) =
    on_match (λ b. eliminate_identities c s sem (identity_round l o b) (index + 1) os)
      (operand_matches s c o (identities_at sem index (length s.operands)))

abbrev pub remaining_result : RewriteSubject → NodeId → List NodeId → RewriteResult
remaining_result s first [] = replace_with first
remaining_result s first (o ∷ []) = replace_with o
remaining_result s first os = with_operands s os

abbrev pub identity_result : RewriteSubject → Option IdentityLoop → Option RewriteResult
identity_result s none = none
identity_result s (some l) = elim l.first_identity [
  | none ↦ some no_match
  | some first ↦ some (remaining_result s first l.remaining)
]

unfoldable pub apply_identity_elimination : RewriteContext → RewriteSubject → Option RewriteResult
apply_identity_elimination c s =
    on_operation
      (λ d.
        if has_value d.semantics.identity
          || has_value d.semantics.left_identity
          || has_value d.semantics.right_identity
        then identity_result s (
            eliminate_identities c s d.semantics (record { first_identity = none; remaining = [] })
              0 s.operands)
        else some no_match)
      (operation c s.operation)

-- The loop over the operands from place `index` on.
unfoldable pub collapse :
    RewriteContext → RewriteSubject → OperationSemantics → ℕ → List NodeId → Option RewriteResult
collapse c s sem index [] = some no_match
collapse c s sem index (o ∷ os) =
    let rest = collapse c s sem (index + 1) os in
    on_match (λ b. if b then some (replace_with o) else rest)
      (operand_matches s c o (annihilators_at sem index (length s.operands)))

unfoldable pub apply_annihilator_collapse : RewriteContext → RewriteSubject → Option RewriteResult
apply_annihilator_collapse c s =
    on_operation
      (λ d.
        if has_value d.semantics.annihilator
          || has_value d.semantics.left_annihilator
          || has_value d.semantics.right_annihilator
        then collapse c s d.semantics 0 s.operands
        else some no_match)
      (operation c s.operation)
