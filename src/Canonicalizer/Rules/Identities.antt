-- ===== src/Canonicalizer/Rules/Identities.antt =====
-- The elimination of identities in lib/canonicalizer/rules/algebraic.cpp keeps values.
use sivra.Prelude.{
  ◌+◌, ◌≤◌, ◌≡◌, refl, ap, sym, ◌∙◌, Bool, Bool-cases, true, false, ◌||◌, if◌then◌else◌, ◌⊎◌, inl,
  inr, List, [], ◌∷◌, ◌++◌, map, Option, none, some, Option-cases, length, length-append, has_value,
  push_back, arith, ◌==◌, nat_eq,
}
use mathlib.Core.List.{append_assoc, map-append, append-nil}
use sivra.Ir.Ids.{NodeId}
use sivra.Ir.Operation.{OperationConstant, OperationSemantics, OperationDef}
use sivra.Ir.Structural.Meaning.{Meaning, IsModel}
use sivra.Canonicalizer.Rewrite.{RewriteSubject, RewriteResult, no_match, RewriteContext, operation}
use sivra.Canonicalizer.Rules.Match.{operand_matches}
use sivra.Canonicalizer.Rules.Algebraic.{
  identities_at, IdentityLoop, identity_round, eliminate_identities, remaining_result,
  identity_result, apply_identity_elimination,
}
use sivra.Canonicalizer.Rules.Constants.{at_front, at_back, operand_matches-cases}
use sivra.Canonicalizer.Rules.Denotes.{IsConstant, IgnoresZeroSigns, Reads}
use sivra.Canonicalizer.Rules.Meaning.{HasValue, ResultHasValue}

-- The operation of the subject does not see what its declared identity stands for beside another
-- operand, wherever that is, or
-- where it is first or last; and it gives a single operand back.
abbrev pub HonoursIdentities : {D : Type 0} → Meaning D → RewriteContext → RewriteSubject → Type 0
HonoursIdentities {D} m c s =
    (d : OperationDef)
    → operation c s.operation ≡ some d
    → ((x : D) → m.of_operation s.result_type d.stable_key s.attributes (x ∷ []) ≡ x)
      × ((k : OperationConstant) (xs zs : List D) (y : D)
          → d.semantics.identity ≡ some k
          → IsConstant m s.result_type k y
          → 1 ≤ length (xs ++ zs)
          → m.of_operation s.result_type d.stable_key s.attributes (xs ++ y ∷ zs)
            ≡ m.of_operation s.result_type d.stable_key s.attributes (xs ++ zs))
      × ((k : OperationConstant) (x : D) (zs : List D) (y : D)
          → d.semantics.left_identity ≡ some k
          → IsConstant m s.result_type k y
          → m.of_operation s.result_type d.stable_key s.attributes (y ∷ x ∷ zs)
            ≡ m.of_operation s.result_type d.stable_key s.attributes (x ∷ zs))
      × ((k : OperationConstant) (x : D) (xs : List D) (y : D)
          → d.semantics.right_identity ≡ some k
          → IsConstant m s.result_type k y
          → m.of_operation s.result_type d.stable_key s.attributes ((x ∷ xs) ++ y ∷ [])
            ≡ m.of_operation s.result_type d.stable_key s.attributes (x ∷ xs))

module _ {D : Type 0} (m : Meaning D) (values : NodeId → D) (c : RewriteContext)
    (s : RewriteSubject) (d : OperationDef) where
  abbrev value_of : List D → D
  value_of vs = m.of_operation s.result_type d.stable_key s.attributes vs

  -- The operand `o` matches an identity at its place.
  abbrev Matches : List NodeId → NodeId → List NodeId → Type 0
  Matches before o after =
      operand_matches s c o
        (identities_at d.semantics (length before) (length (before ++ o ∷ after)))
      ≡ some true

  -- At the front of a list of values, `o` can go.
  abbrev Front : NodeId → Type 0
  Front o = (x : D) (xs : List D) → value_of (values o ∷ x ∷ xs) ≡ value_of (x ∷ xs)

  leading_goes :
      Reads m c.graph values
      → HonoursIdentities m c s
      → operation c s.operation ≡ some d
      → (before after : List NodeId) (o : NodeId) → Matches before o after
      → (after ≡ []) ⊎ Front o
  leading_goes model honours found before after o h =
      let (_, anywhere, first, _) = honours d found in
      elim (operand_matches-cases m values c s o d.semantics.identity
        (if length before == 0 then d.semantics.left_identity else none)
        (if length before + 1 == length (before ++ o ∷ after)
          then d.semantics.right_identity
          else none)
        model h) [
          | inl (k, given, is_k) ↦
              inr (λ x xs. anywhere k [] (x ∷ xs) (values o) given is_k (omega arith))
          | inr (inl (k, given, is_k)) ↦
              let declared : d.semantics.left_identity ≡ some k = ground arith in
              inr (λ x xs. first k x xs (values o) declared is_k)
          | inr (inr (k, given, is_k)) ↦
              inl (at_back before after o k d.semantics.right_identity given)
        ]

  -- An identity behind a value can go.
  other_goes :
      Reads m c.graph values
      → HonoursIdentities m c s
      → operation c s.operation ≡ some d
      → (before after : List NodeId) (o : NodeId) (v : D) (vs : List D) → Matches before o after
      → 1 ≤ length before
      → value_of ((v ∷ vs) ++ values o ∷ map values after) ≡ value_of ((v ∷ vs) ++ map values after)
  other_goes model honours found before after o v vs h some_before =
      let (_, anywhere, _, last) = honours d found in
      elim (operand_matches-cases m values c s o d.semantics.identity
        (if length before == 0 then d.semantics.left_identity else none)
        (if length before + 1 == length (before ++ o ∷ after)
          then d.semantics.right_identity
          else none)
        model h) [
          | inl (k, given, is_k) ↦
              anywhere k (v ∷ vs) (map values after) (values o) given is_k (omega arith)
          | inr (inl (k, given, is_k)) ↦
              let nothing = at_front before k d.semantics.left_identity given in
              absurd (ground (arith, nothing, some_before))
          | inr (inr (k, given, is_k)) ↦
              let none_after : after ≡ [] =
                at_back before after o k d.semantics.right_identity given in
              let declared : d.semantics.right_identity ≡ some k = ground arith in
              rw none_after
                (last k v vs (values o) declared is_k ∙ ap value_of (sym (append-nil (v ∷ vs))))
        ]

  -- The value of the operands that the loop has kept, with those to come, is `v`.
  abbrev Kept : List NodeId → Option NodeId → List NodeId → List NodeId → D → Type 0
  Kept before none [] os v = (before ≡ []) × (value_of (map values os) ≡ v)
  Kept before (some i) [] os v =
      (1 ≤ length before) × (value_of (values i ∷ map values os) ≡ v) × ((os ≡ []) ⊎ Front i)
  Kept before first (r ∷ rs) os v =
      (1 ≤ length before) × (value_of (map values (r ∷ rs) ++ map values os) ≡ v)

  abbrev LoopKept : List NodeId → IdentityLoop → List NodeId → D → Type 0
  LoopKept before l os v = Kept before l.first_identity l.remaining os v

  longer : (before : List NodeId) (o : NodeId) → 1 ≤ length (before ++ o ∷ [])
  longer before o = omega (arith, length-append before (o ∷ []))

  -- An operand that matches nothing.
  unmatched_operand :
      (before : List NodeId) (first : Option NodeId) (rs os : List NodeId) (o : NodeId) (v : D)
      → Kept before first rs (o ∷ os) v
      → Kept (before ++ o ∷ []) first (push_back rs o) os v
  unmatched_operand before none [] os o v (_, e) = (longer before o, e)
  unmatched_operand before (some i) [] os o v (_, e, inl nothing) = absurd (ground arith)
  unmatched_operand before (some i) [] os o v (_, e, inr goes) =
      (longer before o, sym (goes (values o) (map values os)) ∙ e)
  unmatched_operand before none (r ∷ rs) os o v (_, e) = (
    longer before o,
    ap (λ vs. value_of (vs ++ map values os)) (map-append values (r ∷ rs) (o ∷ []))
        ∙ ap value_of (append_assoc (map values (r ∷ rs)) (values o ∷ []) (map values os))
        ∙ e,
  )
  unmatched_operand before (some i) (r ∷ rs) os o v (_, e) = (
    longer before o,
    ap (λ vs. value_of (vs ++ map values os)) (map-append values (r ∷ rs) (o ∷ []))
        ∙ ap value_of (append_assoc (map values (r ∷ rs)) (values o ∷ []) (map values os))
        ∙ e,
  )

  module _ (model : Reads m c.graph values) (honours : HonoursIdentities m c s)
      (found : operation c s.operation ≡ some d) where
    -- An operand that matches an identity.
    dropped_operand :
        (before : List NodeId) (first : Option NodeId) (rs os : List NodeId) (o : NodeId) (v : D)
        → Matches before o os
        → Kept before first rs (o ∷ os) v
        → LoopKept
            (before ++ o ∷ [])
            (identity_round (record { first_identity = first; remaining = rs }) o true)
            os
            v
    dropped_operand before none [] os o v h (none_before, e) =
        (longer before o, e, leading_goes model honours found before os o h)
    dropped_operand before (some i) [] os o v h (some_before, e, goes) = (
      longer before o,
      sym (other_goes model honours found before os o (values i) [] h some_before) ∙ e,
      elim goes [ inl nothing ↦ absurd (ground arith) | inr front ↦ inr front ],
    )
    dropped_operand before none (r ∷ rs) os o v h (some_before, e) = (
      longer before o,
      sym (other_goes model honours found before os o (values r) (map values rs) h some_before) ∙ e,
    )
    dropped_operand before (some i) (r ∷ rs) os o v h (some_before, e) = (
      longer before o,
      sym (other_goes model honours found before os o (values r) (map values rs) h some_before) ∙ e,
    )

    eliminate_identities-kept :
        (before os : List NodeId) (l l' : IdentityLoop) (v : D)
        → s.operands ≡ before ++ os
        → LoopKept before l os v
        → eliminate_identities c s d.semantics l (length before) os ≡ some l'
        → (after : List NodeId) × LoopKept after l' [] v
    unfolding eliminate_identities
    eliminate_identities-kept before [] l l' v parts kept h =
        let same : l ≡ l' = ground arith in (before, rw (← same) kept)
    eliminate_identities-kept before (o ∷ os) l l' v parts kept h =
        elim (Option-cases
          (operand_matches s c o (identities_at d.semantics (length before) (length s.operands)))) [
            | inl failed ↦ absurd (ground arith)
            | inr (b, tested) ↦
                let next : length (before ++ o ∷ []) ≡ length before + 1 =
                  length-append before (o ∷ []) in
                let rest : eliminate_identities c s d.semantics (identity_round l o b)
                      (length before + 1) os
                    ≡ some l' =
                  ground arith in
                let parts' = parts ∙ sym (append_assoc before (o ∷ []) os) in
                let here =
                  ap
                    (λ n.
                      operand_matches s c o (identities_at d.semantics (length before) (length n)))
                    (sym parts)
                  ∙ tested in
                eliminate_identities-kept (before ++ o ∷ []) os (identity_round l o b) l' v parts'
                  (round_kept before os o l b v here kept)
                  (ap (λ i. eliminate_identities c s d.semantics (identity_round l o b) i os) next
                    ∙ rest)
          ]
      where
        round_kept :
            (before os : List NodeId) (o : NodeId) (l : IdentityLoop) (b : Bool) (v : D)
            → operand_matches s c o
                (identities_at d.semantics (length before) (length (before ++ o ∷ os)))
              ≡ some b
            → LoopKept before l (o ∷ os) v
            → LoopKept (before ++ o ∷ []) (identity_round l o b) os v
        round_kept before os o l true v h kept =
            dropped_operand before l.first_identity l.remaining os o v h kept
        round_kept before os o l false v h kept =
            unmatched_operand before l.first_identity l.remaining os o v kept

    no_tail : (vs : List D) (v : D) → value_of (vs ++ []) ≡ v → value_of vs ≡ v
    no_tail vs v e = ap value_of (sym (append-nil vs)) ∙ e

    single_value : (x : D) → value_of (x ∷ []) ≡ x
    single_value = (honours d found).0

    remaining_result-value :
        (after : List NodeId) (first : NodeId) (rs : List NodeId) (v : D)
        → Kept after (some first) rs [] v
        → ResultHasValue m values c v (remaining_result s first rs)
    remaining_result-value after first [] v (_, e, _) = sym (single_value (values first)) ∙ e
    remaining_result-value after first (o ∷ []) v (_, e) = sym (single_value (values o)) ∙ e
    remaining_result-value after first (o ∷ p ∷ os) v (_, e) =
        (d, found, no_tail (map values (o ∷ p ∷ os)) v e)

    identity_result-value :
        (after : List NodeId) (first : Option NodeId) (rs : List NodeId) (v : D) (r : RewriteResult)
        → Kept after first rs [] v
        → identity_result s (some (record { first_identity = first; remaining = rs })) ≡ some r
        → ResultHasValue m values c v r
    identity_result-value after none rs v r kept h =
        let made : r ≡ no_match = ground arith in rw made tt
    identity_result-value after (some first) rs v r kept h =
        let made : r ≡ remaining_result s first rs = ground arith in
        rw made (remaining_result-value after first rs v kept)

abbrev declares : OperationSemantics → Bool
declares sem = has_value sem.identity || has_value sem.left_identity || has_value sem.right_identity

-- Where the subject's operation does not see what its declared identities stand for, no constant of the
-- graph has another value for a -0.0 in it than for a 0.0, and the values are those of the graph's nodes,
-- the elimination of identities keeps the value of the subject.
pub apply_identity_elimination-same :
    {D : Type 0} (m : Meaning D) (values : NodeId → D) (c : RewriteContext) (s : RewriteSubject)
    (v : D) (r : RewriteResult)
    → IsModel m c.graph values
    → IgnoresZeroSigns m c.graph
    → HonoursIdentities m c s
    → HasValue m values c s.operation s.operands s.attributes s.result_type v
    → apply_identity_elimination c s ≡ some r
    → ResultHasValue m values c v r
unfolding apply_identity_elimination
apply_identity_elimination-same m values c s v r model signs honours (d, found, e) h =
    let start : IdentityLoop = record { first_identity = none; remaining = [] } in
    elim (Bool-cases (declares d.semantics)) [
      | inr other ↦ let made : r ≡ no_match = ground arith in rw made tt
      | inl given ↦ elim (Option-cases (eliminate_identities c s d.semantics start 0 s.operands)) [
        | inl failed ↦ absurd (ground arith)
        | inr (l, went) ↦
            let (after, kept) =
              eliminate_identities-kept m values c s d (model, signs) honours found [] s.operands
                start l v refl (refl, e) went in
            let result : identity_result s (some l) ≡ some r = ground arith in
            identity_result-value m values c s d (model, signs) honours found after l.first_identity
              l.remaining v r kept result
      ]
    ]
