-- ===== src/Canonicalizer/Rules/Meaning.antt =====
-- What it is for a rule of lib/canonicalizer/rules to keep the value of its subject.
use sivra.Prelude.{◌≤◌, ◌≡◌, true, List, [], ◌∷◌, ◌++◌, map, some, length}
use mathlib.Core.List.{Memᴰ, Permᴰ}
use sivra.Ir.ValueType.{ValueType}
use sivra.Ir.Ids.{NodeId, OperationId}
use sivra.Ir.Attribute.{OperationAttributes}
use sivra.Ir.Trait.{has_trait, associative, commutative, idempotent}
use sivra.Ir.Operation.{OperationDef}
use sivra.Ir.Structural.Meaning.{Meaning}
use sivra.Canonicalizer.Rewrite.{
  RewriteResult, no_match, replace_with, rebuild_expression, invalid_rewrite, RewriteContext,
  operation,
}

-- What the traits say of an operation on lists of values.
abbrev pub IsAssociative : {D : Type 0} → (List D → D) → Type 0
IsAssociative {D} f =
    (xs ys zs : List D) → 2 ≤ length ys → f (xs ++ f ys ∷ zs) ≡ f (xs ++ (ys ++ zs))

abbrev pub IsCommutative : {D : Type 0} → (List D → D) → Type 0
IsCommutative {D} f = (xs ys : List D) → Permᴰ xs ys → f xs ≡ f ys

-- A value that stands further in front need not be there again, and a single one is the result.
abbrev pub IsIdempotent : {D : Type 0} → (List D → D) → Type 0
IsIdempotent {D} f =
    ((x : D) → f (x ∷ []) ≡ x)
    × ((xs zs : List D) (y : D) → Memᴰ y xs → f (xs ++ y ∷ zs) ≡ f (xs ++ zs))

-- The meaning of each operation is as its traits say.
abbrev pub HonoursTraits : {D : Type 0} → Meaning D → RewriteContext → Type 0
HonoursTraits m c =
    (id : OperationId) (d : OperationDef) (t : ValueType) (as' : OperationAttributes)
    → operation c id ≡ some d
    → (has_trait d.semantics.traits associative ≡ true
        → IsAssociative (m.of_operation t d.stable_key as'))
      × (has_trait d.semantics.traits commutative ≡ true
          → IsCommutative (m.of_operation t d.stable_key as'))
      × (has_trait d.semantics.traits idempotent ≡ true
          → IsIdempotent (m.of_operation t d.stable_key as'))

-- The value of an operation on operands, with the values given.
abbrev pub HasValue :
    {D : Type 0}
    → Meaning D
    → (NodeId → D)
    → RewriteContext
    → OperationId
    → List NodeId
    → OperationAttributes
    → ValueType
    → D
    → Type 0
HasValue m values c id os as' t v =
    (d : OperationDef) × (operation c id ≡ some d)
    × (m.of_operation t d.stable_key as' (map values os) ≡ v)

-- The result has the value `v`, where there is one.
abbrev pub ResultHasValue :
    {D : Type 0} → Meaning D → (NodeId → D) → RewriteContext → D → RewriteResult → Type 0
ResultHasValue m values c v no_match = Unit
ResultHasValue m values c v (replace_with o) = values o ≡ v
ResultHasValue m values c v (rebuild_expression e) =
    HasValue m values c e.operation e.operands e.attributes e.result_type v
ResultHasValue m values c v (invalid_rewrite d) = Unit
