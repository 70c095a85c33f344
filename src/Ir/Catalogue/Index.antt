-- ===== src/Ir/Catalogue/Index.antt =====
-- The indexes of lib/ir/operation_catalogue.cpp and the list of definitions.
use sivra.Prelude.{
  ℕ, ◌≡◌, ◌≢◌, refl, ap, sym, ◌∙◌, inl, inr, if◌then◌else◌, List, [], ◌∷◌, none, some, length,
  push_back, get_elem?, get_elem?-append, get_elem?-push_back, get_elem?-push_back_cases,
  lt-get_elem?, ==-cases, ==-refl, ◌==◌, nat_eq, list_eq, Text, arith,
}
use sivra.Prelude.Map.{map_find, emplace, map_find-emplace}
use sivra.Ir.Ids.{OperationId, OwnerToken}
use sivra.Ir.Operation.{OperationDef}
use sivra.Ir.Catalogue.{KeyIndex}

-- `index` sends the text of each definition to its id, and nothing else to anything.
pub record Indexes (owner : OwnerToken) (text : OperationDef → Text)
    (definitions : List OperationDef) (index : KeyIndex) : Type 0 where
  pub complete :
      (i : ℕ) (d : OperationDef)
      → get_elem? definitions i ≡ some d
      → map_find (text d) index ≡ some (record { index = i; owner = owner })
  pub sound :
      (k : Text) (id : OperationId)
      → map_find k index ≡ some id
      → (d : OperationDef) × (get_elem? definitions id.index ≡ some d)
        × (id.owner ≡ owner)
        × (text d ≡ k)

none-ne-some : {id : OperationId} → none ≢ some id
none-ne-some h = cc

module _ (owner : OwnerToken) (text : OperationDef → Text) where
  pub empty-Indexes : Indexes owner text [] []
  unfolding map_find
  empty-Indexes = record { complete = λ i d e. cc; sound = λ k id e. cc }

  module _ {definitions : List OperationDef} {index : KeyIndex}
      (v : Indexes owner text definitions index) (d : OperationDef)
      (fresh : map_find (text d) index ≡ none) where
    new_id : OperationId
    new_id = record { index = length definitions; owner = owner }

    found-new :
        (k : Text)
        → map_find k (emplace (text d) new_id index)
          ≡ (if text d == k then some new_id else map_find k index)
    found-new k = map_find-emplace (text d) k new_id index ∙ rw fresh refl

    complete-new :
        (i : ℕ) (c : OperationDef)
        → get_elem? (push_back definitions d) i ≡ some c
        → map_find (text c) (emplace (text d) new_id index)
          ≡ some (record { index = i; owner = owner })
    unfolding new_id
    complete-new i c e = elim (get_elem?-push_back_cases definitions d i {a = c} e) [
      | inl old ↦ elim (==-cases (text d) (text c)) [
        | inl (same, _) ↦
            absurd (none-ne-some (sym fresh ∙ ap (λ k. map_find k index) same ∙ v.complete i c old))
        | inr (_, differ) ↦ found-new (text c) ∙ rw differ (v.complete i c old)
      ]
      | inr (last, same) ↦ rw (same, last) (found-new (text d) ∙ rw ==-refl refl)
    ]

    sound-new :
        (k : Text) (id : OperationId)
        → map_find k (emplace (text d) new_id index) ≡ some id
        → (c : OperationDef) × (get_elem? (push_back definitions d) id.index ≡ some c)
          × (id.owner ≡ owner)
          × (text c ≡ k)
    unfolding new_id
    sound-new k id e = elim (==-cases (text d) k) [
      | inl (same, test) ↦
          let is_new : id ≡ new_id = ground (arith, found-new k) in
          (d, rw is_new (get_elem?-push_back definitions d), rw is_new refl, same)
      | inr (_, test) ↦
          let old : map_find k index ≡ some id = ground (arith, found-new k) in
          let (c, at_index, own, named) = v.sound k id old in
          (
            c,
            get_elem?-append definitions (d ∷ []) id.index
                  (lt-get_elem? definitions id.index at_index)
                ∙ at_index,
            own,
            named,
          )
    ]

    -- A definition with a new text, put behind the others.
    pub push_back-Indexes :
        Indexes owner text
          (push_back definitions d)
          (emplace (text d) (record { index = length definitions; owner = owner }) index)
    unfolding new_id
    push_back-Indexes = record { complete = complete-new; sound = sound-new }
