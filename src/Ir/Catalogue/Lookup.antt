-- ===== src/Ir/Catalogue/Lookup.antt =====
-- Registration and lookup of lib/ir/operation_catalogue.cpp.
use sivra.Prelude.{
  ℕ, ◌≡◌, ◌↔◌, refl, ap, ◌∙◌, false, ◌||◌, inl, inr, has_value, any, List, [], ◌∷◌, Option, none,
  some, Option-cases, length, get_elem?, get_elem?-push_back_cases, ==-cases, ◌==◌, nat_eq, list_eq,
  Text, arith, subst,
}
use sivra.Prelude.Map.{map_find, emplace, map_find-emplace}
use sivra.Core.Result.{ok}
use sivra.Ir.Ids.{OperationId, OwnerToken}
use sivra.Ir.Operation.{OperationKey, OperationDef, OperationRegistration}
use sivra.Ir.Catalogue.{
  CatalogueBuilder, OperationCatalogue, key_index_value, operation, find, catalogue_builder,
  check_registrations, make_definition, add_registration, add_registrations, register_operations,
  freeze,
}
use sivra.Ir.Catalogue.Keys.{key_index_value-injective}
use sivra.Ir.Catalogue.Index.{Indexes, empty-Indexes, push_back-Indexes}

abbrev key_text : OperationDef → Text
key_text d = key_index_value d.stable_key

abbrev name_text : OperationDef → Text
name_text d = d.name

-- Both indexes agree with the definitions, and each definition has the id of its place.
pub record IsIndexed (owner : OwnerToken) (definitions : List OperationDef)
    (by_key by_name : List (Text × OperationId)) : Type 0 where
  pub keys : Indexes owner key_text definitions by_key
  pub names : Indexes owner name_text definitions by_name
  pub ids :
      (i : ℕ) (d : OperationDef)
      → get_elem? definitions i ≡ some d
      → d.id ≡ record { index = i; owner = owner }

abbrev pub BuilderIsIndexed : CatalogueBuilder → Type 0
BuilderIsIndexed b = IsIndexed b.owner b.definitions b.by_key b.by_name

abbrev pub CatalogueIsIndexed : OperationCatalogue → Type 0
CatalogueIsIndexed c = IsIndexed c.owner c.definitions c.by_key c.by_name

add_registration-IsIndexed :
    (b : CatalogueBuilder) (r : OperationRegistration)
    → BuilderIsIndexed b
    → map_find (key_index_value r.key) b.by_key ≡ none
    → map_find r.name b.by_name ≡ none
    → BuilderIsIndexed (add_registration b r)
unfolding add_registration
add_registration-IsIndexed b r v new_key new_name = record {
  keys = push_back-Indexes b.owner key_text v.keys d new_key;
  names = push_back-Indexes b.owner name_text v.names d new_name;
  ids = λ i c e. elim (get_elem?-push_back_cases b.definitions d i {a = c} e) [
    | inl old ↦ v.ids i c old
    | inr (last, same) ↦ rw (same, last) refl
  ];
}
  where
    d : OperationDef
    d = make_definition (record { index = length b.definitions; owner = b.owner }) r

-- The index `now` holds what `old` held and the texts `more`.
abbrev Grew : List (Text × OperationId) → List Text → List (Text × OperationId) → Type 0
Grew old more now =
    (k : Text) → has_value (map_find k now) ≡ (has_value (map_find k old) || any (λ j. j == k) more)

Grew-emplace :
    (old now : List (Text × OperationId)) (more : List Text) (k : Text) (id : OperationId)
    → Grew old more now
    → Grew old (k ∷ more) (emplace k id now)
Grew-emplace old now more k id g j = elim (==-cases k j) [
  | inl (same, test) ↦
      ground (arith, map_find-emplace k j id now, g j, ap (λ t. has_value (map_find t now)) same)
  | inr (_, test) ↦ ground (arith, map_find-emplace k j id now, g j)
]

absent : (o : Option OperationId) → has_value o ≡ false → o ≡ none
absent o h = ground arith

-- The loop of `register_operations`: `now` is the builder after the registrations before.
add_registrations-IsIndexed :
    (b now : CatalogueBuilder) (keys names : List Text) (rs : List OperationRegistration)
    → BuilderIsIndexed now
    → Grew b.by_key keys now.by_key
    → Grew b.by_name names now.by_name
    → check_registrations b keys names rs ≡ ok tt
    → BuilderIsIndexed (add_registrations now rs).0
unfolding check_registrations add_registrations
add_registrations-IsIndexed b now keys names [] v gk gn h = v
add_registrations-IsIndexed b now keys names (r ∷ rs) v gk gn h =
    add_registrations-IsIndexed b (add_registration now r) (key_index_value r.key ∷ keys)
      (r.name ∷ names) rs
      (add_registration-IsIndexed now r v (absent _ (gk (key_index_value r.key) ∙ ground arith))
        (absent _ (gn r.name ∙ ground arith)))
      (unfold add_registration in
        Grew-emplace b.by_key now.by_key keys (key_index_value r.key) _ gk)
      (unfold add_registration in Grew-emplace b.by_name now.by_name names r.name _ gn)
      (ground arith)

-- A registration that succeeds keeps both indexes in agreement with the definitions.
pub register_operations-IsIndexed :
    (b : CatalogueBuilder) (rs : List OperationRegistration) (b' : CatalogueBuilder)
    (ids : List OperationId)
    → BuilderIsIndexed b
    → register_operations b rs ≡ ok (b', ids)
    → BuilderIsIndexed b'
unfolding register_operations
register_operations-IsIndexed b rs b' ids v h =
    let e : (add_registrations b rs).0 ≡ b' = ground arith in
    subst BuilderIsIndexed e (
      add_registrations-IsIndexed b b [] [] rs v (λ k. ground arith) (λ k. ground arith)
        (ground arith))

pub catalogue_builder-IsIndexed : (owner : OwnerToken) → BuilderIsIndexed (catalogue_builder owner)
unfolding catalogue_builder
catalogue_builder-IsIndexed owner = record {
  keys = empty-Indexes owner key_text;
  names = empty-Indexes owner name_text;
  ids = λ i d e. cc;
}

pub freeze-IsIndexed :
    (b b' : CatalogueBuilder) (c : OperationCatalogue)
    → BuilderIsIndexed b
    → freeze b ≡ ok (b', c)
    → CatalogueIsIndexed c
unfolding freeze
freeze-IsIndexed b b' c v h =
    let made : OperationCatalogue = record {
      owner = b.owner;
      definitions = b.definitions;
      by_key = b.by_key;
      by_name = b.by_name;
    } in
    let e : made ≡ c = ground arith in subst CatalogueIsIndexed e v

-- In an indexed catalogue a key finds an operation exactly if the operation is listed with that key;
-- the id of what is found then leads to it.
pub find_iff :
    (c : OperationCatalogue) (key : OperationKey) (d : OperationDef)
    → CatalogueIsIndexed c
    → (find c key ≡ some d) ↔ ((d.stable_key ≡ key) × (operation c d.id ≡ some d))
unfolding find operation
find_iff c key d v = (to, from)
  where
    to : find c key ≡ some d → (d.stable_key ≡ key) × (operation c d.id ≡ some d)
    to h = elim (Option-cases (map_find (key_index_value key) c.by_key)) [
      | inl missing ↦ ground arith
      | inr (id, found) ↦
          let (e, at_id, own, text) = v.keys.sound (key_index_value key) id found in
          let same : e ≡ d = ground arith in
          (
            key_index_value-injective d.stable_key key (rw (← same) text),
            ground (arith, v.ids id.index e at_id),
          )
    ]

    from : (d.stable_key ≡ key) × (operation c d.id ≡ some d) → find c key ≡ some d
    from (named, listed) =
        let at_id : get_elem? c.definitions d.id.index ≡ some d = ground arith in
        let found = v.keys.complete d.id.index d at_id in ground (arith, ap key_index_value named)
