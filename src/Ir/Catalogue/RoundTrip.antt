-- ===== src/Ir/Catalogue/RoundTrip.antt =====
-- Registering, freezing and looking up, in lib/ir/operation_catalogue.cpp.
use sivra.Prelude.{
  ℕ, zero, suc, ◌+◌, ◌≡◌, refl, ap, sym, ◌∙◌, List, [], ◌∷◌, some, length, length-append, get_elem?,
  get_elem?-append, get_elem?-push_back, lt-get_elem?, nat_eq, arith, subst,
}
use sivra.Core.Result.{ok}
use sivra.Ir.Ids.{OperationId}
use sivra.Ir.Operation.{OperationDef, OperationRegistration}
use sivra.Ir.Catalogue.{
  CatalogueBuilder, OperationCatalogue, operation, find, make_definition, add_registration,
  add_registrations, register_operations, freeze,
}
use sivra.Ir.Catalogue.Lookup.{
  BuilderIsIndexed, CatalogueIsIndexed, register_operations-IsIndexed, freeze-IsIndexed, find_iff,
}

-- The definition that registration `i` of a batch becomes.
abbrev pub definition_at : CatalogueBuilder → ℕ → OperationRegistration → OperationDef
definition_at b i r =
    make_definition (record { index = length b.definitions + i; owner = b.owner }) r

add_registrations-keeps :
    (b : CatalogueBuilder) (rs : List OperationRegistration) (j : ℕ) (d : OperationDef)
    → get_elem? b.definitions j ≡ some d
    → get_elem? (add_registrations b rs).0.definitions j ≡ some d
unfolding add_registrations add_registration
add_registrations-keeps b [] j d e = e
add_registrations-keeps b (r ∷ rs) j d e =
    add_registrations-keeps (add_registration b r) rs j d
      (get_elem?-append b.definitions _ j (lt-get_elem? b.definitions j e) ∙ e)

add_registrations-owner :
    (b : CatalogueBuilder) (rs : List OperationRegistration)
    → (add_registrations b rs).0.owner ≡ b.owner
unfolding add_registrations add_registration
add_registrations-owner b [] = refl
add_registrations-owner b (r ∷ rs) = add_registrations-owner (add_registration b r) rs

add_registrations-lists :
    (b : CatalogueBuilder) (rs : List OperationRegistration) (i : ℕ) (r : OperationRegistration)
    → get_elem? rs i ≡ some r
    → get_elem? (add_registrations b rs).0.definitions (length b.definitions + i)
      ≡ some (definition_at b i r)
unfolding add_registrations add_registration
add_registrations-lists b [] i r e = cc
add_registrations-lists b (q ∷ rs) zero r e =
    let same : q ≡ r = ground arith in
    add_registrations-keeps (add_registration b q) rs (length b.definitions + 0)
      (definition_at b 0 r)
      (rw (← same, add_zero (length b.definitions)) (get_elem?-push_back b.definitions _))
  where
    add_zero : (n : ℕ) → n + 0 ≡ n
    add_zero n = omega arith
add_registrations-lists b (q ∷ rs) (suc i) r e =
    subst
      (λ k.
        get_elem? (add_registrations (add_registration b q) rs).0.definitions k
        ≡ some (make_definition (record { index = k; owner = b.owner }) r))
      (omega (
        arith,
        length-append b.definitions
            (make_definition (record { index = length b.definitions; owner = b.owner }) q ∷ []),
      ))
      (add_registrations-lists (add_registration b q) rs i r e)

-- What a builder with sound indexes registers and freezes is found again: the key of every
-- registration of the batch finds a definition with the registration's own data, under an id of the
-- catalogue that leads to the same definition.
pub register_operations-find :
    (b : CatalogueBuilder) (rs : List OperationRegistration) (b' : CatalogueBuilder)
    (ids : List OperationId) (b'' : CatalogueBuilder) (c : OperationCatalogue) (i : ℕ)
    (r : OperationRegistration)
    → BuilderIsIndexed b
    → register_operations b rs ≡ ok (b', ids)
    → freeze b' ≡ ok (b'', c)
    → get_elem? rs i ≡ some r
    → (id : OperationId) × (id.owner ≡ c.owner)
      × (find c r.key ≡ some (make_definition id r))
      × (operation c id ≡ some (make_definition id r))
unfolding register_operations freeze operation make_definition
register_operations-find b rs b' ids b'' c i r v h f e =
    (d.id, owns, (find_iff c r.key d indexed).1 (refl, listed), listed)
  where
    d : OperationDef
    d = definition_at b i r

    indexed : CatalogueIsIndexed c
    indexed = freeze-IsIndexed b' b'' c (register_operations-IsIndexed b rs b' ids v h) f

    same_builder : (add_registrations b rs).0 ≡ b'
    same_builder = ground arith

    same_definitions : b'.definitions ≡ c.definitions
    same_definitions = ground arith

    same_owner : b'.owner ≡ c.owner
    same_owner = ground arith

    owns : b.owner ≡ c.owner
    owns =
        sym (add_registrations-owner b rs)
        ∙ ap (λ (x : CatalogueBuilder). x.owner) same_builder
        ∙ same_owner

    place : get_elem? c.definitions (length b.definitions + i) ≡ some d
    place = rw (← same_definitions, ← same_builder) (add_registrations-lists b rs i r e)

    listed : operation c d.id ≡ some d
    listed = ground (arith, owns, place)
