-- ===== src/Ir/Catalogue.antt =====
-- lib/ir/operation_catalogue.cpp: registration of operations, and their lookup by id, key and name.
pub mod Keys
pub mod Index
pub mod Lookup
pub mod RoundTrip
use sivra.Prelude.{
  ℕ, suc, ◌+◌, ◌-◌, ◌≡◌, Bool, true, false, ◌&&◌, ◌||◌, not, if◌then◌else◌, ltb, List, [], ◌∷◌,
  ◌++◌, Option, none, some, has_value, is_empty, any, length, get_elem?, push_back, Text, codes,
  ◌==◌, nat_eq, list_eq, option_eq,
}
use sivra.Prelude.Map.{map_find, emplace}
use sivra.Prelude.Decimal.{to_chars}
use sivra.Core.Result.{Result, ok, err, fail, require, make_error, ◌>>=◌, ◌>>◌}
use sivra.Ir.ValueType.{u32_max}
use sivra.Ir.Ids.{OperationId, OwnerToken}
use sivra.Ir.Signature.{validate_definition}
use sivra.Ir.Trait.{has_trait, associative, commutative, idempotent}
use sivra.Ir.Operation.{
  OperationKey, OperationSemantics, OperationDef, OperationRegistration, operation_key,
  key_is_empty,
}

-- `compatibility_encoder`: the text so far, and what the two appends add.
abbrev append_integer : Text → ℕ → Text
append_integer encoder value = encoder ++ (to_chars value ++ codes ";")

abbrev append_string : Text → Text → Text
append_string encoder value = append_integer encoder (length value) ++ (value ++ codes ";")

unfoldable pub key_index_value : OperationKey → Text
unfolding to_chars
key_index_value key =
    append_integer (append_string (codes "sivra.ir.catalogue.v2;") key.value) key.version

abbrev has_any_constant : OperationSemantics → Bool
has_any_constant s =
    has_value s.identity
    || has_value s.annihilator
    || has_value s.left_identity
    || has_value s.right_identity
    || has_value s.left_annihilator
    || has_value s.right_annihilator

abbrev invalid_evaluator_key : Option OperationKey → Bool
invalid_evaluator_key none = false
invalid_evaluator_key (some k) = key_is_empty k || k.version == 0

abbrev pub invalid_semantics : Bool → Result (Unit {0})
invalid_semantics test = require (not test) "ir.catalogue.invalid_semantics"

unfoldable pub validate_semantics : OperationRegistration → Result (Unit {0})
validate_semantics r = do
  let s = r.semantics
  let arity = r.signature.arity
  invalid_semantics (invalid_evaluator_key s.evaluator_key)
  invalid_semantics (has_trait s.traits associative && arity.maximum == some 1)
  invalid_semantics (has_trait s.traits commutative && arity.maximum == some 1)
  invalid_semantics (has_trait s.traits idempotent && arity.maximum == some 1)
  invalid_semantics (has_any_constant s && arity.minimum == 0)
  invalid_semantics (
      has_value s.identity && (has_value s.left_identity || has_value s.right_identity)
      || has_value s.annihilator && (has_value s.left_annihilator || has_value s.right_annihilator))
  invalid_semantics (
      (has_value s.left_identity
        || has_value s.right_identity
        || has_value s.left_annihilator
        || has_value s.right_annihilator)
      && (not (arity.minimum == 2) || not (arity.maximum == some 2)))

abbrev pub KeyIndex : Type 0
KeyIndex = List (Text × OperationId)

-- `m_compatibility_id` is left out: it is a digest for other runs, and nothing here reads it.
pub record OperationCatalogue : Type 0 where
  pub owner : OwnerToken
  pub definitions : List OperationDef
  pub by_key : KeyIndex
  pub by_name : KeyIndex

pub record CatalogueBuilder : Type 0 where
  pub owner : OwnerToken
  pub definitions : List OperationDef
  pub by_key : KeyIndex
  pub by_name : KeyIndex
  pub frozen : Bool

-- `none` is an exception: the id is another catalogue's, or out of range.
unfoldable pub operation : OperationCatalogue → OperationId → Option OperationDef
operation c id = if id.owner == c.owner then get_elem? c.definitions id.index else none

-- `none` is the null pointer.
unfoldable pub find : OperationCatalogue → OperationKey → Option OperationDef
find c key = elim (map_find (key_index_value key) c.by_key) [
  | none ↦ none
  | some id ↦ operation c id
]

unfoldable pub find_by_name : OperationCatalogue → Text → Option OperationDef
find_by_name c name = elim (map_find name c.by_name) [ none ↦ none | some id ↦ operation c id ]

unfoldable pub catalogue_builder : OwnerToken → CatalogueBuilder
catalogue_builder owner = record {
  owner = owner;
  definitions = [];
  by_key = [];
  by_name = [];
  frozen = false;
}

-- `validate_definition` with its code replaced.
abbrev validate_registered : OperationRegistration → Result (Unit {0})
validate_registered r = elim (validate_definition r.signature) [
  | ok _ ↦ ok tt
  | err _ ↦ fail "ir.catalogue.invalid_signature"
]

abbrev invalid_operation : OperationRegistration → Bool
invalid_operation r = key_is_empty r.key || r.key.version == 0 || is_empty r.name

-- The first loop; `keys` and `names` are those of the registrations before.
unfoldable pub check_registrations :
    CatalogueBuilder → List Text → List Text → List OperationRegistration → Result (Unit {0})
check_registrations b keys names [] = ok tt
check_registrations b keys names (r ∷ rs) = do
  let indexed_key = key_index_value r.key
  require (not (invalid_operation r)) "ir.catalogue.invalid_operation"
  require (not (has_value (map_find indexed_key b.by_key) || any (λ k. k == indexed_key) keys))
      "ir.catalogue.duplicate_operation"
  require (not (has_value (map_find r.name b.by_name) || any (λ n. n == r.name) names))
      "ir.catalogue.duplicate_name"
  validate_registered r
  validate_semantics r
  check_registrations b (indexed_key ∷ keys) (r.name ∷ names) rs

unfoldable pub make_definition : OperationId → OperationRegistration → OperationDef
make_definition id r = record {
  id = id;
  stable_key = r.key;
  name = r.name;
  signature = r.signature;
  attribute_schema = r.attribute_schema;
  semantics = r.semantics;
}

-- One round of the second loop.
unfoldable pub add_registration : CatalogueBuilder → OperationRegistration → CatalogueBuilder
unfolding make_definition
add_registration b r =
    let id : OperationId = record { index = length b.definitions; owner = b.owner } in
    record b {
      definitions = push_back b.definitions (make_definition id r);
      by_key = emplace (key_index_value r.key) id b.by_key;
      by_name = emplace r.name id b.by_name;
    }

unfoldable pub add_registrations :
    CatalogueBuilder → List OperationRegistration → CatalogueBuilder × List OperationId
add_registrations b [] = (b, [])
add_registrations b (r ∷ rs) =
    let (b', ids) = add_registrations (add_registration b r) rs in
    (b', record { index = length b.definitions; owner = b.owner } ∷ ids)

-- No index past 2^32 - 1: the last one given is `definitions + registrations - 1`.
unfoldable pub exceeds_capacity : CatalogueBuilder → List OperationRegistration → Bool
exceeds_capacity b rs =
    ltb u32_max (length b.definitions)
    || not (is_empty rs) && ltb (u32_max - length b.definitions) (length rs - 1)

unfoldable pub register_operations :
    CatalogueBuilder → List OperationRegistration → Result (CatalogueBuilder × List OperationId)
register_operations b rs = do
  require (not b.frozen) "ir.catalogue.frozen"
  check_registrations b [] [] rs
  require (not (exceeds_capacity b rs)) "ir.catalogue.capacity"
  ok (add_registrations b rs)

abbrev registration_of : OperationDef → OperationRegistration
registration_of d = record {
  key = d.stable_key;
  name = d.name;
  signature = d.signature;
  attribute_schema = d.attribute_schema;
  semantics = d.semantics;
}

unfoldable pub validate_definitions : List OperationDef → Result (Unit {0})
validate_definitions [] = ok tt
validate_definitions (d ∷ ds) = do
  validate_definition d.signature
  validate_semantics (registration_of d)
  validate_definitions ds

unfoldable pub validate_builder : CatalogueBuilder → Result (Unit {0})
validate_builder b = do
  require (not b.frozen) "ir.catalogue.frozen"
  validate_definitions b.definitions

unfoldable pub freeze : CatalogueBuilder → Result (CatalogueBuilder × OperationCatalogue)
freeze b = do
  require (not b.frozen) "ir.catalogue.frozen"
  validate_builder b
  ok (
    record b { frozen = true; definitions = []; by_key = []; by_name = [] },
    record { owner = b.owner; definitions = b.definitions; by_key = b.by_key; by_name = b.by_name },
  )
