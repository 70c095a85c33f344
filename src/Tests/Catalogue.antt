-- ===== src/Tests/Catalogue.antt =====
-- lib/ir/operation_catalogue.cpp with two operations.
use sivra.Prelude.{◌≡◌, ◌↔◌, refl, true, codes, List, [], ◌∷◌, some}
use sivra.Prelude.Map.{map_find}
use sivra.Core.Result.{ok}
use sivra.Ir.Ids.{OperationId}
use sivra.Ir.Operation.{OperationDef, OperationRegistration, operation_key}
use sivra.Ir.Signature.{OperationSignature, same_as_result, validate_arity}
use sivra.Ir.Trait.{has_trait}
use sivra.Ir.Builtins.{semantics_with_evaluator}
use sivra.Ir.Catalogue.{
  CatalogueBuilder, OperationCatalogue, key_index_value, operation, find, catalogue_builder,
  check_registrations, validate_semantics, exceeds_capacity, add_registration, add_registrations,
  make_definition, register_operations, freeze, validate_builder, validate_definitions,
}
use sivra.Ir.Catalogue.Keys.{key_index_value-injective}
use sivra.Ir.Catalogue.RoundTrip.{register_operations-find}
use sivra.Ir.Catalogue.Lookup.{
  BuilderIsIndexed, CatalogueIsIndexed, register_operations-IsIndexed, freeze-IsIndexed,
  catalogue_builder-IsIndexed, find_iff,
}

abbrev binary : OperationSignature
binary = record { arity = record { minimum = 2; maximum = some 2 }; operand_types = same_as_result }

abbrev pub add_registration_data : OperationRegistration
add_registration_data = record {
  key = operation_key "add";
  name = codes "add";
  signature = binary;
  attribute_schema = [];
  semantics = semantics_with_evaluator "add";
}

abbrev subtract_registration : OperationRegistration
subtract_registration = record {
  key = operation_key "subtract";
  name = codes "subtract";
  signature = binary;
  attribute_schema = [];
  semantics = semantics_with_evaluator "subtract";
}

abbrev registrations : List OperationRegistration
registrations = add_registration_data ∷ subtract_registration ∷ []

abbrev filled : CatalogueBuilder
filled = (add_registrations (catalogue_builder 7) registrations).0

abbrev given : List OperationId
given = (add_registrations (catalogue_builder 7) registrations).1

registered : register_operations (catalogue_builder 7) registrations ≡ ok (filled, given)
unfolding register_operations check_registrations exceeds_capacity add_registrations
    add_registration catalogue_builder validate_semantics has_trait validate_arity key_index_value
    map_find
registered = refl

register_operations-IsIndexed_example : BuilderIsIndexed filled
register_operations-IsIndexed_example =
    register_operations-IsIndexed (catalogue_builder 7) registrations filled given
      (catalogue_builder-IsIndexed 7) registered

abbrev frozen_builder : CatalogueBuilder
frozen_builder = record filled { frozen = true; definitions = []; by_key = []; by_name = [] }

abbrev pub catalogue : OperationCatalogue
catalogue = record {
  owner = filled.owner;
  definitions = filled.definitions;
  by_key = filled.by_key;
  by_name = filled.by_name;
}

froze : freeze filled ≡ ok (frozen_builder, catalogue)
unfolding freeze validate_builder validate_definitions add_registrations add_registration
    catalogue_builder validate_semantics has_trait validate_arity make_definition
froze = refl

abbrev pub subtract_id : OperationId
subtract_id = record { index = 1; owner = 7 }

abbrev pub subtract_definition : OperationDef
subtract_definition = make_definition subtract_id subtract_registration

catalogue-IsIndexed : CatalogueIsIndexed catalogue
catalogue-IsIndexed =
    freeze-IsIndexed filled frozen_builder catalogue
      (register_operations-IsIndexed (catalogue_builder 7) registrations filled given
        (catalogue_builder-IsIndexed 7) registered)
      froze

find_iff_example : (find catalogue (operation_key "subtract") ≡ some subtract_definition) ↔ (
    (subtract_definition.stable_key ≡ operation_key "subtract")
    × (operation catalogue subtract_definition.id ≡ some subtract_definition))
find_iff_example =
    find_iff catalogue (operation_key "subtract") subtract_definition catalogue-IsIndexed

key_index_value-injective_example : operation_key "add" ≡ add_registration_data.key
key_index_value-injective_example =
    key_index_value-injective (operation_key "add") add_registration_data.key refl

register_operations-find_example :
    (id : OperationId) × (id.owner ≡ catalogue.owner)
    × (find catalogue (operation_key "subtract") ≡ some (make_definition id subtract_registration))
    × (operation catalogue id ≡ some (make_definition id subtract_registration))
register_operations-find_example =
    register_operations-find (catalogue_builder 7) registrations filled given frozen_builder
      catalogue 1 subtract_registration (catalogue_builder-IsIndexed 7) registered froze refl
