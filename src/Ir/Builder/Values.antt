-- ===== src/Ir/Builder/Values.antt =====
-- The values of the nodes that the calls of lib/ir/graph_builder.cpp add.
use sivra.Prelude.{
  ◌≡◌, refl, sym, ◌∙◌, ap, List, [], ◌∷◌, ◌++◌, map, Option, some, length, push_back, Text,
  get_elem?-push_back, ==-refl, nat_eq, arith,
}
use mathlib.Core.List.{append-nil}
use sivra.Core.Result.{ok}
use sivra.Ir.ValueType.{ValueType}
use sivra.Ir.Attribute.{OperationAttributes}
use sivra.Ir.Operation.{OperationDef}
use sivra.Ir.Schema.{validate_attributes}
use sivra.Ir.Catalogue as Catalogue
use sivra.Ir.Builder.Effects.{at-pushed}
use sivra.Ir.Ids.{NodeId, SymbolId, OperationId}
use sivra.Ir.Catalogue.{OperationCatalogue}
use sivra.Ir.Graph.{
  ExpressionGraph, ExpressionNode, ExpressionPayload, constant, symbol, external_value, unknown,
  operation, merge, at, symbol_name, append_validated, allocate_symbol_id,
  allocate_external_value_id,
}
use sivra.Ir.Structural.Meaning.{Meaning, payload_value, payload_value-operation, IsModel}
use sivra.Ir.Builder.{
  make_constant, make_symbol, make_known_external_value, make_external_value, make_unknown,
  make_merge,
}
use sivra.Ir.Builder.Inputs.{apply-Applied}
use sivra.Ir.Builder.Calls.{
  BuildCall, constant_call, symbol_call, external_call, known_external_call, unknown_call,
  apply_call, merge_call, call_type, perform,
}
use sivra.Ir.Builder.Extension.{Extends}

-- A graph with one node more, of the payload `p`, behind the others.
pub record Added (g g' : ExpressionGraph) (id : NodeId) (t : ValueType) (p : ExpressionPayload)
    : Type 0 where
  pub extends : Extends g g'
  pub there : at g' id ≡ some (record { id = id; result_type = t; payload = p })

added :
    (g g' : ExpressionGraph) (id : NodeId) (t : ValueType) (p : ExpressionPayload)
    (names : List Text)
    → g'.nodes ≡ push_back g.nodes (record { id = id; result_type = t; payload = p })
    → id ≡ record { index = length g.nodes; owner = g.owner }
    → g'.owner ≡ g.owner
    → g'.catalogue ≡ g.catalogue
    → g'.symbol_names ≡ g.symbol_names ++ names
    → Added g g' id t p
added g g' id t p names nodes new_id owner catalogue named = record {
  extends = record {
    owner = owner;
    catalogue = catalogue;
    new_nodes = record { id = id; result_type = t; payload = p } ∷ [];
    nodes = nodes;
    new_names = names;
    names = named;
  };
  there = at-pushed g g' id (record { id = id; result_type = t; payload = p }) nodes new_id owner;
}

-- The payload that a call of the builder adds, the attributes of an application given.
abbrev call_payload : ExpressionGraph → OperationAttributes → BuildCall → ExpressionPayload
call_payload g normalized (constant_call c) = constant c
call_payload g normalized (symbol_call name t) =
    symbol (record { index = length g.symbol_names; owner = g.owner })
call_payload g normalized (external_call t) =
    external_value (record { index = g.next_external_value; owner = g.external_value_owner })
call_payload g normalized (known_external_call v t) = external_value v
call_payload g normalized (unknown_call reason t) = unknown reason
call_payload g normalized (apply_call op os as' t) =
    operation (record { operation = op; operands = os; attributes = normalized })
call_payload g normalized (merge_call os t) = merge os

-- The attributes of an application are those given, made normal; a new symbol has its name.
abbrev CallFacts : ExpressionGraph → ExpressionGraph → OperationAttributes → BuildCall → Type 0
CallFacts g g' normalized (apply_call op os as' t) =
    (d : OperationDef) × (Catalogue.operation g.catalogue op ≡ some d)
    × (validate_attributes d.attribute_schema as' ≡ ok normalized)
CallFacts g g' normalized (symbol_call name t) =
    symbol_name g' (record { index = length g.symbol_names; owner = g.owner }) ≡ some name
CallFacts g g' normalized c = Unit

named :
    (g g' : ExpressionGraph) (name : Text)
    → g'.symbol_names ≡ push_back g.symbol_names name
    → g'.owner ≡ g.owner
    → symbol_name g' (record { index = length g.symbol_names; owner = g.owner }) ≡ some name
unfolding symbol_name
named g g' name names owner =
    rw (names, owner, ==-refl g.owner) (get_elem?-push_back g.symbol_names name)

unnamed :
    (g g' : ExpressionGraph) (id : NodeId) (t : ValueType) (p : ExpressionPayload)
    → g'.nodes ≡ push_back g.nodes (record { id = id; result_type = t; payload = p })
    → id ≡ record { index = length g.nodes; owner = g.owner }
    → (g'.owner ≡ g.owner) × (g'.catalogue ≡ g.catalogue) × (g'.symbol_names ≡ g.symbol_names)
    → Added g g' id t p
unnamed g g' id t p nodes new_id (owner, catalogue, names) =
    added g g' id t p [] nodes new_id owner catalogue (names ∙ sym (append-nil g.symbol_names))

pub perform-Added :
    (g : ExpressionGraph) (c : BuildCall) {g' : ExpressionGraph} {id : NodeId}
    → perform g c ≡ ok (g', id)
    → (normalized : OperationAttributes) × CallFacts g g' normalized c
      × Added g g' id (call_type c) (call_payload g normalized c)
unfolding make_constant make_symbol make_known_external_value make_external_value make_unknown
    make_merge append_validated allocate_symbol_id allocate_external_value_id
perform-Added g (constant_call c) {g'} {id} h = (
  [],
  tt,
  unnamed g g' id _ _ (ground arith) (ground arith) (ground arith, ground arith, ground arith),
)
perform-Added g (symbol_call name t) {g'} {id} h = (
  [],
  named g g' name (ground arith) (ground arith),
  added g g' id _ _ (name ∷ []) (ground arith) (ground arith) (ground arith) (ground arith)
      (ground arith),
)
perform-Added g (external_call t) {g'} {id} h = (
  [],
  tt,
  unnamed g g' id _ _ (ground arith) (ground arith) (ground arith, ground arith, ground arith),
)
perform-Added g (known_external_call x t) {g'} {id} h = (
  [],
  tt,
  unnamed g g' id _ _ (ground arith) (ground arith) (ground arith, ground arith, ground arith),
)
perform-Added g (unknown_call reason t) {g'} {id} h = (
  [],
  tt,
  unnamed g g' id _ _ (ground arith) (ground arith) (ground arith, ground arith, ground arith),
)
perform-Added g (apply_call op os as' t) {g'} {id} h =
    let a = apply-Applied g op os as' t {g' = g'} {id = id} h in
    let made = a.result in
    (
      a.attributes,
      (a.definition, a.defined, a.normalized),
      unnamed g g' id _ _ (ground arith) (ground arith) (ground arith, ground arith, ground arith),
    )
perform-Added g (merge_call os t) {g'} {id} h = (
  [],
  tt,
  unnamed g g' id _ _ (ground arith) (ground arith) (ground arith, ground arith, ground arith),
)

-- The meaning of an operation does not see which attributes were left to their defaults.
abbrev pub HonoursDefaults : {D : Type 0} → Meaning D → OperationCatalogue → Type 0
HonoursDefaults {D} m cat =
    (id : OperationId) (d : OperationDef) (t : ValueType) (given normalized : OperationAttributes)
    (operands : List D)
    → Catalogue.operation cat id ≡ some d
    → validate_attributes d.attribute_schema given ≡ ok normalized
    → m.of_operation t d.stable_key normalized operands
      ≡ m.of_operation t d.stable_key given operands

-- The value that a call of the builder asks for; `none` where it cannot be read.
abbrev pub call_value :
    {D : Type 0} → Meaning D → (NodeId → D) → ExpressionGraph → BuildCall → Option D
call_value m values g (symbol_call name t) = some (m.of_symbol t name)
call_value m values g (apply_call op os as' t) =
    payload_value m values g t
      (operation (record { operation = op; operands = os; attributes = as' }))
call_value m values g c = payload_value m values g (call_type c) (call_payload g [] c)

on_symbol :
    {D : Type 0} (m : Meaning D) (values : NodeId → D) (g : ExpressionGraph) (t : ValueType)
    (s : SymbolId) (name : Text)
    → symbol_name g s ≡ some name
    → payload_value m values g t (symbol s) ≡ some (m.of_symbol t name)
on_symbol m values g t s name read = rw read refl

payload_value-of_call :
    {D : Type 0} (m : Meaning D) (values : NodeId → D) (g : ExpressionGraph) (c : BuildCall)
    (g' : ExpressionGraph) (normalized : OperationAttributes) (d : D)
    → HonoursDefaults m g.catalogue
    → g'.catalogue ≡ g.catalogue
    → CallFacts g g' normalized c
    → call_value m values g c ≡ some d
    → payload_value m values g' (call_type c) (call_payload g normalized c) ≡ some d
payload_value-of_call m values g (constant_call c) g' normalized d honours same facts read = read
payload_value-of_call m values g (symbol_call name t) g' normalized d honours same facts read =
    on_symbol m values g' t _ name facts ∙ read
payload_value-of_call m values g (external_call t) g' normalized d honours same facts read = read
payload_value-of_call m values g (known_external_call v t) g' normalized d honours same facts read =
    read
payload_value-of_call m values g (unknown_call reason t) g' normalized d honours same facts read =
    read
payload_value-of_call m values g (apply_call op os as' t) g' normalized d honours same
      (def, found, e) read =
    payload_value-operation m values g' t
      (record { operation = op; operands = os; attributes = normalized }) def
      (ap (λ cat. Catalogue.operation cat op) same ∙ found)
    ∙ ap some (honours op def t as' normalized (map values os) found e)
    ∙ sym (
        payload_value-operation m values g t
          (record { operation = op; operands = os; attributes = as' }) def found)
    ∙ read
payload_value-of_call m values g (merge_call os t) g' normalized d honours same facts read = read

-- A call of the builder that succeeds gives a node of the value that the call asks for, in a meaning
-- that does not see defaulted attributes.
pub perform-value :
    {D : Type 0} (m : Meaning D) (values : NodeId → D) (g : ExpressionGraph) (c : BuildCall)
    (g' : ExpressionGraph) (id : NodeId) (d : D)
    → HonoursDefaults m g.catalogue
    → IsModel m g' values
    → perform g c ≡ ok (g', id)
    → call_value m values g c ≡ some d
    → values id ≡ d
perform-value m values g c g' id d honours model h read =
    let (normalized, facts, a) = perform-Added g c {g' = g'} {id = id} h in
    let n : ExpressionNode = record {
      id = id;
      result_type = call_type c;
      payload = call_payload g normalized c;
    } in
    model id n d a.there
      (payload_value-of_call m values g c g' normalized d honours a.extends.catalogue facts read)
