-- ===== src/Ir/Builder/Calls.antt =====
-- The calls of lib/ir/graph_builder.cpp as one type, so that histories of calls can be followed.
use sivra.Prelude.{◌≡◌, refl, true, List, [], ◌∷◌, some, Text, arith, nat_eq}
use sivra.Core.Result.{Result, ok, err}
use sivra.Ir.ValueType.{ValueType}
use sivra.Ir.Constant.{ConstantValue}
use sivra.Ir.Ids.{NodeId, OperationId, ExternalValueId, OwnerToken}
use sivra.Ir.Attribute.{OperationAttributes}
use sivra.Ir.Graph.{ExpressionGraph, expression_graph}
use sivra.Ir.Catalogue.{OperationCatalogue}
use sivra.Ir.Validation.{type_is_valid, check_nodes, validate_graph}
use sivra.Ir.Builder.{
  make_constant, make_symbol, make_external_value, make_known_external_value, make_unknown, apply,
  make_merge,
}
use sivra.Ir.Builder.Validity.{
  IsValid, make_constant-IsValid, make_symbol-IsValid, make_external_value-IsValid,
  make_known_external_value-IsValid, make_unknown-IsValid, apply-IsValid, make_merge-IsValid,
}

pub data BuildCall : Type 0 where
  constant_call : ConstantValue → BuildCall
  symbol_call : Text → ValueType → BuildCall
  external_call : ValueType → BuildCall
  known_external_call : ExternalValueId → ValueType → BuildCall
  unknown_call : Text → ValueType → BuildCall
  apply_call : OperationId → List NodeId → OperationAttributes → ValueType → BuildCall
  merge_call : List NodeId → ValueType → BuildCall

-- The result type that the caller gives.
abbrev pub call_type : BuildCall → ValueType
call_type (constant_call c) = c.result_type
call_type (symbol_call name t) = t
call_type (external_call t) = t
call_type (known_external_call v t) = t
call_type (unknown_call reason t) = t
call_type (apply_call op os as' t) = t
call_type (merge_call os t) = t

abbrev pub perform : ExpressionGraph → BuildCall → Result (ExpressionGraph × NodeId)
perform g (constant_call c) = make_constant g c
perform g (symbol_call name t) = make_symbol g name t
perform g (external_call t) = make_external_value g t
perform g (known_external_call v t) = make_known_external_value g v t
perform g (unknown_call reason t) = make_unknown g reason t
perform g (apply_call op os as' t) = apply g op os as' t
perform g (merge_call os t) = make_merge g os t

perform-IsValid :
    (g : ExpressionGraph) (c : BuildCall) {g' : ExpressionGraph} {id : NodeId}
    → IsValid g
    → type_is_valid (call_type c) ≡ true
    → perform g c ≡ ok (g', id)
    → IsValid g'
perform-IsValid g (constant_call c) {g'} {id} v ty h =
    make_constant-IsValid g c {g' = g'} {id = id} v ty h
perform-IsValid g (symbol_call name t) {g'} {id} v ty h =
    make_symbol-IsValid g name t {g' = g'} {id = id} v ty h
perform-IsValid g (external_call t) {g'} {id} v ty h =
    make_external_value-IsValid g t {g' = g'} {id = id} v ty h
perform-IsValid g (known_external_call x t) {g'} {id} v ty h =
    make_known_external_value-IsValid g g.next_external_value x t {g' = g'} {id = id} v ty h
perform-IsValid g (unknown_call reason t) {g'} {id} v ty h =
    make_unknown-IsValid g reason t {g' = g'} {id = id} v ty h
perform-IsValid g (apply_call op os as' t) {g'} {id} v ty h =
    apply-IsValid g op os as' t {g' = g'} {id = id} v ty h
perform-IsValid g (merge_call os t) {g'} {id} v ty h =
    make_merge-IsValid g os t {g' = g'} {id = id} v ty h

pub IsValid-validate_graph : (g : ExpressionGraph) → IsValid g → validate_graph g ≡ ok tt
unfolding validate_graph
IsValid-validate_graph g v = ground arith

pub validate_graph-IsValid : (g : ExpressionGraph) → validate_graph g ≡ ok tt → IsValid g
unfolding validate_graph
validate_graph-IsValid g h = ground arith

-- A graph that validates still validates after any call of the builder that succeeds with a result
-- type of a valid shape.
pub perform-valid :
    (g : ExpressionGraph) (c : BuildCall) (g' : ExpressionGraph) (id : NodeId)
    → validate_graph g ≡ ok tt
    → type_is_valid (call_type c) ≡ true
    → perform g c ≡ ok (g', id)
    → validate_graph g' ≡ ok tt
perform-valid g c g' id v ty h =
    IsValid-validate_graph g'
      (perform-IsValid g c {g' = g'} {id = id} (validate_graph-IsValid g v) ty h)

-- A history of calls; a call that fails leaves the graph as it was.
abbrev pub after : ExpressionGraph → Result (ExpressionGraph × NodeId) → ExpressionGraph
after g (ok (g', id)) = g'
after g (err e) = g

unfoldable pub perform_all : ExpressionGraph → List BuildCall → ExpressionGraph
perform_all g [] = g
perform_all g (c ∷ cs) = perform_all (after g (perform g c)) cs

after-IsValid :
    (g : ExpressionGraph) (c : BuildCall) (r : Result (ExpressionGraph × NodeId))
    → perform g c ≡ r
    → IsValid g
    → type_is_valid (call_type c) ≡ true
    → IsValid (after g r)
after-IsValid g c (ok (g', id)) e v ty = perform-IsValid g c {g' = g'} {id = id} v ty e
after-IsValid g c (err d) e v ty = v

abbrev pub AllTypesValid : List BuildCall → Type 0
AllTypesValid [] = Unit {0}
AllTypesValid (c ∷ cs) = (type_is_valid (call_type c) ≡ true) × AllTypesValid cs

perform_all-IsValid :
    (g : ExpressionGraph) (cs : List BuildCall)
    → IsValid g
    → AllTypesValid cs
    → IsValid (perform_all g cs)
unfolding perform_all
perform_all-IsValid g [] v ty = v
perform_all-IsValid g (c ∷ cs) v ty =
    perform_all-IsValid (after g (perform g c)) cs (after-IsValid g c (perform g c) refl v ty.0)
      ty.1

-- Every graph that the constructor and any history of builder calls give, failed calls included,
-- validates, if the result types that the calls pass have a valid shape.
pub perform_all-valid :
    (owner external_owner : OwnerToken) (cat : OperationCatalogue) (g : ExpressionGraph)
    (cs : List BuildCall)
    → expression_graph owner cat external_owner ≡ some g
    → AllTypesValid cs
    → validate_graph (perform_all g cs) ≡ ok tt
unfolding expression_graph check_nodes
perform_all-valid owner external_owner cat g cs made ty =
    IsValid-validate_graph _ (perform_all-IsValid g cs empty ty)
  where
    empty : IsValid g
    empty = ground arith
