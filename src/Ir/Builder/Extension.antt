-- ===== src/Ir/Builder/Extension.antt =====
-- What a graph still says when lib/ir/graph_builder.cpp has added to it: nodes and names come behind
-- the others.
use sivra.Prelude.{
  ◌≤◌, ◌≡◌, refl, sym, ◌∙◌, ap, List, [], ◌++◌, some, length, length-append, get_elem?,
  get_elem?-append, lt-get_elem?, Text, Bool-cases, Option-cases, inl, inr, ◌==◌, nat_eq, arith,
}
use mathlib.Core.List.{append_assoc, append-nil}
use sivra.Ir.ValueType.{ValueType}
use sivra.Ir.Ids.{NodeId, SymbolId}
use sivra.Ir.Graph.{
  ExpressionGraph, ExpressionNode, ExpressionPayload, constant, symbol, external_value, unknown,
  operation, merge, at, symbol_name,
}
use sivra.Ir.Structural.Meaning.{Meaning, payload_value, IsModel, PayloadFits, GraphFits}

pub record Extends (g g' : ExpressionGraph) : Type 0 where
  pub owner : g'.owner ≡ g.owner
  pub catalogue : g'.catalogue ≡ g.catalogue
  pub new_nodes : List ExpressionNode
  pub nodes : g'.nodes ≡ g.nodes ++ new_nodes
  pub new_names : List Text
  pub names : g'.symbol_names ≡ g.symbol_names ++ new_names

pub Extends-refl : (g : ExpressionGraph) → Extends g g
Extends-refl g = record {
  owner = refl;
  catalogue = refl;
  new_nodes = [];
  nodes = sym (append-nil g.nodes);
  new_names = [];
  names = sym (append-nil g.symbol_names);
}

pub Extends-trans : {f g h : ExpressionGraph} → Extends f g → Extends g h → Extends f h
Extends-trans {f} p q = record {
  owner = q.owner ∙ p.owner;
  catalogue = q.catalogue ∙ p.catalogue;
  new_nodes = p.new_nodes ++ q.new_nodes;
  nodes =
      q.nodes ∙ ap (λ l. l ++ q.new_nodes) p.nodes ∙ append_assoc f.nodes p.new_nodes q.new_nodes;
  new_names = p.new_names ++ q.new_names;
  names =
      q.names
      ∙ ap (λ l. l ++ q.new_names) p.names
      ∙ append_assoc f.symbol_names p.new_names q.new_names;
}

pub length-Extends : {g g' : ExpressionGraph} → Extends g g' → length g.nodes ≤ length g'.nodes
length-Extends {g} {g'} x = rw x.nodes (omega (arith, length-append g.nodes x.new_nodes))

pub at-Extends :
    {g g' : ExpressionGraph} (x : Extends g g') (id : NodeId) (n : ExpressionNode)
    → at g id ≡ some n
    → at g' id ≡ some n
unfolding at
at-Extends {g} {g'} x id n h = elim (Bool-cases (id.owner == g.owner)) [
  | inr foreign ↦ absurd (ground arith)
  | inl own ↦
      let here : get_elem? g.nodes id.index ≡ some n = ground arith in
      let kept =
        get_elem?-append g.nodes x.new_nodes id.index (lt-get_elem? g.nodes id.index here) in
      rw (x.owner, own, x.nodes) (kept ∙ here)
]

pub symbol_name-Extends :
    {g g' : ExpressionGraph} (x : Extends g g') (id : SymbolId) (name : Text)
    → symbol_name g id ≡ some name
    → symbol_name g' id ≡ some name
unfolding symbol_name
symbol_name-Extends {g} {g'} x id name h = elim (Bool-cases (id.owner == g.owner)) [
  | inr foreign ↦ absurd (ground arith)
  | inl own ↦
      let here : get_elem? g.symbol_names id.index ≡ some name = ground arith in
      let kept =
        get_elem?-append g.symbol_names x.new_names id.index
          (lt-get_elem? g.symbol_names id.index here) in
      rw (x.owner, own, x.names) (kept ∙ here)
]

-- `values` gives the nodes of a graph of the program's widths the values of their payloads.
abbrev pub IsMeant : {D : Type 0} → Meaning D → ExpressionGraph → (NodeId → D) → Type 0
IsMeant m g values = IsModel m g values × GraphFits g

module _ {D : Type 0} (m : Meaning D) (values : NodeId → D) {g g' : ExpressionGraph}
    (x : Extends g g') where
  payload_value-Extends :
      (t : ValueType) (p : ExpressionPayload) (d : D)
      → payload_value m values g t p ≡ some d
      → payload_value m values g' t p ≡ some d
  payload_value-Extends t (constant c) d h = h
  payload_value-Extends t (symbol s) d h = elim (Option-cases (symbol_name g s)) [
    | inl absent ↦ absurd (ground arith)
    | inr (name, read) ↦ let kept = symbol_name-Extends x s name read in ground arith
  ]
  payload_value-Extends t (external_value v) d h = h
  payload_value-Extends t (unknown reason) d h = h
  payload_value-Extends t (operation a) d h = rw x.catalogue h
  payload_value-Extends t (merge incoming) d h = h

  PayloadFits-Extends : (p : ExpressionPayload) → PayloadFits g' p → PayloadFits g p
  PayloadFits-Extends (constant c) f = f
  PayloadFits-Extends (symbol s) f = λ name read. f name (symbol_name-Extends x s name read)
  PayloadFits-Extends (external_value v) f = f
  PayloadFits-Extends (unknown reason) f = f
  PayloadFits-Extends (operation a) f = (λ d read. f.0 d (rw x.catalogue read), f.1, f.2)
  PayloadFits-Extends (merge incoming) f = f

  -- Values that are those of the larger graph are those of the smaller one.
  pub IsMeant-Extends : IsMeant m g' values → IsMeant m g values
  IsMeant-Extends (model, fits) = (
    λ id n d here read.
        model id n d (at-Extends x id n here)
          (payload_value-Extends n.result_type n.payload d read),
    λ id n here.
        let (typed, f) = fits id n (at-Extends x id n here) in
        (typed, PayloadFits-Extends n.payload f),
  )
