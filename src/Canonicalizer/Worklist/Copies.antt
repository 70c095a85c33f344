-- ===== src/Canonicalizer/Worklist/Copies.antt =====
-- The nodes that lib/canonicalizer/worklist.cpp copies have the values of the nodes that they copy.
use sivra.Prelude.{
  ℕ, ◌≡◌, refl, sym, ap, subst, ◌∙◌, Option-cases, inl, inr, List, [], ◌∷◌, map, Option, some, set,
  get_elem?, get_elem?-set_self, get_elem?-set_ne, lt-get_elem?, nat_eq, ==-refl, ==→≡, ==-cases,
  arith, length-set,
}
use sivra.Ir.ValueType.{ValueType, value_type_eq}
use sivra.Ir.Ids.{NodeId}
use sivra.Ir.Graph.{
  ExpressionGraph, ExpressionNode, ExpressionPayload, constant, symbol, external_value, unknown,
  operation, merge, payload_operands, at, symbol_name,
}
use sivra.Ir.Validation.{check_payload}
use sivra.Ir.Structural.Meaning.{Meaning, payload_value, payload_value-operation}
use sivra.Ir.Catalogue as Catalogue
use sivra.Ir.Builder.Calls.{
  BuildCall, constant_call, symbol_call, known_external_call, unknown_call, apply_call, merge_call,
}
use sivra.Ir.Builder.Values.{call_value}
use sivra.Canonicalizer.Worklist.{entry, source_id, resolved, resolved_operands}
use sivra.Canonicalizer.Worklist.Import.{call_for}

-- Each node of the graph has a value, which is that of its payload.
abbrev pub IsRead : {D : Type 0} → Meaning D → ExpressionGraph → (NodeId → D) → Type 0
IsRead m g values =
    (id : NodeId) (n : ExpressionNode)
    → at g id ≡ some n
    → payload_value m values g n.result_type n.payload ≡ some (values id)

module _ {D : Type 0} (m : Meaning D) (source : ExpressionGraph) (src : NodeId → D) where
  -- A copy has the value of its source node.
  abbrev pub CopiesMeant : (NodeId → D) → List (Option NodeId) → Type 0
  CopiesMeant values copied =
      (i : ℕ) (id : NodeId) → entry copied i ≡ some id → values id ≡ src (source_id source i)

  module _ (values : NodeId → D) (copied : List (Option NodeId))
      (meant : CopiesMeant values copied) where
    resolved-value : (o id : NodeId) → resolved source copied o ≡ some id → values id ≡ src o
    unfolding resolved
    resolved-value o id h = elim (==-cases o.owner source.owner) [
      | inr (foreign, test) ↦ absurd (ground arith)
      | inl (own, test) ↦
          let here : entry copied o.index ≡ some id = ground arith in
          let same : source_id source o.index ≡ o = ground arith in
          meant o.index id here ∙ ap src same
    ]

    pub resolved_operands-value :
        (os ids : List NodeId)
        → resolved_operands source copied os ≡ some ids
        → map values ids ≡ map src os
    unfolding resolved_operands
    resolved_operands-value [] ids h =
        let none_left : [] ≡ ids = ground arith in rw (sym none_left) refl
    resolved_operands-value (o ∷ os) ids h = elim (Option-cases (resolved source copied o)) [
      | inl absent ↦ absurd (ground arith)
      | inr (id, first) ↦ elim (Option-cases (resolved_operands source copied os)) [
        | inl absent ↦ absurd (ground arith)
        | inr (rest, others) ↦
            let made : id ∷ rest ≡ ids = ground arith in
            rw (sym made) (cc (resolved-value o id first, resolved_operands-value os rest others))
      ]
    ]

    -- The copies behind a new entry.
    pub set-CopiesMeant :
        (i : ℕ) (id : NodeId)
        → values id ≡ src (source_id source i)
        → CopiesMeant values (set copied i (some id))
    set-CopiesMeant i id same j other h = elim (==-cases i j) [
      | inl (here, test) ↦ elim (Option-cases (get_elem? (set copied i (some id)) j)) [
        | inl absent ↦ absurd (ground arith)
        | inr (e, there) ↦
            let inside = lt-get_elem? (set copied i (some id)) j there in
            let counted = length-set copied i (some id) in
            let read = get_elem?-set_self copied i (some id) (ground arith) in
            let it : id ≡ other = ground arith in cc (same, it, here)
      ]
      | inr (differ, test) ↦
          let read = get_elem?-set_ne copied i j (some id) differ in meant j other (ground arith)
    ]

  pub source_at :
      (i : ℕ) (n : ExpressionNode)
      → get_elem? source.nodes i ≡ some n
      → at source (source_id source i) ≡ some n
  unfolding at
  source_at i n h = rw (==-refl source.owner) h

  pub call_for-value :
      (values : NodeId → D) (g : ExpressionGraph) (t : ValueType) (i : ℕ) (os : List NodeId)
      (p : ExpressionPayload) (c : BuildCall) (d : D)
      → check_payload source i t p ≡ []
      → g.catalogue ≡ source.catalogue
      → map values os ≡ map src (payload_operands p)
      → call_for source t os p ≡ some c
      → payload_value m src source t p ≡ some d
      → call_value m values g c ≡ some d
  unfolding call_for
  call_for-value values g t i os (constant k) c d valid same operands h read =
      let made : constant_call k ≡ c = ground arith in
      let typed : k.result_type ≡ t = ==→≡ k.result_type t (ground arith) in
      rw (sym made)
        (subst (λ u. payload_value m src source u (constant k) ≡ some d) (sym typed) read)
  call_for-value values g t i os (symbol s) c d valid same operands h read =
      elim (Option-cases (symbol_name source s)) [
        | inl absent ↦ absurd (ground arith)
        | inr (name, named) ↦
            let made : symbol_call name t ≡ c = ground arith in rw (sym made) (ground arith)
      ]
  call_for-value values g t i os (external_value v) c d valid same operands h read =
      let made : known_external_call v t ≡ c = ground arith in rw (sym made) read
  call_for-value values g t i os (unknown reason) c d valid same operands h read =
      let made : unknown_call reason t ≡ c = ground arith in rw (sym made) read
  call_for-value values g t i os (operation a) c d valid same operands h read =
      let made : apply_call a.operation os a.attributes t ≡ c = ground arith in
      elim (Option-cases (Catalogue.operation source.catalogue a.operation)) [
        | inl absent ↦ absurd (ground arith)
        | inr (def, found) ↦ rw (sym made) (
            payload_value-operation m values g t
              (record { operation = a.operation; operands = os; attributes = a.attributes }) def
              (ap (λ cat. Catalogue.operation cat a.operation) same ∙ found)
            ∙ ap (λ l. some (m.of_operation t def.stable_key a.attributes l)) operands
            ∙ sym (payload_value-operation m src source t a def found)
            ∙ read)
      ]
  call_for-value values g t i os (merge incoming) c d valid same operands h read =
      let made : merge_call os t ≡ c = ground arith in
      rw (sym made) (ap (λ l. some (m.of_merge t l)) operands ∙ read)
