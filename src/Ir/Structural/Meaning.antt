-- ===== src/Ir/Structural/Meaning.antt =====
-- What a graph means, for any meaning of its parts; lib/ir/structural.cpp compares the parts.
use sivra.Prelude.{
  ◌^◌, ◌<◌, ◌≡◌, refl, ap, sym, ◌∙◌, List, [], ◌++◌, map, Option, none, some, length, All, Text,
  arith,
}
use sivra.Ir.ValueType.{ValueType}
use sivra.Ir.Constant.{ScalarConstant, element_count, ConstantValue}
use sivra.Ir.Ids.{NodeId, ExternalValueId}
use sivra.Ir.Attribute.{OperationAttributes}
use sivra.Ir.Operation.{OperationKey, OperationDef}
use sivra.Ir.Catalogue as Catalogue
use sivra.Ir.Graph.{
  ExpressionGraph, ExpressionNode, ExpressionPayload, OperationApplication, constant, symbol,
  external_value, unknown, operation, merge, payload_kind, payload_operands, at, symbol_name,
}
use sivra.Ir.Structural.{
  append_u32, append_u64, append_string, elements_of, append_attributes, append_constant,
  operation_bytes, payload_data,
}
use sivra.Ir.Structural.Prefix.{
  u32-IsPrefix, u64-IsPrefix, string-IsPrefix, pair-IsPrefix, TextFits, TypeFits, ElementFits,
}
use sivra.Ir.Structural.Encoding.{AttributesFit, attributes-IsPrefix, constant-same}

-- A value in `D` for each part of a graph. Names, keys and elements count, and nothing of a graph's
-- own ids.
pub record Meaning (D : Type 0) : Type 0 where
  pub of_constant : ValueType → List ScalarConstant → D
  pub of_symbol : ValueType → Text → D
  pub of_external_value : ValueType → ExternalValueId → D
  pub of_unknown : ValueType → Text → D
  pub of_operation : ValueType → OperationKey → OperationAttributes → List D → D
  pub of_merge : ValueType → List D → D

-- `f` on what was read; `none` passes on an exception.
abbrev on_read {ℓ κ} : {A : Type ℓ} {B : Type κ} → (A → B) → Option A → Option B
on_read f none = none
on_read f (some x) = some (f x)

abbrev operation_value :
    {D : Type 0} → Meaning D → (NodeId → D) → ValueType → OperationApplication → OperationDef → D
operation_value m values t a d = m.of_operation t d.stable_key a.attributes (map values a.operands)

-- The value of a payload, the operands' values given by `values`; `none` where a read throws.
abbrev pub payload_value :
    {D : Type 0}
    → Meaning D
    → (NodeId → D)
    → ExpressionGraph
    → ValueType
    → ExpressionPayload
    → Option D
payload_value m values g t (constant c) = on_read (m.of_constant t) (elements_of c)
payload_value m values g t (symbol s) = on_read (m.of_symbol t) (symbol_name g s)
payload_value m values g t (external_value v) = some (m.of_external_value t v)
payload_value m values g t (unknown reason) = some (m.of_unknown t reason)
payload_value m values g t (operation a) =
    on_read (operation_value m values t a) (Catalogue.operation g.catalogue a.operation)
payload_value m values g t (merge incoming) = some (m.of_merge t (map values incoming))

-- `values` gives each node of the graph the value of its payload.
abbrev pub IsModel : {D : Type 0} → Meaning D → ExpressionGraph → (NodeId → D) → Type 0
IsModel {D} m g values =
    (id : NodeId) (n : ExpressionNode) (d : D)
    → at g id ≡ some n
    → payload_value m values g n.result_type n.payload ≡ some d
    → values id ≡ d

-- The widths that the program gives the parts of a payload.
abbrev pub PayloadFits : ExpressionGraph → ExpressionPayload → Type 0
PayloadFits g (constant c) =
    (es : List ScalarConstant)
    → elements_of c ≡ some es
    → (element_count c < 2 ^ 64) × All ElementFits es
PayloadFits g (symbol s) = (name : Text) → symbol_name g s ≡ some name → TextFits name
PayloadFits g (external_value v) = (v.owner < 2 ^ 64) × (v.index < 2 ^ 32)
PayloadFits g (unknown reason) = TextFits reason
PayloadFits g (operation a) =
    ((d : OperationDef)
      → Catalogue.operation g.catalogue a.operation ≡ some d
      → TextFits d.stable_key.value × (d.stable_key.version < 2 ^ 32))
    × AttributesFit a.attributes
    × (length a.operands < 2 ^ 64)
PayloadFits g (merge incoming) = length incoming < 2 ^ 64

abbrev pub GraphFits : ExpressionGraph → Type 0
GraphFits g =
    (id : NodeId) (n : ExpressionNode)
    → at g id ≡ some n
    → TypeFits n.result_type × PayloadFits g n.payload

read-some {ℓ κ} :
    {A : Type ℓ} {B : Type κ} (f : A → B) (o : Option A) (y : B)
    → (elim o [ none ↦ none | some x ↦ some (f x) ]) ≡ some y
    → (x : A) × (o ≡ some x) × (y ≡ f x)
read-some f none y h = absurd (ground arith)
read-some f (some x) y h = (x, refl, ground arith)

-- Two ways to read one code.
again : {a b bytes : Text} → some a ≡ some bytes → some b ≡ some bytes → a ++ [] ≡ b ++ []
again p q = ground arith

operation-same :
    (c d : OperationDef) (a b : OperationApplication)
    → TextFits c.stable_key.value × (c.stable_key.version < 2 ^ 32)
    → TextFits d.stable_key.value × (d.stable_key.version < 2 ^ 32)
    → AttributesFit a.attributes × (length a.operands < 2 ^ 64)
    → AttributesFit b.attributes × (length b.operands < 2 ^ 64)
    → operation_bytes a c ≡ operation_bytes b d
    → (c.stable_key ≡ d.stable_key)
      × (a.attributes ≡ b.attributes)
      × (length a.operands ≡ length b.operands)
operation-same c d a b fk fl fa fb e =
    let (value, after_value) =
      pair-IsPrefix append_string string-IsPrefix c.stable_key.value d.stable_key.value _ _ [] []
        fk.0 fl.0 (ap (λ w. w ++ []) e) in
    let (version, after_version) =
      pair-IsPrefix append_u32 u32-IsPrefix c.stable_key.version d.stable_key.version _ _ [] [] fk.1
        fl.1 after_value in
    let (attributes, rest) =
      pair-IsPrefix append_attributes attributes-IsPrefix a.attributes b.attributes _ _ [] [] fa.0
        fb.0 after_version in
    let (counted, _) = u64-IsPrefix (length a.operands) (length b.operands) [] [] fa.1 fb.1 rest in
    (cc (value, version), attributes, counted)

-- Payloads of one code have as many operands, and one value where their operands have.
abbrev pub SameCode :
    {D : Type 0}
    → Meaning D
    → (NodeId → D)
    → (NodeId → D)
    → ExpressionGraph
    → ExpressionGraph
    → ValueType
    → ExpressionPayload
    → ExpressionPayload
    → Type 0
SameCode m left right lg rg t p q =
    (length (payload_operands p) ≡ length (payload_operands q))
    × (map left (payload_operands p) ≡ map right (payload_operands q)
        → payload_value m left lg t p ≡ payload_value m right rg t q)

module _ {D : Type 0} (m : Meaning D) (left right : NodeId → D) (lg rg : ExpressionGraph) where
  pub payload-SameCode :
      (t : ValueType) (p q : ExpressionPayload) (bytes : Text)
      → PayloadFits lg p
      → PayloadFits rg q
      → payload_kind p ≡ payload_kind q
      → payload_data lg p ≡ some bytes
      → payload_data rg q ≡ some bytes
      → SameCode m left right lg rg t p q
  unfolding payload_data
  payload-SameCode t (constant a) (constant b) bytes fa fb k da db =
      let (xs, read_a, ea) = read-some (append_constant a) (elements_of a) bytes da in
      let (ys, read_b, eb) = read-some (append_constant b) (elements_of b) bytes db in
      let (_, same) =
        constant-same a b xs ys [] [] read_a read_b (fa xs read_a) (fb ys read_b)
          (ap (λ w. w ++ []) (sym ea ∙ eb)) in
      (refl, λ _. ap (on_read (m.of_constant t)) (read_a ∙ ap some same ∙ sym read_b))
  payload-SameCode t (symbol a) (symbol b) bytes fa fb k da db =
      let (x, read_a, ea) = read-some append_string (symbol_name lg a) bytes da in
      let (y, read_b, eb) = read-some append_string (symbol_name rg b) bytes db in
      let (same, _) =
        string-IsPrefix x y [] [] (fa x read_a) (fb y read_b) (ap (λ w. w ++ []) (sym ea ∙ eb)) in
      (refl, λ _. ap (on_read (m.of_symbol t)) (read_a ∙ ap some same ∙ sym read_b))
  payload-SameCode t (external_value a) (external_value b) bytes fa fb k da db =
      let (owner, rest) =
        pair-IsPrefix append_u64 u64-IsPrefix a.owner b.owner _ _ [] [] fa.0 fb.0 (again da db) in
      let (index, _) = u32-IsPrefix a.index b.index [] [] fa.1 fb.1 rest in
      (refl, λ _. ap (λ v. some (m.of_external_value t v)) (cc (owner, index)))
  payload-SameCode t (unknown a) (unknown b) bytes fa fb k da db =
      let (same, _) = string-IsPrefix a b [] [] fa fb (again da db) in
      (refl, λ _. ap (λ v. some (m.of_unknown t v)) same)
  payload-SameCode t (merge a) (merge b) bytes fa fb k da db =
      let (same, _) = u64-IsPrefix (length a) (length b) [] [] fa fb (again da db) in
      (same, λ values. ap (λ v. some (m.of_merge t v)) values)
  payload-SameCode t (operation a) (operation b) bytes fa fb k da db =
      let (d, read_a, ea) =
        read-some (operation_bytes a) (Catalogue.operation lg.catalogue a.operation) bytes da in
      let (d', read_b, eb) =
        read-some (operation_bytes b) (Catalogue.operation rg.catalogue b.operation) bytes db in
      let (same_key, same_attributes, counted) =
        operation-same d d' a b (fa.0 d read_a) (fb.0 d' read_b) (fa.1, fa.2) (fb.1, fb.2)
          (sym ea ∙ eb) in
      (
        counted,
        λ values. cc (
          ap (on_read (operation_value m left t a)) read_a,
          ap (on_read (operation_value m right t b)) read_b,
          same_key,
          same_attributes,
          values,
        ),
      )
  payload-SameCode t p q bytes fa fb k da db = absurd (ground arith)

-- A payload with a code can be read.
pub payload_value-total :
    {D : Type 0} (m : Meaning D) (values : NodeId → D) (g : ExpressionGraph) (t : ValueType)
    (p : ExpressionPayload) (bytes : Text)
    → payload_data g p ≡ some bytes
    → (d : D) × (payload_value m values g t p ≡ some d)
unfolding payload_data
payload_value-total m values g t (constant c) bytes h =
    let (es, read, _) = read-some (append_constant c) (elements_of c) bytes h in
    (m.of_constant t es, ap (on_read (m.of_constant t)) read)
payload_value-total m values g t (symbol s) bytes h =
    let (name, read, _) = read-some append_string (symbol_name g s) bytes h in
    (m.of_symbol t name, ap (on_read (m.of_symbol t)) read)
payload_value-total m values g t (external_value v) bytes h = (m.of_external_value t v, refl)
payload_value-total m values g t (unknown reason) bytes h = (m.of_unknown t reason, refl)
payload_value-total m values g t (operation a) bytes h =
    let (d, read, _) =
      read-some (operation_bytes a) (Catalogue.operation g.catalogue a.operation) bytes h in
    (operation_value m values t a d, ap (on_read (operation_value m values t a)) read)
payload_value-total m values g t (merge incoming) bytes h =
    (m.of_merge t (map values incoming), refl)

-- The value of an application whose operation is known.
pub payload_value-operation :
    {D : Type 0} (m : Meaning D) (values : NodeId → D) (g : ExpressionGraph) (t : ValueType)
    (a : OperationApplication) (d : OperationDef)
    → Catalogue.operation g.catalogue a.operation ≡ some d
    → payload_value m values g t (operation a)
      ≡ some (m.of_operation t d.stable_key a.attributes (map values a.operands))
payload_value-operation m values g t a d read = ap (on_read (operation_value m values t a)) read

-- The value of a constant whose elements are read.
pub payload_value-constant :
    {D : Type 0} (m : Meaning D) (values : NodeId → D) (g : ExpressionGraph) (t : ValueType)
    (c : ConstantValue) (es : List ScalarConstant)
    → elements_of c ≡ some es
    → payload_value m values g t (constant c) ≡ some (m.of_constant t es)
payload_value-constant m values g t c es read = ap (on_read (m.of_constant t)) read
