-- ===== src/Canonicalizer/Mapping.antt =====
-- lib/canonicalizer/result.cpp: where the nodes of the source graph went, run after run.
use sivra.Prelude.{
  ℕ, zero, suc, ◌≡◌, refl, sym, ◌∙◌, Bool, true, false, Bool-cases, inl, inr, ◌&&◌, if◌then◌else◌,
  ltb, List, [], ◌∷◌, Option, none, some, Option-cases, length, get_elem?, set, replicate,
  length-set, get_elem?-set_self, get_elem?-set_ne, ◌==◌, nat_eq, ==-cases, arith, ap,
}
use sivra.Core.Result.{Result, ok, fail, require}
use sivra.Ir.Ids.{NodeId, OwnerToken, node_id_eq}

pub record SourceMapping : Type 0 where
  pub source_owner : OwnerToken
  pub nodes : List (Option NodeId)

unfoldable pub source_mapping : OwnerToken → ℕ → SourceMapping
source_mapping source_owner source_size = record {
  source_owner = source_owner;
  nodes = replicate source_size none;
}

-- The id of a node of the source graph.
unfoldable pub is_source : SourceMapping → NodeId → Bool
is_source m source = source.owner == m.source_owner && ltb source.index (length m.nodes)

abbrev flatten : Option (Option NodeId) → Option NodeId
flatten none = none
flatten (some o) = o

-- `record`.
unfoldable pub record_node : SourceMapping → NodeId → NodeId → Result SourceMapping
unfolding is_source
record_node m source canonical =
    if is_source m source
    then ok (record m { nodes = set m.nodes source.index (some canonical) })
    else fail "canonicalizer.mapping.invalid_source"

unfoldable pub canonical_for : SourceMapping → NodeId → Option NodeId
unfolding is_source
canonical_for m source =
    if is_source m source then flatten (get_elem? m.nodes source.index) else none

-- One round of the loop of `compose`; `none` is its failure.
abbrev pub compose_entry : SourceMapping → Option NodeId → Option (Option NodeId)
compose_entry next none = some none
compose_entry next (some node) =
    if is_source next node then some (flatten (get_elem? next.nodes node.index)) else none

-- The entries and whether no round failed. A failure leaves the rounds before it in place.
unfoldable pub compose_entries : SourceMapping → List (Option NodeId) → List (Option NodeId) × Bool
compose_entries next [] = ([], true)
compose_entries next (o ∷ os) =
    let (os', done) = compose_entries next os in
    elim (compose_entry next o) [ none ↦ (o ∷ os, false) | some o' ↦ (o' ∷ os', done) ]

-- The mapping afterwards, also behind a failure, and the result.
unfoldable pub compose : SourceMapping → SourceMapping → SourceMapping × Result (Unit {0})
compose m next =
    let (nodes, done) = compose_entries next m.nodes in
    (record m { nodes = nodes }, require done "canonicalizer.mapping.unresolved_compose")

-- What a node is mapped to by one mapping and then by the next; an unmapped node stays unmapped.
abbrev pub then_canonical : SourceMapping → Option NodeId → Option NodeId
then_canonical next none = none
then_canonical next (some node) = canonical_for next node

compose_entry-value :
    (next : SourceMapping) (o o' : Option NodeId)
    → compose_entry next o ≡ some o'
    → o' ≡ then_canonical next o
unfolding canonical_for
compose_entry-value next none o' h = ground arith
compose_entry-value next (some node) o' h = ground arith

-- A loop that came to its end passed every entry, and put the composed entry in its place.
compose_entries-cons :
    (next : SourceMapping) (o : Option NodeId) (os : List (Option NodeId))
    → (compose_entries next (o ∷ os)).1 ≡ true
    → (compose_entry next o ≡ some (then_canonical next o))
      × ((compose_entries next (o ∷ os)).0 ≡ then_canonical next o ∷ (compose_entries next os).0)
      × ((compose_entries next os).1 ≡ true)
unfolding compose_entries
compose_entries-cons next o os h = elim (Option-cases (compose_entry next o)) [
  | inl failed ↦ ground arith
  | inr (o', passed) ↦
      let value = compose_entry-value next o o' passed in
      (ground (arith, value), ground (arith, value), ground arith)
]

compose_entries-get :
    (next : SourceMapping) (os : List (Option NodeId)) (i : ℕ)
    → (compose_entries next os).1 ≡ true
    → flatten (get_elem? (compose_entries next os).0 i)
      ≡ then_canonical next (flatten (get_elem? os i))
compose_entries-get next [] i h = unfold compose_entries in refl
compose_entries-get next (o ∷ os) zero h =
    let (_, here, _) = compose_entries-cons next o os h in rw here refl
compose_entries-get next (o ∷ os) (suc i) h =
    let (_, here, rest) = compose_entries-cons next o os h in
    rw here (compose_entries-get next os i rest)

length-compose_entries :
    (next : SourceMapping) (os : List (Option NodeId))
    → length (compose_entries next os).0 ≡ length os
unfolding compose_entries
length-compose_entries next [] = refl
length-compose_entries next (o ∷ os) = elim (Option-cases (compose_entry next o)) [
  | inl failed ↦ ground arith
  | inr (o', passed) ↦ ground (arith, length-compose_entries next os)
]

canonical_for-inside :
    (m : SourceMapping) (source : NodeId)
    → is_source m source ≡ true
    → canonical_for m source ≡ flatten (get_elem? m.nodes source.index)
unfolding canonical_for
canonical_for-inside m source h = rw h refl

canonical_for-outside :
    (m : SourceMapping) (source : NodeId)
    → is_source m source ≡ false
    → canonical_for m source ≡ none
unfolding canonical_for
canonical_for-outside m source h = rw h refl

-- Other entries, as many as before, leave the nodes of the source graph the same.
is_source-frame :
    (m : SourceMapping) (os : List (Option NodeId)) (source : NodeId)
    → length os ≡ length m.nodes
    → is_source (record m { nodes = os }) source ≡ is_source m source
unfolding is_source
is_source-frame m os source same = rw same refl

-- A composition that succeeds maps every id to where the next mapping sends what the first mapped it
-- to, and has nothing for an id that the first has nothing for.
pub compose-canonical_for :
    (m next : SourceMapping) (source : NodeId)
    → (compose m next).1 ≡ ok tt
    → canonical_for (compose m next).0 source ≡ then_canonical next (canonical_for m source)
unfolding compose
compose-canonical_for m next source h =
    let done : (compose_entries next m.nodes).1 ≡ true = ground arith in
    let os = (compose_entries next m.nodes).0 in
    let frame = is_source-frame m os source (length-compose_entries next m.nodes) in
    elim (Bool-cases (is_source m source)) [
      | inl inside ↦
          canonical_for-inside (record m { nodes = os }) source (frame ∙ inside)
          ∙ compose_entries-get next m.nodes source.index done
          ∙ ap (then_canonical next) (sym (canonical_for-inside m source inside))
      | inr outside ↦
          canonical_for-outside (record m { nodes = os }) source (frame ∙ outside)
          ∙ ap (then_canonical next) (sym (canonical_for-outside m source outside))
    ]

set-canonical_for :
    (m : SourceMapping) (source canonical other : NodeId)
    → is_source m source ≡ true
    → canonical_for (record m { nodes = set m.nodes source.index (some canonical) }) other
      ≡ (if other == source then some canonical else canonical_for m other)
set-canonical_for m source canonical other h =
    let os = set m.nodes source.index (some canonical) in
    let frame = is_source-frame m os other (length-set m.nodes source.index (some canonical)) in
    elim (==-cases other source) [
      | inl (same, test) ↦
          canonical_for-inside (record m { nodes = os }) other (frame ∙ ap (is_source m) same ∙ h)
          ∙ unfold is_source in
            ground (arith, get_elem?-set_self m.nodes source.index (some canonical))
      | inr (differ, test) ↦ elim (Bool-cases (is_source m other)) [
        | inl inside ↦
            canonical_for-inside (record m { nodes = os }) other (frame ∙ inside)
            ∙ unfold is_source in
              ground (
                arith,
                get_elem?-set_ne m.nodes source.index other.index (some canonical),
                canonical_for-inside m other,
              )
        | inr outside ↦
            canonical_for-outside (record m { nodes = os }) other (frame ∙ outside)
            ∙ ground (arith, canonical_for-outside m other outside)
      ]
    ]

-- What a `record` that succeeds stores is what is read for that node afterwards, and for every other
-- id nothing changes.
pub record_node-canonical_for :
    (m m' : SourceMapping) (source canonical other : NodeId)
    → record_node m source canonical ≡ ok m'
    → canonical_for m' other ≡ (if other == source then some canonical else canonical_for m other)
unfolding record_node
record_node-canonical_for m m' source canonical other h =
    let inside : is_source m source ≡ true = ground arith in
    let stored : record m { nodes = set m.nodes source.index (some canonical) } ≡ m' =
      ground arith in
    ap (λ k. canonical_for k other) (sym stored) ∙ set-canonical_for m source canonical other inside
