-- ===== src/Canonicalizer/Worklist/Search.antt =====
-- The search of lib/canonicalizer/worklist.cpp for reachable nodes comes to an end.
use sivra.Prelude.{
  ℕ, zero, suc, ◌+◌, ◌≤◌, ◌≡◌, ◌≢◌, refl, sym, ap, ◌∙◌, Bool, true, false, Bool-cases, Option-cases,
  inl, inr, List, [], ◌∷◌, some, length, length-set, get_elem?, set, replicate, nat_eq, arith,
}
use sivra.Ir.Ids.{NodeId}
use sivra.Ir.Graph.{ExpressionGraph, ExpressionNode, payload_operands, at}
use sivra.Canonicalizer.Worklist.{returns, out_of_fuel, flag}
use sivra.Canonicalizer.Worklist.Reach.{Reached, push_pending, visit, reach, operand_count}

pub length-push_pending :
    (os pending : List NodeId) → length (push_pending os pending) ≡ length os + length pending
length-push_pending [] pending = omega arith
length-push_pending (o ∷ os) pending = omega (arith, length-push_pending os (o ∷ pending))

-- The operands of the nodes that are not reached yet.
abbrev pub unvisited : List Bool → List ExpressionNode → ℕ
unvisited [] ns = 0
unvisited (b ∷ bs) [] = 0
unvisited (true ∷ bs) (n ∷ ns) = unvisited bs ns
unvisited (false ∷ bs) (n ∷ ns) = length (payload_operands n.payload) + unvisited bs ns

unvisited-set :
    (bs : List Bool) (ns : List ExpressionNode) (i : ℕ) (n : ExpressionNode)
    → length bs ≡ length ns
    → get_elem? ns i ≡ some n
    → flag bs i ≡ false
    → unvisited bs ns ≡ length (payload_operands n.payload) + unvisited (set bs i true) ns
unvisited-set [] [] i n same h e = cc
unvisited-set [] (k ∷ ns) i n same h e = absurd (omega arith)
unvisited-set (b ∷ bs) [] i n same h e = cc
unvisited-set (true ∷ bs) (k ∷ ns) zero n same h e = cc
unvisited-set (false ∷ bs) (k ∷ ns) zero n same h e =
    let here : k ≡ n = ground arith in
    ap (λ (x : ExpressionNode). length (payload_operands x.payload) + unvisited bs ns) here
unvisited-set (true ∷ bs) (k ∷ ns) (suc i) n same h e = unvisited-set bs ns i n (omega arith) h e
unvisited-set (false ∷ bs) (k ∷ ns) (suc i) n same h e =
    omega (arith, unvisited-set bs ns i n (omega arith) h e)

pub unvisited-replicate :
    (ns : List ExpressionNode) → unvisited (replicate (length ns) false) ns ≡ operand_count ns
unvisited-replicate [] = refl
unvisited-replicate (n ∷ ns) =
    ap (λ k. length (payload_operands n.payload) + k) (unvisited-replicate ns)

at-get :
    (g : ExpressionGraph) (id : NodeId) (n : ExpressionNode)
    → at g id ≡ some n
    → get_elem? g.nodes id.index ≡ some n
unfolding at
at-get g id n h = ground arith

module _ (source : ExpressionGraph) where
  -- Taking a node off the stack makes what is left to do smaller by one.
  visit-less :
      (n : ExpressionNode) (i : ℕ) (pending : List NodeId) (r : Reached)
      → get_elem? source.nodes i ≡ some n
      → length r.reachable ≡ length source.nodes
      → (length (visit n i pending r).1.reachable ≡ length source.nodes)
        × (length (visit n i pending r).0 + unvisited (visit n i pending r).1.reachable source.nodes
            ≡ length pending + unvisited r.reachable source.nodes)
  unfolding visit
  visit-less n i pending r here same = elim (Bool-cases (flag r.reachable i)) [
    | inl seen ↦ rw seen (same, refl)
    | inr new ↦ rw new (
      length-set r.reachable i true ∙ same,
      omega (
        arith,
        length-push_pending (payload_operands n.payload) pending,
        unvisited-set r.reachable source.nodes i n same here new,
      ),
    )
  ]

  pub reach-Ends :
      (fuel : ℕ) (pending : List NodeId) (r : Reached)
      → length r.reachable ≡ length source.nodes
      → length pending + unvisited r.reachable source.nodes ≤ fuel
      → reach fuel source pending r ≢ out_of_fuel
  unfolding reach
  reach-Ends fuel [] r same enough h = cc
  reach-Ends zero (c ∷ pending) r same enough h = omega arith
  reach-Ends (suc fuel) (c ∷ pending) r same enough h = elim (Option-cases (at source c)) [
    | inl absent ↦ ground arith
    | inr (n, there) ↦
        let (pending', r') = visit n c.index pending r in
        let (same', less) = visit-less n c.index pending r (at-get source c n there) same in
        reach-Ends fuel pending' r' same' (omega arith) (ground arith)
  ]

  pub reach-length :
      (fuel : ℕ) (pending : List NodeId) (r r' : Reached)
      → length r.reachable ≡ length source.nodes
      → reach fuel source pending r ≡ returns (some r')
      → length r'.reachable ≡ length source.nodes
  unfolding reach
  reach-length fuel [] r r' same h =
      let it : r ≡ r' = ground arith in ap (λ (k : Reached). length k.reachable) (sym it) ∙ same
  reach-length zero (c ∷ pending) r r' same h = absurd (ground arith)
  reach-length (suc fuel) (c ∷ pending) r r' same h = elim (Option-cases (at source c)) [
    | inl absent ↦ absurd (ground arith)
    | inr (n, there) ↦
        let (pending', r'') = visit n c.index pending r in
        let (same', less) = visit-less n c.index pending r (at-get source c n there) same in
        reach-length fuel pending' r'' r' same' (ground arith)
  ]
