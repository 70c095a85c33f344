-- ===== src/Canonicalizer/Worklist/Endings.antt =====
-- Whole runs of lib/canonicalizer/worklist.cpp come to an end.
use sivra.Prelude.{
  ℕ, Text, ◌+◌, ◌*◌, ◌≤◌, ◌≡◌, ◌≢◌, refl, sym, ap, ◌∙◌, Bool, false, Bool-cases, Option-cases, inl,
  inr, List, [], Option, none, some, length, length-replicate, replicate, ltb, ◌&&◌, arith,
}
use native.Mathlib.Nat.{mul-le-mul_left, mul_comm, mul-add}
use sivra.Prelude.Sort.{stable_sort}
use sivra.Ir.Ids.{NodeId, OwnerToken}
use sivra.Ir.Graph.{ExpressionGraph, expression_graph, size}
use sivra.Ir.Structural.Meaning.{Meaning}
use sivra.Canonicalizer.Scheduler.{PassPlan}
use sivra.Canonicalizer.Worklist.{Outcome, returns, out_of_fuel, WorklistEngine, WorklistState}
use sivra.Canonicalizer.Worklist.Reach.{Reached, push_pending, reach}
use sivra.Canonicalizer.Worklist.Import.{import_nodes}
use sivra.Canonicalizer.Worklist.Rounds.{Queue, enqueue_all, applications, is_complete}
use sivra.Canonicalizer.Worklist.Run.{
  RunContext, begin, reach_fuel, queue_fuel, rewrite_all, rewrite_planned, has_plan, copy_reached,
  unreached, run_on, run,
}
use sivra.Canonicalizer.Worklist.Turns.{RulesAdd}
use sivra.Canonicalizer.Worklist.Processing.{Outcome-cases}
use sivra.Canonicalizer.Worklist.Queues.{IsQueue, length-IsQueue, enqueue_all-IsQueue, left}
use sivra.Canonicalizer.Worklist.Loop.{rewrite_queue-Ends}
use sivra.Canonicalizer.Worklist.Search.{
  unvisited-replicate, length-push_pending, reach-Ends, reach-length,
}

abbrev pub no_meaning : Meaning (Unit {0})
no_meaning = record {
  of_constant = λ t es. tt;
  of_symbol = λ t name. tt;
  of_external_value = λ t v. tt;
  of_unknown = λ t reason. tt;
  of_operation = λ t key as' os. tt;
  of_merge = λ t os. tt;
}

room_all : (n k a l q : ℕ) → n ≡ k → a ≤ l → q ≤ n → n * a + q ≤ (l + 1) * k
room_all n k a l q same less few =
    rw (sym same, mul_comm (l + 1) n, mul-add n l 1) (omega (arith, mul-le-mul_left n less))

module _ {Digest : Type 0} (engine : WorklistEngine Digest) (source : ExpressionGraph) where
  rewrite_all-Ends :
      (rules : List Text) (r : Reached) (order : List ℕ) (s : WorklistState Digest)
      → RulesAdd engine
      → length r.reachable ≡ length source.nodes
      → rewrite_all engine source rules r order s ≢ out_of_fuel
  unfolding rewrite_all size
  rewrite_all-Ends rules r order s adds same =
      let empty : Queue = record { queue = []; queued = replicate (length source.nodes) false } in
      let first : IsQueue (length r.reachable) empty = record {
        flags = length-replicate (length source.nodes) false ∙ sym same;
        flagged = ground arith;
      } in
      let q = enqueue_all r.reachable empty (applications source order) in
      let w = enqueue_all-IsQueue r.reachable (applications source order) empty first in
      let fits = length-IsQueue w in
      let limit =
        s.termination.limits.maximum_rewrites + s.termination.limits.maximum_output_nodes in
      let small : left s ≤ limit = unfold size in omega arith in
      rewrite_queue-Ends no_meaning engine source (λ id. tt) adds (queue_fuel source s) rules
        r.reachable q.queue q.queued s w
        (room_all (length r.reachable) (length source.nodes) (left s) limit (length q.queue) same
          small fits)

  rewrite_planned-Ends :
      (plan : Option PassPlan) (r : Reached) (order : List ℕ) (s : WorklistState Digest)
      → RulesAdd engine
      → length r.reachable ≡ length source.nodes
      → rewrite_planned engine source plan r order s ≢ out_of_fuel
  rewrite_planned-Ends none r order s adds same h = cc
  rewrite_planned-Ends (some plan) r order s adds same h =
      elim (Bool-cases (s.rewriting_enabled && is_complete s.status)) [
        | inl on ↦ rewrite_all-Ends plan.rules r order s adds same (ground arith)
        | inr off ↦ ground arith
      ]

  copy_reached-Ends :
      (plan : Option PassPlan) (count_imports : Bool) (r : Reached) (s : WorklistState Digest)
      → RulesAdd engine
      → length r.reachable ≡ length source.nodes
      → copy_reached engine source plan count_imports r s ≢ out_of_fuel
  unfolding copy_reached
  copy_reached-Ends plan count_imports r s adds same h =
      let order = stable_sort ltb r.reachable_order in
      elim (Option-cases (import_nodes source count_imports order s)) [
        | inl thrown ↦ ground arith
        | inr (s', went) ↦ rewrite_planned-Ends plan r order s' adds same (ground arith)
      ]

  run_on-Ends :
      (roots : List NodeId) (plan : Option PassPlan) (count_imports : Bool)
      (s : WorklistState Digest) (r : Option Reached)
      → RulesAdd engine
      → ((r' : Reached) → r ≡ some r' → length r'.reachable ≡ length source.nodes)
      → run_on engine source roots plan count_imports s r ≢ out_of_fuel
  run_on-Ends roots plan count_imports s none adds same h = cc
  run_on-Ends roots plan count_imports s (some r) adds same h =
      elim (Outcome-cases (copy_reached engine source plan count_imports r s)) [
        | inl (s', went) ↦ ground arith
        | inr (inl thrown) ↦ ground arith
        | inr (inr out) ↦ copy_reached-Ends plan count_imports r s adds (same r refl) out
      ]

  abbrev found : List NodeId → Outcome (Option Reached)
  found roots =
      reach (reach_fuel source roots) source (push_pending roots []) (unreached engine source)

  found-Ends : (roots : List NodeId) → found roots ≢ out_of_fuel
  unfolding size
  found-Ends roots =
      reach-Ends source (reach_fuel source roots) (push_pending roots []) (unreached engine source)
        (length-replicate (length source.nodes) false)
        (omega (arith, length-push_pending roots [], unvisited-replicate source.nodes))

  found-length :
      (roots : List NodeId) (r : Reached)
      → found roots ≡ returns (some r)
      → length r.reachable ≡ length source.nodes
  unfolding size
  found-length roots r h =
      reach-length source (reach_fuel source roots) (push_pending roots [])
        (unreached engine source) r (length-replicate (length source.nodes) false) h

  -- If the rules of the engine only add to the graph, no loop of a run is cut short by its fuel: a run
  -- returns or throws.
  pub run-Ends :
      (owner : OwnerToken) (roots : List NodeId) (plan : Option PassPlan) (count_imports : Bool)
      (c : RunContext Digest)
      → RulesAdd engine
      → run engine source owner roots plan count_imports c ≢ out_of_fuel
  unfolding run
  run-Ends owner roots plan count_imports c adds h =
      elim (Option-cases (expression_graph owner source.catalogue source.external_value_owner)) [
        | inl refused ↦ ground arith
        | inr (output, made) ↦ elim (Outcome-cases (found roots)) [
          | inr (inl thrown) ↦ ground arith
          | inr (inr out) ↦ found-Ends roots out
          | inl (r, went) ↦
              run_on-Ends roots plan count_imports
                (begin source output (has_plan engine source plan) c) r adds
                (λ r' e. found-length roots r' (went ∙ ap returns e)) (ground arith)
        ]
      ]
