-- ===== src/Canonicalizer/Worklist/Soundness.antt =====
-- Whole runs of lib/canonicalizer/worklist.cpp: they check their graph, and keep values.
use sivra.Prelude.{
  ℕ, ◌≡◌, refl, sym, ap, subst, ◌∙◌, Bool, false, Bool-cases, Option-cases, inl, inr, List, [],
  Option, none, some, replicate, ltb, ◌&&◌, arith,
}
use sivra.Prelude.Sort.{stable_sort}
use sivra.Core.Result.{ok, complete}
use sivra.Ir.Ids.{NodeId, OwnerToken}
use sivra.Ir.Graph.{ExpressionGraph, expression_graph, size}
use sivra.Ir.Structural.Meaning.{Meaning}
use sivra.Ir.Validation.{validate_graph}
use sivra.Ir.Builder.Extension.{IsMeant}
use sivra.Canonicalizer.Mapping.{source_mapping, canonical_for}
use sivra.Canonicalizer.Scheduler.{PassPlan}
use sivra.Canonicalizer.Worklist.{returns, WorklistEngine, WorklistState}
use sivra.Canonicalizer.Worklist.Reach.{Reached, push_pending, reach}
use sivra.Canonicalizer.Worklist.Import.{import_nodes}
use sivra.Canonicalizer.Worklist.Rounds.{Queue, enqueue_all, applications, is_complete}
use sivra.Canonicalizer.Worklist.Run.{
  WorklistResult, RunContext, result_of, conclude, begin, reach_fuel, queue_fuel, rewrite_all,
  rewrite_planned, has_plan, copy_reached, unreached, run_on, run,
}
use sivra.Canonicalizer.Worklist.Copies.{CopiesMeant}
use sivra.Canonicalizer.Worklist.Imports.{Kept, Kept-of_Frame, Kept-trans, import_nodes-Kept}
use sivra.Canonicalizer.Worklist.Frame.{Tracked, Frame-refl}
use sivra.Canonicalizer.Worklist.Endings.{no_meaning}
use sivra.Canonicalizer.Worklist.Turns.{RulesAdd}
use sivra.Canonicalizer.Worklist.Renewals.{Sound}
use sivra.Canonicalizer.Worklist.Processing.{Outcome-cases}
use sivra.Canonicalizer.Worklist.Loop.{rewrite_queue-Kept}
use sivra.Canonicalizer.Worklist.Results.{
  MappingMeant, entry-replicate, source_mapping-MappingMeant, record_copies-MappingMeant,
  conclude-graph, conclude-valid, conclude-termination,
}

module _ {D : Type 0} (m : Meaning D) {Digest : Type 0} (engine : WorklistEngine Digest)
    (source : ExpressionGraph) (src : NodeId → D) (adds : RulesAdd engine) where
  pub rewrite_planned-Kept :
      (plan : Option PassPlan) (r : Reached) (order : List ℕ) (s s' : WorklistState Digest)
      → rewrite_planned engine source plan r order s ≡ returns s'
      → Kept m source src (Sound m engine source src) s s'
  unfolding rewrite_all
  rewrite_planned-Kept none r order s s' h =
      let same : s ≡ s' = ground arith in
      subst (Kept m source src (Sound m engine source src) s) same
        (Kept-of_Frame m source src (Sound m engine source src) (Frame-refl s) refl)
  rewrite_planned-Kept (some plan) r order s s' h =
      elim (Bool-cases (s.rewriting_enabled && is_complete s.status)) [
        | inr off ↦
            let same : s ≡ s' = ground arith in
            subst (Kept m source src (Sound m engine source src) s) same
              (Kept-of_Frame m source src (Sound m engine source src) (Frame-refl s) refl)
        | inl on ↦
            let empty : Queue = record { queue = []; queued = replicate (size source) false } in
            let q = enqueue_all r.reachable empty (applications source order) in
            rewrite_queue-Kept m engine source src adds (queue_fuel source s) plan.rules r.reachable
              q.queue q.queued s s' (ground arith)
      ]

  pub copy_reached-Kept :
      (plan : Option PassPlan) (count_imports : Bool) (r : Reached) (s s' : WorklistState Digest)
      → copy_reached engine source plan count_imports r s ≡ returns s'
      → Kept m source src (Sound m engine source src) s s'
  unfolding copy_reached
  copy_reached-Kept plan count_imports r s s' h =
      let order = stable_sort ltb r.reachable_order in
      elim (Option-cases (import_nodes source count_imports order s)) [
        | inl thrown ↦ absurd (ground arith)
        | inr (t, went) ↦
            Kept-trans m source src (Sound m engine source src)
              (import_nodes-Kept m source src (Sound m engine source src)
                (λ (p : Sound m engine source src). p.valid)
                (λ (p : Sound m engine source src). p.read)
                (λ (p : Sound m engine source src). p.honours) count_imports order s t went)
              (rewrite_planned-Kept plan r order t s' (ground arith))
      ]

  -- The entries and the roots that a run records are right, where the copies are.
  conclude-Meant :
      (roots : List NodeId) (order : List ℕ) (s : WorklistState Digest) (values : NodeId → D)
      → CopiesMeant m source src values s.copied
      → MappingMeant src values (conclude source roots order s).mapping
  unfolding conclude result_of
  conclude-Meant roots order s values meant =
      record_copies-MappingMeant m source src values s.copied meant order
        (source_mapping source.owner (size source))
        (source_mapping-MappingMeant src values source.owner (size source))

  run_on-Meant :
      (sound : Sound m engine source src) (roots : List NodeId) (plan : Option PassPlan)
      (count_imports : Bool) (output : ExpressionGraph) (c : RunContext Digest) (r : Option Reached)
      (e : WorklistResult Digest) (values : NodeId → D)
      → output.catalogue ≡ source.catalogue
      → run_on engine source roots plan count_imports
          (begin source output (has_plan engine source plan) c)
          r
        ≡ returns e
      → IsMeant m e.graph values
      → MappingMeant src values e.mapping
  run_on-Meant sound roots plan count_imports output c none e values cat h model =
      let made : source_mapping source.owner (size source) ≡ e.mapping =
        unfold result_of in ground arith in
      subst (MappingMeant src values) made
        (source_mapping-MappingMeant src values source.owner (size source))
  run_on-Meant sound roots plan count_imports output c (some r) e values cat h model =
      let s = begin source output (has_plan engine source plan) c in
      elim (Outcome-cases (copy_reached engine source plan count_imports r s)) [
        | inr (inl thrown) ↦ absurd (ground arith)
        | inr (inr out) ↦ absurd (ground arith)
        | inl (s', went) ↦
            let order = stable_sort ltb r.reachable_order in
            let made : conclude source roots order s' ≡ e = ground arith in
            let graph : e.graph ≡ s'.output =
              ap (λ (k : WorklistResult Digest). k.graph) (sym made)
              ∙ conclude-graph source roots order s' in
            let kept = copy_reached-Kept plan count_imports r s s' went in
            let meant =
              kept.copies values sound cat (subst (λ g. IsMeant m g values) graph model)
                (λ i id there. absurd (entry-replicate (size source) i id there)) in
            subst (λ (k : WorklistResult Digest). MappingMeant src values k.mapping) made
              (conclude-Meant roots order s' values meant)
      ]

  -- Let the source validate and have a value for each node, in a meaning that does not see defaulted
  -- attributes, and let the rules of the engine only add to the graph and keep values. Then each node
  -- that the mapping of a run gives for a node of the source has the value of that node, for any values
  -- of the nodes of the new graph and for numbers of the widths of the program.
  pub run-Meant :
      (sound : Sound m engine source src) (owner : OwnerToken) (roots : List NodeId)
      (plan : Option PassPlan) (count_imports : Bool) (c : RunContext Digest)
      (e : WorklistResult Digest) (values : NodeId → D)
      → run engine source owner roots plan count_imports c ≡ returns e
      → IsMeant m e.graph values
      → (node id : NodeId) → canonical_for e.mapping node ≡ some id
      → values id ≡ src node
  unfolding run expression_graph
  run-Meant sound owner roots plan count_imports c e values h model =
      elim (Option-cases (expression_graph owner source.catalogue source.external_value_owner)) [
        | inl refused ↦ absurd (ground arith)
        | inr (output, made) ↦
            let found =
              reach (reach_fuel source roots) source (push_pending roots [])
                (unreached engine source) in
            elim (Outcome-cases found) [
              | inr (inl thrown) ↦ absurd (ground arith)
              | inr (inr out) ↦ absurd (ground arith)
              | inl (r, went) ↦
                  run_on-Meant sound roots plan count_imports output c r e values (ground arith)
                    (ground arith) model
            ]
      ]

module _ {Digest : Type 0} (engine : WorklistEngine Digest) (source : ExpressionGraph) where
  run_on-valid :
      (roots : List NodeId) (plan : Option PassPlan) (count_imports : Bool)
      (s : WorklistState Digest) (r : Option Reached) (e : WorklistResult Digest)
      → run_on engine source roots plan count_imports s r ≡ returns e
      → e.status ≡ complete
      → validate_graph e.graph ≡ ok tt
  unfolding result_of
  run_on-valid roots plan count_imports s none e h done = absurd (ground arith)
  run_on-valid roots plan count_imports s (some r) e h done =
      elim (Outcome-cases (copy_reached engine source plan count_imports r s)) [
        | inr (inl thrown) ↦ absurd (ground arith)
        | inr (inr out) ↦ absurd (ground arith)
        | inl (s', went) ↦
            let order = stable_sort ltb r.reachable_order in
            let made : conclude source roots order s' ≡ e = ground arith in
            let status : (conclude source roots order s').status ≡ complete =
              ap (λ (k : WorklistResult Digest). k.status) made ∙ done in
            subst (λ (k : WorklistResult Digest). validate_graph k.graph ≡ ok tt) made
              (conclude-valid source roots order s' status)
      ]

  -- The graph of a run that returns with the status `complete` validates.
  pub run-valid :
      (owner : OwnerToken) (roots : List NodeId) (plan : Option PassPlan) (count_imports : Bool)
      (c : RunContext Digest) (e : WorklistResult Digest)
      → run engine source owner roots plan count_imports c ≡ returns e
      → e.status ≡ complete
      → validate_graph e.graph ≡ ok tt
  unfolding run
  run-valid owner roots plan count_imports c e h done =
      elim (Option-cases (expression_graph owner source.catalogue source.external_value_owner)) [
        | inl refused ↦ absurd (ground arith)
        | inr (output, made) ↦
            let found =
              reach (reach_fuel source roots) source (push_pending roots [])
                (unreached engine source) in
            elim (Outcome-cases found) [
              | inr (inl thrown) ↦ absurd (ground arith)
              | inr (inr out) ↦ absurd (ground arith)
              | inl (r, went) ↦
                  run_on-valid roots plan count_imports
                    (begin source output (has_plan engine source plan) c) r e (ground arith) done
            ]
      ]

  run_on-Tracked :
      (roots : List NodeId) (plan : Option PassPlan) (count_imports : Bool)
      (output : ExpressionGraph) (c : RunContext Digest) (r : Option Reached)
      (e : WorklistResult Digest)
      → RulesAdd engine
      → run_on engine source roots plan count_imports
          (begin source output (has_plan engine source plan) c)
          r
        ≡ returns e
      → Tracked c.termination e.termination
  unfolding result_of
  run_on-Tracked roots plan count_imports output c none e adds h =
      let same : c.termination ≡ e.termination = ground arith in
      subst (Tracked c.termination) same
        (Frame-refl (begin source output (has_plan engine source none) c)).tracked
  run_on-Tracked roots plan count_imports output c (some r) e adds h =
      let s = begin source output (has_plan engine source plan) c in
      elim (Outcome-cases (copy_reached engine source plan count_imports r s)) [
        | inr (inl thrown) ↦ absurd (ground arith)
        | inr (inr out) ↦ absurd (ground arith)
        | inl (s', went) ↦
            let order = stable_sort ltb r.reachable_order in
            let made : conclude source roots order s' ≡ e = ground arith in
            let same : s'.termination ≡ e.termination =
              sym (conclude-termination source roots order s')
              ∙ ap (λ (k : WorklistResult Digest). k.termination) made in
            let kept =
              copy_reached-Kept no_meaning engine source (λ id. tt) adds plan count_imports r s s'
                went in
            subst (Tracked c.termination) same kept.frame.tracked
      ]

  -- A run leaves the limits and the count of the phase iterations alone.
  pub run-Tracked :
      (owner : OwnerToken) (roots : List NodeId) (plan : Option PassPlan) (count_imports : Bool)
      (c : RunContext Digest) (e : WorklistResult Digest)
      → RulesAdd engine
      → run engine source owner roots plan count_imports c ≡ returns e
      → Tracked c.termination e.termination
  unfolding run
  run-Tracked owner roots plan count_imports c e adds h =
      elim (Option-cases (expression_graph owner source.catalogue source.external_value_owner)) [
        | inl refused ↦ absurd (ground arith)
        | inr (output, made) ↦
            let found =
              reach (reach_fuel source roots) source (push_pending roots [])
                (unreached engine source) in
            elim (Outcome-cases found) [
              | inr (inl thrown) ↦ absurd (ground arith)
              | inr (inr out) ↦ absurd (ground arith)
              | inl (r, went) ↦
                  run_on-Tracked roots plan count_imports output c r e adds (ground arith)
            ]
      ]
