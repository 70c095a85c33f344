-- ===== src/Canonicalizer/Engine/Endings.antt =====
-- The loops of lib/canonicalizer/engine.cpp come to an end within the budget of phase iterations.
use sivra.Prelude.{
  ℕ, zero, suc, ◌+◌, ◌<◌, ◌≡◌, ◌≢◌, refl, sym, ap, subst, ◌∙◌, Bool, true, false, not, ◌&&◌, ◌||◌,
  Bool-cases, Option-cases, ◌⊎◌, inl, inr, List, [], ◌∷◌, none, some, is_empty, nat_eq, arith,
}
use sivra.Core.Result.{Result-cases}
use sivra.Ir.Ids.{NodeId, OwnerToken}
use sivra.Ir.Graph.{ExpressionGraph, expression_graph}
use sivra.Canonicalizer.Configuration.{is_phase_enabled}
use sivra.Canonicalizer.Scheduler.{PassPlan}
use sivra.Canonicalizer.Termination.{Consumed, begin_phase_iteration}
use sivra.Canonicalizer.Trace.{mark}
use sivra.Canonicalizer.Worklist.{returns, out_of_fuel}
use sivra.Canonicalizer.Worklist.Rounds.{is_complete}
use sivra.Canonicalizer.Worklist.Run.{run}
use sivra.Canonicalizer.Worklist.Frame.{Tracked}
use sivra.Canonicalizer.Worklist.Turns.{RulesAdd}
use sivra.Canonicalizer.Worklist.Processing.{Outcome-cases}
use sivra.Canonicalizer.Worklist.Endings.{run-Ends}
use sivra.Canonicalizer.Worklist.Soundness.{run-Tracked}
use sivra.Canonicalizer.Engine.{Engine, EngineState, check_input, new_context, after_phase}
use sivra.Canonicalizer.Engine.Canonicalize.{
  run_phase, begun, phase_iteration, phase_loop, phase_fuel, run_plan, run_plans, sequences,
  run_phases, compact, imported, canonicalize_valid, invalid_result, canonicalize,
}
use sivra.Canonicalizer.Engine.Steps.{
  Counted, Later, Counted-Later, Later-trans, left, left-Counted, tracker, Step, Step-refl,
  Step-trans, after_phase-tracker, begin_phase_iteration-granted, begin_phase_iteration-Later,
}

module _ {Digest : Type 0} (e : Engine Digest) (adds : RulesAdd e.worklist) where
  -- A round of a phase begins an iteration, or it is the last one and changes nothing.
  record Iterated (st : EngineState Digest) (r : EngineState Digest × Bool) : Type 0 where
    later : Later (tracker st) (tracker r.0)
    cause :
        Counted (tracker st) (tracker r.0)
        ⊎ (r.1 ≡ false) × (r.0.changed_sequence ≡ st.changed_sequence)

  run_phase-Tracked :
      (plan : PassPlan) (st : EngineState Digest) (r : EngineState Digest × Bool)
      → run_phase e plan st ≡ returns r
      → Tracked (tracker st) (tracker r.0)
  unfolding run_phase
  run_phase-Tracked plan st r h =
      elim (Outcome-cases (
        run e.worklist st.working_graph st.next_owner st.working_roots (some plan) false
          st.context)) [
            | inr (inl thrown) ↦ absurd (ground arith)
            | inr (inr out) ↦ absurd (ground arith)
            | inl (w, went) ↦
                let saved = mark st.context.trace in
                let made : after_phase plan.policy saved st w ≡ r = ground arith in
                let same : w.termination ≡ tracker r.0 =
                  sym (after_phase-tracker plan.policy saved st w)
                  ∙ ap (λ (k : EngineState Digest × Bool). tracker k.0) made in
                subst (Tracked (tracker st)) same (
                  run-Tracked e.worklist st.working_graph st.next_owner st.working_roots (some plan)
                    false st.context w adds went)
          ]

  run_phase-Ends : (plan : PassPlan) (st : EngineState Digest) → run_phase e plan st ≢ out_of_fuel
  unfolding run_phase
  run_phase-Ends plan st h =
      elim (Outcome-cases (
        run e.worklist st.working_graph st.next_owner st.working_roots (some plan) false
          st.context)) [
            | inr (inl thrown) ↦ ground arith
            | inr (inr out) ↦
                run-Ends e.worklist st.working_graph st.next_owner st.working_roots (some plan)
                  false st.context adds out
            | inl (w, went) ↦ ground arith
          ]

  begun-Iterated :
      (plan : PassPlan) (st : EngineState Digest) (k : Consumed) (r : EngineState Digest × Bool)
      → begin_phase_iteration (tracker st) ≡ k
      → begun e plan st k ≡ returns r
      → Iterated st r
  begun-Iterated plan st (t, some d) r began h =
      let later = begin_phase_iteration-Later (tracker st) in
      let same : tracker r.0 ≡ t = ground arith in
      record {
        later = rw same (subst (λ (k : Consumed). Later (tracker st) k.0) began later);
        cause = inr (ground arith, ground arith);
      }
  begun-Iterated plan st (t, none) r began h =
      let (later, counted) = begin_phase_iteration-granted (tracker st) t began in
      let ran =
        run_phase-Tracked plan (record st { context = record st.context { termination = t } }) r
          h in
      let after : Later t (tracker r.0) =
        let phases = ran.phases in record { limits = ran.limits; phases = ground arith } in
      record { later = Later-trans later after; cause = inl (Counted-Later counted after) }

  phase_iteration-Iterated :
      (plan : PassPlan) (st : EngineState Digest) (r : EngineState Digest × Bool)
      → phase_iteration e plan st ≡ returns r
      → Iterated st r
  unfolding phase_iteration
  phase_iteration-Iterated plan st r h =
      begun-Iterated plan st (begin_phase_iteration (tracker st)) r refl h

  begun-Ends :
      (plan : PassPlan) (st : EngineState Digest) (k : Consumed) → begun e plan st k ≢ out_of_fuel
  begun-Ends plan st (t, some d) h = cc
  begun-Ends plan st (t, none) h =
      run_phase-Ends plan (record st { context = record st.context { termination = t } }) h

  phase_iteration-Ends :
      (plan : PassPlan) (st : EngineState Digest) → phase_iteration e plan st ≢ out_of_fuel
  unfolding phase_iteration
  phase_iteration-Ends plan st = begun-Ends plan st (begin_phase_iteration (tracker st))

  Iterated-Step : (st st' : EngineState Digest) (b : Bool) → Iterated st (st', b) → Step st st'
  Iterated-Step st st' b i = record {
    later = i.later;
    cause = λ h. elim i.cause [ inl c ↦ inr c | inr (last, same) ↦ inl (sym same ∙ h) ];
  }

  phase_loop-Step :
      (fuel : ℕ) (plan : PassPlan) (st st' : EngineState Digest)
      → phase_loop e fuel plan st ≡ returns st'
      → Step st st'
  unfolding phase_loop
  phase_loop-Step zero plan st st' h = absurd (ground arith)
  phase_loop-Step (suc fuel) plan st st' h = elim (Outcome-cases (phase_iteration e plan st)) [
    | inr (inl thrown) ↦ absurd (ground arith)
    | inr (inr out) ↦ absurd (ground arith)
    | inl ((t, true), went) ↦
        Step-trans (Iterated-Step st t true (phase_iteration-Iterated plan st (t, true) went))
          (phase_loop-Step fuel plan t st' (ground arith))
    | inl ((t, false), went) ↦
        let same : t ≡ st' = ground arith in
        subst (Step st) same
          (Iterated-Step st t false (phase_iteration-Iterated plan st (t, false) went))
  ]

  phase_loop-Ends :
      (fuel : ℕ) (plan : PassPlan) (st : EngineState Digest)
      → left (tracker st) < fuel
      → phase_loop e fuel plan st ≢ out_of_fuel
  unfolding phase_loop
  phase_loop-Ends zero plan st enough h = omega arith
  phase_loop-Ends (suc fuel) plan st enough h = elim (Outcome-cases (phase_iteration e plan st)) [
    | inr (inl thrown) ↦ ground arith
    | inr (inr out) ↦ phase_iteration-Ends plan st out
    | inl ((t, false), went) ↦ ground arith
    | inl ((t, true), went) ↦
        let i = phase_iteration-Iterated plan st (t, true) went in
        elim i.cause [
          | inr (last, same) ↦ absurd (ground arith)
          | inl c ↦
              phase_loop-Ends fuel plan t
                (left-Counted (tracker st) (tracker t) fuel i.later c enough) (ground arith)
        ]
  ]

  run_plan-Step :
      (plan : PassPlan) (st st' : EngineState Digest)
      → run_plan e plan st ≡ returns st'
      → Step st st'
  unfolding run_plan
  run_plan-Step plan st st' h =
      elim (Bool-cases (
        st.stop
        || is_empty plan.rules
        || not (is_phase_enabled e.worklist.configuration plan.phase))) [
          | inl skips ↦ let same : st ≡ st' = ground arith in subst (Step st) same (Step-refl st)
          | inr runs ↦ phase_loop-Step (phase_fuel e st) plan st st' (ground arith)
        ]

  run_plan-Ends : (plan : PassPlan) (st : EngineState Digest) → run_plan e plan st ≢ out_of_fuel
  unfolding run_plan
  run_plan-Ends plan st h =
      elim (Bool-cases (
        st.stop
        || is_empty plan.rules
        || not (is_phase_enabled e.worklist.configuration plan.phase))) [
          | inl skips ↦ ground arith
          | inr runs ↦ phase_loop-Ends (phase_fuel e st) plan st (omega arith) (ground arith)
        ]

  run_plans-Step :
      (plans : List PassPlan) (st st' : EngineState Digest)
      → run_plans e plans st ≡ returns st'
      → Step st st'
  unfolding run_plans
  run_plans-Step [] st st' h =
      let same : st ≡ st' = ground arith in subst (Step st) same (Step-refl st)
  run_plans-Step (plan ∷ plans) st st' h = elim (Outcome-cases (run_plan e plan st)) [
    | inr (inl thrown) ↦ absurd (ground arith)
    | inr (inr out) ↦ absurd (ground arith)
    | inl (t, went) ↦
        Step-trans (run_plan-Step plan st t went) (run_plans-Step plans t st' (ground arith))
  ]

  run_plans-Ends :
      (plans : List PassPlan) (st : EngineState Digest) → run_plans e plans st ≢ out_of_fuel
  unfolding run_plans
  run_plans-Ends [] st h = cc
  run_plans-Ends (plan ∷ plans) st h = elim (Outcome-cases (run_plan e plan st)) [
    | inr (inl thrown) ↦ ground arith
    | inr (inr out) ↦ run_plan-Ends plan st out
    | inl (t, went) ↦ run_plans-Ends plans t (ground arith)
  ]

  sequences-Ends :
      (fuel : ℕ) (st : EngineState Digest)
      → left (tracker st) < fuel
      → sequences e fuel st ≢ out_of_fuel
  unfolding sequences
  sequences-Ends zero st enough h = omega arith
  sequences-Ends (suc fuel) st enough h =
      let first = record st { changed_sequence = false } in
      elim (Outcome-cases (run_plans e e.scheduler first)) [
        | inr (inl thrown) ↦ ground arith
        | inr (inr out) ↦ run_plans-Ends e.scheduler first out
        | inl (t, went) ↦ elim (Bool-cases (not t.stop && t.changed_sequence)) [
          | inr over ↦ ground arith
          | inl again ↦
              let step = run_plans-Step e.scheduler first t went in
              elim (step.cause (ground arith)) [
                | inl never ↦ cc
                | inr c ↦
                    sequences-Ends fuel t
                      (left-Counted (tracker st) (tracker t) fuel step.later c enough)
                      (ground arith)
              ]
        ]
      ]

  run_phases-Ends : (st : EngineState Digest) → run_phases e st ≢ out_of_fuel
  unfolding run_phases
  run_phases-Ends st h = elim (Bool-cases (is_complete st.status)) [
    | inl on ↦ sequences-Ends (phase_fuel e st) st (omega arith) (ground arith)
    | inr off ↦ ground arith
  ]

  compact-Ends : (st : EngineState Digest) → compact e st ≢ out_of_fuel
  unfolding compact
  compact-Ends st h = elim (Bool-cases (is_empty st.working_roots)) [
    | inl none_there ↦ ground arith
    | inr some_there ↦
        elim (Outcome-cases
          (run e.worklist st.working_graph st.next_owner st.working_roots none false st.context)) [
            | inr (inl thrown) ↦ ground arith
            | inr (inr out) ↦
                run-Ends e.worklist st.working_graph st.next_owner st.working_roots none false
                  st.context adds out
            | inl (w, went) ↦ ground arith
          ]
  ]

  canonicalize_valid-Ends :
      (owner : OwnerToken) (graph : ExpressionGraph) (roots : List NodeId)
      → canonicalize_valid e owner graph roots ≢ out_of_fuel
  unfolding canonicalize_valid
  canonicalize_valid-Ends owner graph roots h =
      elim (Outcome-cases (run e.worklist graph owner roots none true (new_context e))) [
        | inr (inl thrown) ↦ ground arith
        | inr (inr out) ↦ run-Ends e.worklist graph owner roots none true (new_context e) adds out
        | inl (w, went) ↦
            let st = imported e w (owner + 1) in
            elim (Outcome-cases (run_phases e st)) [
              | inr (inl thrown) ↦ ground arith
              | inr (inr out) ↦ run_phases-Ends st out
              | inl (t, ran) ↦ elim (Outcome-cases (compact e t)) [
                | inr (inl thrown) ↦ ground arith
                | inr (inr out) ↦ compact-Ends t out
                | inl (u, compacted) ↦ ground arith
              ]
            ]
      ]

  -- If the rules of an engine only add to the graph, no loop of a canonicalization is cut short by its
  -- fuel, for any graph, roots and limits: it returns or throws.
  pub canonicalize-Ends :
      (owner : OwnerToken) (graph : ExpressionGraph) (roots : List NodeId)
      → canonicalize e owner graph roots ≢ out_of_fuel
  unfolding canonicalize invalid_result
  canonicalize-Ends owner graph roots h = elim (Result-cases (check_input e graph)) [
    | inl (done, passed) ↦ canonicalize_valid-Ends owner graph roots (ground arith)
    | inr (errors, refused) ↦
        elim (Option-cases (expression_graph owner graph.catalogue graph.external_value_owner)) [
          | inl invalid ↦ ground arith
          | inr (output, made) ↦ ground arith
        ]
  ]
