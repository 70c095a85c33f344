-- ===== src/Canonicalizer/Engine/Steps.antt =====
-- The loops of lib/canonicalizer/engine.cpp begin a phase iteration in each round.
use sivra.Prelude.{
  ℕ, suc, ◌-◌, ◌≤◌, ◌<◌, ◌≡◌, refl, ap, ◌∙◌, Bool, true, false, ◌&&◌, Bool-cases, ◌⊎◌, inl, inr,
  none, nat_eq, arith,
}
use sivra.Core.Result.{Result-cases}
use sivra.Canonicalizer.Mapping.{SourceMapping, compose}
use sivra.Canonicalizer.Scheduler.{FixedPointPolicy, once, until_stable}
use sivra.Canonicalizer.Termination.{
  CanonicalizationLimits, TerminationTracker, begin_phase_iteration,
}
use sivra.Canonicalizer.Trace.{Checkpoint}
use sivra.Canonicalizer.Worklist.Rounds.{is_complete}
use sivra.Canonicalizer.Worklist.Run.{RunContext, WorklistResult}
use sivra.Canonicalizer.Engine.{
  EngineState, note_run, compose_mapping, compose_if, roll_back, same_roots, interrupted, advanced,
  after_phase,
}

-- A phase iteration was within the limit, and is counted.
pub record Counted (t t' : TerminationTracker) : Type 0 where
  pub within : t.statistics.phase_iterations < t.limits.maximum_phase_iterations
  pub counted : t.statistics.phase_iterations < t'.statistics.phase_iterations

pub record Later (t t' : TerminationTracker) : Type 0 where
  pub limits : t'.limits ≡ t.limits
  pub phases : t.statistics.phase_iterations ≤ t'.statistics.phase_iterations

pub Counted-Later : {r s t : TerminationTracker} → Counted r s → Later s t → Counted r t
Counted-Later c l =
    let counted = c.counted in
    let phases = l.phases in record { within = c.within; counted = ground arith }

pub Later-Counted : {r s t : TerminationTracker} → Later r s → Counted s t → Counted r t
Later-Counted l c =
    let counted = c.counted in
    let within = c.within in
    let phases = l.phases in
    let limits = l.limits in record { within = ground arith; counted = ground arith }

pub Later-trans : {r s t : TerminationTracker} → Later r s → Later s t → Later r t
Later-trans a b =
    let x = a.phases in
    let y = b.phases in record { limits = b.limits ∙ a.limits; phases = ground arith }

-- The phase iterations that are left.
abbrev pub left : TerminationTracker → ℕ
left t = t.limits.maximum_phase_iterations - t.statistics.phase_iterations

pub left-Counted :
    (t t' : TerminationTracker) (fuel : ℕ)
    → Later t t'
    → Counted t t'
    → left t < suc fuel
    → left t' < fuel
left-Counted t t' fuel l c enough =
    let limit : t'.limits.maximum_phase_iterations ≡ t.limits.maximum_phase_iterations =
      ap (λ (k : CanonicalizationLimits). k.maximum_phase_iterations) l.limits in
    let within = c.within in let counted = c.counted in omega arith

left-Later : (t t' : TerminationTracker) → Later t t' → left t' ≤ left t
left-Later t t' l =
    let limit : t'.limits.maximum_phase_iterations ≡ t.limits.maximum_phase_iterations =
      ap (λ (k : CanonicalizationLimits). k.maximum_phase_iterations) l.limits in
    let phases = l.phases in omega arith

module _ {Digest : Type 0} where
  abbrev pub tracker : EngineState Digest → TerminationTracker
  tracker st = st.context.termination

  -- Something that changed the sequence began a phase iteration.
  pub record Step (st st' : EngineState Digest) : Type 0 where
    pub later : Later (tracker st) (tracker st')
    pub cause :
        st'.changed_sequence ≡ true
        → (st.changed_sequence ≡ true) ⊎ Counted (tracker st) (tracker st')

  pub Step-refl : (st : EngineState Digest) → Step st st
  Step-refl st = record {
    later = record { limits = refl; phases = ground arith };
    cause = λ h. inl h;
  }

  pub Step-trans : {q r s : EngineState Digest} → Step q r → Step r s → Step q s
  Step-trans a b = record {
    later = Later-trans a.later b.later;
    cause = λ h. elim (b.cause h) [
      | inr c ↦ inr (Later-Counted a.later c)
      | inl before ↦ elim (a.cause before) [
        | inl first ↦ inl first
        | inr c ↦ inr (Counted-Later c b.later)
      ]
    ];
  }

  compose_if-context :
      (b : Bool) (st : EngineState Digest) (next : SourceMapping)
      → (compose_if b st next).0.context ≡ st.context
  unfolding compose_mapping
  compose_if-context false st next = refl
  compose_if-context true st next = elim (Result-cases (compose st.mapping next).1) [
    | inl (done, passed) ↦ ground arith
    | inr (e, failed) ↦ ground arith
  ]

  interrupted-tracker :
      (saved : Checkpoint) (r : WorklistResult Digest) (b : EngineState Digest × Bool)
      → tracker (interrupted saved r b) ≡ tracker b.0
  unfolding interrupted
  interrupted-tracker saved r (st, true) = refl
  interrupted-tracker saved r (st, false) = refl

  advanced-tracker :
      (policy : FixedPointPolicy) (saved : Checkpoint) (r : WorklistResult Digest)
      (b : EngineState Digest × Bool)
      → tracker (advanced policy saved r b).0 ≡ tracker b.0
  unfolding advanced
  advanced-tracker policy saved r (st, false) = refl
  advanced-tracker once saved r (st, true) = refl
  advanced-tracker until_stable saved r (st, true) = refl

  -- Behind a phase, the tracker is the one that its run leaves.
  pub after_phase-tracker :
      (policy : FixedPointPolicy) (saved : Checkpoint) (st : EngineState Digest)
      (r : WorklistResult Digest)
      → tracker (after_phase policy saved st r).0 ≡ r.termination
  unfolding after_phase note_run
  after_phase-tracker policy saved st r =
      let noted = note_run st r in
      elim (Bool-cases (is_complete r.status)) [
        | inr broken ↦
            let b = compose_if (r.changed && same_roots st r) noted r.mapping in
            let it : after_phase policy saved st r ≡ (interrupted saved r b, false) =
              ground arith in
            ap (λ (k : EngineState Digest × Bool). tracker k.0) it
            ∙ interrupted-tracker saved r b
            ∙ ap (λ (c : RunContext Digest). c.termination)
                (compose_if-context (r.changed && same_roots st r) noted r.mapping)
        | inl done ↦ elim (Bool-cases r.changed) [
          | inr same ↦
              let it : after_phase policy saved st r ≡ (roll_back noted saved, false) =
                ground arith in
              ap (λ (k : EngineState Digest × Bool). tracker k.0) it
          | inl new ↦
              let b = compose_if (same_roots st r) noted r.mapping in
              let it : after_phase policy saved st r ≡ advanced policy saved r b = ground arith in
              ap (λ (k : EngineState Digest × Bool). tracker k.0) it
              ∙ advanced-tracker policy saved r b
              ∙ ap (λ (c : RunContext Digest). c.termination)
                  (compose_if-context (same_roots st r) noted r.mapping)
        ]
      ]

pub begin_phase_iteration-granted :
    (t t' : TerminationTracker) → begin_phase_iteration t ≡ (t', none) → Later t t' × Counted t t'
unfolding begin_phase_iteration
begin_phase_iteration-granted t t' h = (
  record { limits = ground arith; phases = ground arith },
  record { within = ground arith; counted = ground arith },
)

pub begin_phase_iteration-Later : (t : TerminationTracker) → Later t (begin_phase_iteration t).0
unfolding begin_phase_iteration
begin_phase_iteration-Later t = record { limits = ground arith; phases = ground arith }
