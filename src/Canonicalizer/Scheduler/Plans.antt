-- ===== src/Canonicalizer/Scheduler/Plans.antt =====
-- The plans of lib/canonicalizer/scheduler.cpp against the catalogue that they are made from.
use sivra.Prelude.{
  ℕ, ◌≡◌, refl, ap, Bool, true, false, Bool-cases, if◌then◌else◌, has_value, Option, none, inl, inr,
  List, [], ◌∷◌, map, some, any, get_elem?, All, All-zip, All-get, Text, ◌==◌, nat_eq, list_eq,
  ==-refl, ==-cases, arith,
}
use sivra.Core.Result.{ok}
use sivra.Canonicalizer.Rule.{
  PassPhase, phase_eq, phase_descriptors, is_known_phase, RewriteRule, create_rules, find_rule,
}
use sivra.Canonicalizer.Scheduler.{
  PassPlan, phase_rules, make_plan, pass_scheduler, plan_for, validate_rules, validate_plans,
}
use sivra.Canonicalizer.Scheduler.Named.{is_named, is_known_phase_lem}
use sivra.Canonicalizer.Scheduler.Distinct.{
  Other, Distinct, create_rules-Distinct, create_rules-known, other-sym,
}

-- Whether there is a plan and it names the rule.
abbrev pub names : Option PassPlan → Text → Bool
names none id = false
names (some p) id = any (λ j. j == id) p.rules

module _ {Apply : Type 0} where
  -- The id of the rule finds it in the catalogue.
  abbrev Found : List (RewriteRule Apply) → RewriteRule Apply → Type 0
  Found rs r = find_rule rs r.id ≡ some r

  Distinct-Found : (rs : List (RewriteRule Apply)) → Distinct rs → All (Found rs) rs
  unfolding find_rule
  Distinct-Found [] d = tt
  Distinct-Found (q ∷ qs) d = (
    rw (==-refl q.id) refl,
    All-zip (Other q.id) (Found qs) (Found (q ∷ qs)) (λ r o f. rw (other-sym r.id q.id o) f) qs d.0
        (Distinct-Found qs d.1),
  )

  phase_rules-valid :
      (all : List (RewriteRule Apply)) (phase : PassPhase) (rs : List (RewriteRule Apply))
      → All (Found all) rs
      → validate_rules all phase (phase_rules phase rs) ≡ ok tt
  unfolding validate_rules phase_rules
  phase_rules-valid all phase [] f = refl
  phase_rules-valid all phase (r ∷ rs) f = elim (Bool-cases (r.phase == phase)) [
    | inl here ↦ rw (here, f.0, here) (phase_rules-valid all phase rs f.1)
    | inr elsewhere ↦ rw elsewhere (phase_rules-valid all phase rs f.1)
  ]

  plans-valid :
      (rs : List (RewriteRule Apply)) (phases : List PassPhase)
      → All (Found rs) rs
      → validate_plans rs (map (make_plan rs) phases) ≡ ok tt
  unfolding validate_plans make_plan
  plans-valid rs [] f = refl
  plans-valid rs (p ∷ ps) f = rw (phase_rules-valid rs p rs f) (plans-valid rs ps f)

  -- The scheduler that is made from a created catalogue passes its own validation against that
  -- catalogue.
  pub pass_scheduler-valid :
      (rs created : List (RewriteRule Apply))
      → create_rules rs ≡ ok created
      → validate_plans created (pass_scheduler created) ≡ ok tt
  unfolding pass_scheduler
  pass_scheduler-valid rs created h =
      plans-valid created phase_descriptors
        (Distinct-Found created (create_rules-Distinct rs created h))

  absent :
      (phase : PassPhase) (id : Text) (rs : List (RewriteRule Apply))
      → All (Other id) rs
      → any (λ j. j == id) (phase_rules phase rs) ≡ false
  unfolding phase_rules
  absent phase id [] o = refl
  absent phase id (r ∷ rs) o = ground (arith, o.0, absent phase id rs o.1)

  -- The plan of the phase names the rule exactly if the phase is the rule's own.
  abbrev Planned : PassPhase → List (RewriteRule Apply) → RewriteRule Apply → Type 0
  Planned phase rs r = any (λ j. j == r.id) (phase_rules phase rs) ≡ (r.phase == phase)

  Distinct-Planned :
      (phase : PassPhase) (rs : List (RewriteRule Apply)) → Distinct rs → All (Planned phase rs) rs
  unfolding phase_rules
  Distinct-Planned phase [] d = tt
  Distinct-Planned phase (q ∷ qs) d = (
    ground (arith, ==-refl q.id, absent phase q.id qs d.0),
    All-zip (Other q.id) (Planned phase qs) (Planned phase (q ∷ qs))
        (λ r o f. ground (arith, other-sym r.id q.id o, f)) qs d.0 (Distinct-Planned phase qs d.1),
  )

  find-plan :
      (rs : List (RewriteRule Apply)) (phase : PassPhase) (ps : List PassPhase)
      → plan_for (map (make_plan rs) ps) phase
        ≡ (if any (λ p. p == phase) ps then some (make_plan rs phase) else none)
  unfolding plan_for make_plan
  find-plan rs phase [] = refl
  find-plan rs phase (p ∷ ps) = elim (==-cases p phase) [
    | inl (same, test) ↦ rw test (ap (λ q. some (make_plan rs q)) same)
    | inr (differ, test) ↦ rw test (find-plan rs phase ps)
  ]

  plan_for-phase :
      (rs : List (RewriteRule Apply)) (phase : PassPhase)
      → plan_for (pass_scheduler rs) phase
        ≡ (if is_known_phase phase then some (make_plan rs phase) else none)
  unfolding pass_scheduler is_known_phase
  plan_for-phase rs phase = find-plan rs phase phase_descriptors

  names-phase :
      (created : List (RewriteRule Apply)) (r : RewriteRule Apply) (phase : PassPhase)
      → is_known_phase r.phase ≡ true
      → Planned phase created r
      → names (if is_known_phase phase then some (make_plan created phase) else none) r.id
        ≡ (r.phase == phase)
  unfolding make_plan
  names-phase created r phase known planned = elim (==-cases r.phase phase) [
    | inl (same, test) ↦ ground (arith, ap is_known_phase same)
    | inr (differ, test) ↦ ground arith
  ]

  -- A phase has a plan exactly if it is one of the enumerators, and a rule of a created catalogue stands
  -- in the plan of its own phase, which there is, and in no other.
  pub plan_for-rule :
      (rs created : List (RewriteRule Apply)) (i : ℕ) (r : RewriteRule Apply) (phase : PassPhase)
      → create_rules rs ≡ ok created
      → get_elem? created i ≡ some r
      → (has_value (plan_for (pass_scheduler created) phase) ≡ is_named phase)
        × (names (plan_for (pass_scheduler created) phase) r.id ≡ (r.phase == phase))
  plan_for-rule rs created i r phase h e = rw (plan_for-phase created phase) (
    ground (arith, is_known_phase_lem phase),
    names-phase created r phase
        (All-get (λ (q : RewriteRule Apply). is_known_phase q.phase ≡ true) created i {x = r}
          (create_rules-known rs created h) e)
        (All-get (Planned phase created) created i {x = r}
          (Distinct-Planned phase created (create_rules-Distinct rs created h)) e),
  )
