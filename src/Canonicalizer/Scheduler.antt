-- ===== src/Canonicalizer/Scheduler.antt =====
-- lib/canonicalizer/scheduler.cpp: a plan for each phase, with the rules of the phase in order.
pub mod Named
pub mod Distinct
pub mod Plans
use sivra.Prelude.{
  ◌≡◌, Bool, true, false, ◌||◌, if◌then◌else◌, List, [], ◌∷◌, map, Option, none, some, find_if,
  Text, ◌==◌, nat_eq, list_eq,
}
use sivra.Core.Result.{Result, ok, fail, require, ◌>>=◌, ◌>>◌}
use sivra.Canonicalizer.Rule.{
  PassPhase, validation, verification, phase_eq, phase_descriptors, RewriteRule, find_rule,
}

pub data FixedPointPolicy : Type 0 where
  once until_stable : FixedPointPolicy

pub record PassPlan : Type 0 where
  pub phase : PassPhase
  pub policy : FixedPointPolicy
  pub rules : List Text

unfoldable pub plan_for : List PassPlan → PassPhase → Option PassPlan
plan_for plans phase = find_if (λ (p : PassPlan). p.phase == phase) plans

module _ {Apply : Type 0} where
  -- The inner loop of the constructor.
  unfoldable pub phase_rules : PassPhase → List (RewriteRule Apply) → List Text
  phase_rules phase [] = []
  phase_rules phase (r ∷ rs) =
      let rest = phase_rules phase rs in if r.phase == phase then r.id ∷ rest else rest

  unfoldable pub make_plan : List (RewriteRule Apply) → PassPhase → PassPlan
  make_plan rs phase = record {
    phase = phase;
    policy = if phase == validation || phase == verification then once else until_stable;
    rules = phase_rules phase rs;
  }

  unfoldable pub pass_scheduler : List (RewriteRule Apply) → List PassPlan
  pass_scheduler rs = map (make_plan rs) phase_descriptors

  abbrev is_planned : Option (RewriteRule Apply) → PassPhase → Bool
  is_planned none phase = false
  is_planned (some r) phase = r.phase == phase

  -- The loops of `validate`.
  unfoldable pub validate_rules :
      List (RewriteRule Apply) → PassPhase → List Text → Result (Unit {0})
  validate_rules rs phase [] = ok tt
  validate_rules rs phase (id ∷ ids) = do
    require (is_planned (find_rule rs id) phase) "canonicalizer.scheduler.invalid_plan"
    validate_rules rs phase ids

  unfoldable pub validate_plans : List (RewriteRule Apply) → List PassPlan → Result (Unit {0})
  validate_plans rs [] = ok tt
  validate_plans rs (p ∷ ps) = do validate_rules rs p.phase p.rules; validate_plans rs ps
