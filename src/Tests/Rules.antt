-- ===== src/Tests/Rules.antt =====
-- lib/canonicalizer/rule_catalogue.cpp, scheduler.cpp and trace.cpp with three rules.
use sivra.Prelude.{
  ℕ, ◌≡◌, refl, true, codes, List, [], ◌∷◌, none, some, has_value, Text, nat_eq, list_eq,
}
use sivra.Prelude.Int.{pos}
use sivra.Prelude.Texts.{text_lt}
use sivra.Prelude.Sort.{insert, stable_sort}
use sivra.Core.Result.{ok, fail}
use sivra.Canonicalizer.Rule.{
  PassPhase, local_simplification, cleanup, phase_eq, RewriteRule, rule_less, check_rules,
  create_rules, above, is_known_phase,
}
use sivra.Canonicalizer.Scheduler.{pass_scheduler, plan_for, validate_plans}
use sivra.Canonicalizer.Scheduler.Plans.{names, pass_scheduler-valid, plan_for-rule}
use sivra.Canonicalizer.Trace.{
  TraceCollector, Rewrite, record_event, record_events, mark, rollback, rollback-mark,
}

abbrev a_rule : Text → PassPhase → ℕ → RewriteRule ℕ
a_rule id phase priority = record {
  id = id;
  name = id;
  phase = phase;
  priority = pos priority;
  apply = some 0;
}

abbrev copies : RewriteRule ℕ
copies = a_rule (codes "b") local_simplification 50

abbrev identities : RewriteRule ℕ
identities = a_rule (codes "a") local_simplification 100

abbrev cleans : RewriteRule ℕ
cleans = a_rule (codes "c") cleanup 10

abbrev given : List (RewriteRule ℕ)
given = cleans ∷ identities ∷ copies ∷ []

abbrev created : List (RewriteRule ℕ)
created = copies ∷ identities ∷ cleans ∷ []

creates : create_rules given ≡ ok created
unfolding create_rules check_rules rule_less stable_sort insert text_lt
creates = refl

pass_scheduler-valid_example : validate_plans created (pass_scheduler created) ≡ ok tt
pass_scheduler-valid_example = pass_scheduler-valid given created creates

plan_for-rule_example :
    (has_value (plan_for (pass_scheduler created) local_simplification) ≡ true)
    × (names (plan_for (pass_scheduler created) local_simplification) (codes "a") ≡ true)
plan_for-rule_example = plan_for-rule given created 1 identities local_simplification creates refl

-- A phase that is a cast of 999.
unnamed_phase :
    create_rules (a_rule (codes "b") (above 992) 0 ∷ [])
    ≡ fail "canonicalizer.rule_catalogue.invalid_phase"
unfolding create_rules check_rules is_known_phase
unnamed_phase = refl

abbrev event : Rewrite ℕ
event = record { rule = codes "a"; phase = cleanup; old_root = none; new_root = some 7 }

abbrev collector : TraceCollector ℕ
collector = record_event (record { enabled = true; next_sequence = 0; events = [] }) event

rollback-mark_example :
    rollback (record_events collector (event ∷ event ∷ [])) (mark collector) ≡ collector
rollback-mark_example = rollback-mark collector (event ∷ event ∷ [])
