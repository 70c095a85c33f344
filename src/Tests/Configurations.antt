-- ===== src/Tests/Configurations.antt =====
-- lib/canonicalizer/configuration.cpp with switches thrown.
use sivra.Prelude.{◌≡◌, refl, false, codes, List, [], ◌∷◌}
use sivra.Core.Result.{require, fail}
use sivra.Canonicalizer.Rule.{cleanup, above, below, is_known_phase}
use sivra.Canonicalizer.Configuration.{
  available_rules, default_limits, enable_phase, configuration, is_rule_enabled,
  validate_configuration,
}
use sivra.Canonicalizer.Configuration.Switches.{
  Switch, rule_on, rule_off, phase_on, phase_off, switch, switch_all, expected,
  switch-is_rule_enabled, switch_all-valid,
}

abbrev switches : List Switch
switches =
    phase_off (above 992)
    ∷ rule_off (codes "sivra.copy_elimination")
    ∷ rule_on []
    ∷ rule_on (codes "my.rule")
    ∷ phase_off cleanup
    ∷ []

rule_switched :
    is_rule_enabled (switch configuration (rule_on (codes "my.rule"))) (codes "my.rule")
    ≡ expected
        (rule_on (codes "my.rule"))
        (codes "my.rule")
        (is_rule_enabled configuration (codes "my.rule"))
rule_switched = switch-is_rule_enabled configuration (rule_on (codes "my.rule")) (codes "my.rule")

cast_refused :
    validate_configuration (enable_phase configuration (above 992))
    ≡ fail "canonicalizer.configuration.invalid_phase"
unfolding validate_configuration enable_phase is_known_phase configuration available_rules
    default_limits
cast_refused = refl

switch_all-valid_example :
    validate_configuration
      (switch_all configuration (phase_on (above 992) ∷ phase_on (below 0) ∷ switches))
    ≡ require false "canonicalizer.configuration.invalid_phase"
unfolding is_known_phase
switch_all-valid_example = switch_all-valid (phase_on (above 992) ∷ phase_on (below 0) ∷ switches)
