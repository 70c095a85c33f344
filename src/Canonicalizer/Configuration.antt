-- ===== src/Canonicalizer/Configuration.antt =====
-- lib/canonicalizer/configuration.cpp, and the rules that lib/canonicalizer/rule.cpp lists.
pub mod Switches
use sivra.Prelude.{
  ℕ, ◌≡◌, refl, ◌∙◌, Bool, true, false, ◌&&◌, ◌||◌, not, if◌then◌else◌, Bool-cases, inl, inr, List,
  [], ◌∷◌, Option, any, all, is_empty, bit_and, String, codes, Text, ◌==◌, Eq, nat_eq, list_eq,
  ==-refl, ==-cases, arith,
}
use sivra.Prelude.Words.{not_u32}
use sivra.Core.Result.{Result, ok, err, require, ◌>>=◌, ◌>>◌}
use sivra.Ir.Trait.{OperationTrait, associative, commutative, idempotent, ◌|||◌}
use sivra.Canonicalizer.Rule.{PassPhase, phase_eq, phase_descriptors, is_known_phase}
use sivra.Canonicalizer.Termination.{CanonicalizationLimits}

-- `rule_metadata`, of which the name and the description are text for people.
pub record RuleMetadata : Type 0 where
  pub id : Text
  pub enabled_by_default : Bool

abbrev available : String → Bool → RuleMetadata
available key enabled = record { id = codes key; enabled_by_default = enabled }

-- include/sivra/canonicalizer/rule.def.
unfoldable pub available_rules : List RuleMetadata
available_rules =
    available "sivra.copy_elimination" true
    ∷ available "sivra.associative_flattening" true
    ∷ available "sivra.commutative_ordering" true
    ∷ available "sivra.idempotent_deduplication" true
    ∷ available "sivra.identity_elimination" true
    ∷ available "sivra.annihilator_collapse" true
    ∷ available "sivra.same_operand_simplification" true
    ∷ available "sivra.constant_folding" true
    ∷ available "sivra.mixed_constant_aggregation" true
    ∷ available "sivra.subtraction_normalization" true
    ∷ available "sivra.coefficient_collection" true
    ∷ available "sivra.division_reciprocal_simplification" true
    ∷ available "sivra.bitwise_simplification" true
    ∷ available "sivra.square_simplification" true
    ∷ []

unfoldable pub is_known_rule : Text → Bool
is_known_rule rule = any (λ (m : RuleMetadata). m.id == rule) available_rules

-- `std::set`, without its order, which nothing here sees.
module _ {ℓ} {A : Type ℓ} ⦃e : Eq A⦄ where
  abbrev pub set_contains : List A → A → Bool
  set_contains s a = any (λ x. x == a) s

  abbrev pub set_insert : List A → A → List A
  set_insert s a = if set_contains s a then s else a ∷ s

  abbrev pub set_erase : List A → A → List A
  set_erase [] a = []
  set_erase (x ∷ xs) a = let rest = set_erase xs a in if x == a then rest else x ∷ rest

pub record Configuration : Type 0 where
  pub enabled_rules : List Text
  pub enabled_phases : List PassPhase
  pub enabled_traits : OperationTrait
  pub limits : CanonicalizationLimits
  pub collect_trace : Bool

abbrev default_rules : List RuleMetadata → List Text
default_rules [] = []
default_rules (m ∷ ms) =
    let rest = default_rules ms in if m.enabled_by_default then set_insert rest m.id else rest

-- The limits of `canonicalization_limits` as declared.
unfoldable pub default_limits : CanonicalizationLimits
default_limits = record {
  maximum_imported_nodes = 1_000_000;
  maximum_output_nodes = 1_000_000;
  maximum_node_growth = 1_000_000;
  maximum_worklist_steps = 1_000_000;
  maximum_rewrites = 100_000;
  maximum_rewrites_per_node = 1_000;
  maximum_phase_iterations = 100;
}

unfoldable pub configuration : Configuration
unfolding available_rules default_limits
configuration = record {
  enabled_rules = default_rules available_rules;
  enabled_phases = phase_descriptors;
  enabled_traits = associative ||| commutative ||| idempotent;
  limits = default_limits;
  collect_trace = false;
}

unfoldable pub enable_rule : Configuration → Text → Result Configuration
enable_rule c rule = do
  require (not (is_empty rule)) "canonicalizer.configuration.invalid_rule"
  ok (record c { enabled_rules = set_insert c.enabled_rules rule })

unfoldable pub disable_rule : Configuration → Text → Result Configuration
disable_rule c rule = do
  require (not (is_empty rule)) "canonicalizer.configuration.invalid_rule"
  ok (record c { enabled_rules = set_erase c.enabled_rules rule })

unfoldable pub is_rule_enabled : Configuration → Text → Bool
is_rule_enabled c rule = set_contains c.enabled_rules rule

unfoldable pub enable_phase : Configuration → PassPhase → Configuration
enable_phase c phase = record c { enabled_phases = set_insert c.enabled_phases phase }

unfoldable pub disable_phase : Configuration → PassPhase → Configuration
disable_phase c phase = record c { enabled_phases = set_erase c.enabled_phases phase }

unfoldable pub is_phase_enabled : Configuration → PassPhase → Bool
is_phase_enabled c phase = set_contains c.enabled_phases phase

unfoldable pub enable_trait : Configuration → OperationTrait → Configuration
enable_trait c t = record c { enabled_traits = c.enabled_traits ||| t }

unfoldable pub disable_trait : Configuration → OperationTrait → Configuration
disable_trait c t = record c { enabled_traits = bit_and c.enabled_traits (not_u32 t) }

unfoldable pub is_trait_enabled : Configuration → OperationTrait → Bool
is_trait_enabled c t = bit_and c.enabled_traits t == t

-- The two loops of `validate`.
unfoldable pub validate_configuration : Configuration → Result (Unit {0})
unfolding is_known_phase
validate_configuration c = do
  require (all is_known_phase c.enabled_phases) "canonicalizer.configuration.invalid_phase"
  require (all (λ rule. not (is_empty rule)) c.enabled_rules)
      "canonicalizer.configuration.invalid_rule"
