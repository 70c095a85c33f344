-- ===== src/Canonicalizer/Configuration/Switches.antt =====
-- Switching rules and phases in lib/canonicalizer/configuration.cpp.
use sivra.Prelude.{
  ◌≡◌, refl, ap, Bool, Bool-cases, true, false, ◌&&◌, ◌||◌, not, inl, inr, List, [], ◌∷◌, all,
  is_empty, Text, ◌==◌, Eq, nat_eq, list_eq, ==-cases, arith,
}
use sivra.Core.Result.{Result, ok, err, require}
use sivra.Canonicalizer.Rule.{PassPhase, phase_eq, is_known_phase}
use sivra.Canonicalizer.Scheduler.Named.{is_named, is_known_phase_lem}
use sivra.Canonicalizer.Configuration.{
  Configuration, set_contains, set_insert, set_erase, configuration, enable_rule, disable_rule,
  is_rule_enabled, enable_phase, disable_phase, validate_configuration, available_rules,
  default_limits,
}

-- The calls that change the sets; a call that fails leaves the configuration as it was.
pub data Switch : Type 0 where
  rule_on : Text → Switch
  rule_off : Text → Switch
  phase_on : PassPhase → Switch
  phase_off : PassPhase → Switch

abbrev pub kept : Configuration → Result Configuration → Configuration
kept c (ok c') = c'
kept c (err e) = c

abbrev pub switch : Configuration → Switch → Configuration
switch c (rule_on rule) = kept c (enable_rule c rule)
switch c (rule_off rule) = kept c (disable_rule c rule)
switch c (phase_on phase) = enable_phase c phase
switch c (phase_off phase) = disable_phase c phase

unfoldable pub switch_all : Configuration → List Switch → Configuration
switch_all c [] = c
switch_all c (s ∷ ss) = switch_all (switch c s) ss

-- Whether the rule is on behind a call, by what the call says.
abbrev pub expected : Switch → Text → Bool → Bool
expected (rule_on rule) q before = not (is_empty rule) && rule == q || before
expected (rule_off rule) q before = (is_empty rule || not (rule == q)) && before
expected _ q before = before

module _ {ℓ} {A : Type ℓ} ⦃e : Eq A⦄ where
  contains-insert :
      (s : List A) (a b : A) → set_contains (set_insert s a) b ≡ (a == b || set_contains s b)
  contains-insert s a b = elim (==-cases a b) [
    | inl (same, test) ↦ ground (arith, ap (set_contains s) same)
    | inr (differ, test) ↦ ground arith
  ]

  contains-erase :
      (s : List A) (a b : A) → set_contains (set_erase s a) b ≡ (not (a == b) && set_contains s b)
  contains-erase [] a b = ground arith
  contains-erase (x ∷ s) a b = elim (==-cases x a) [
    | inl (same, test) ↦ ground (arith, contains-erase s a b, ap (λ t. t == b) same)
    | inr (differ, test) ↦ elim (==-cases a b) [
      | inl (agree, tested) ↦ ground (arith, contains-erase s a b, ap (λ t. x == t) agree)
      | inr (apart, tested) ↦ ground (arith, contains-erase s a b)
    ]
  ]

-- After a call a rule is on exactly if the call turned it on, or it was on and the call did not turn it
-- off; a call with an empty id and the calls on phases change nothing of this.
pub switch-is_rule_enabled :
    (c : Configuration) (s : Switch) (q : Text)
    → is_rule_enabled (switch c s) q ≡ expected s q (is_rule_enabled c q)
unfolding enable_rule disable_rule enable_phase disable_phase is_rule_enabled
switch-is_rule_enabled c (rule_on rule) q = ground (arith, contains-insert c.enabled_rules rule q)
switch-is_rule_enabled c (rule_off rule) q = ground (arith, contains-erase c.enabled_rules rule q)
switch-is_rule_enabled c (phase_on phase) q = refl
switch-is_rule_enabled c (phase_off phase) q = refl

-- Whether a later call turns the phase off.
abbrev pub turned_off : PassPhase → List Switch → Bool
turned_off phase [] = false
turned_off phase (phase_off p ∷ ss) = phase == p || turned_off phase ss
turned_off phase (_ ∷ ss) = turned_off phase ss

-- No call turns on a phase without a name that no later call turns off.
abbrev pub phases_named : List Switch → Bool
phases_named [] = true
phases_named (phase_on p ∷ ss) = (is_named p || turned_off p ss) && phases_named ss
phases_named (_ ∷ ss) = phases_named ss

abbrev IsValid : Configuration → Type 0
IsValid c = all (λ rule. not (is_empty rule)) c.enabled_rules ≡ true

configuration-IsValid : IsValid configuration
unfolding configuration available_rules default_limits
configuration-IsValid = refl

module _ {ℓ} {A : Type ℓ} ⦃e : Eq A⦄ where
  erase-all : (p : A → Bool) (s : List A) (a : A) → all p s ≡ true → all p (set_erase s a) ≡ true
  erase-all p [] a h = refl
  erase-all p (x ∷ s) a h = ground (arith, erase-all p s a)

  erase-all-or :
      (p : A → Bool) (s : List A) (a : A) → all p (set_erase s a) ≡ all (λ x. x == a || p x) s
  erase-all-or p [] a = refl
  erase-all-or p (x ∷ s) a = ground (arith, erase-all-or p s a)

  contains-all :
      (p : A → Bool) (s : List A) (a : A) → set_contains s a ≡ true → all p s ≡ true → p a ≡ true
  contains-all p [] a c h = absurd (ground arith)
  contains-all p (x ∷ s) a c h = elim (==-cases x a) [
    | inl (same, test) ↦ ground (arith, ap p same)
    | inr (differ, test) ↦ contains-all p s a (ground arith) (ground arith)
  ]

  insert-all : (p : A → Bool) (s : List A) (a : A) → all p (set_insert s a) ≡ (p a && all p s)
  insert-all p s a = elim (Bool-cases (set_contains s a)) [
    | inl there ↦ elim (Bool-cases (all p s)) [
      | inl passed ↦ ground (arith, contains-all p s a there passed)
      | inr failed ↦ ground arith
    ]
    | inr absent ↦ ground arith
  ]

switch-IsValid : (c : Configuration) (s : Switch) → IsValid c → IsValid (switch c s)
unfolding enable_rule disable_rule enable_phase disable_phase
switch-IsValid c (rule_on rule) v = ground arith
switch-IsValid c (rule_off rule) v =
    ground (arith, erase-all (λ r. not (is_empty r)) c.enabled_rules rule)
switch-IsValid c (phase_on phase) v = v
switch-IsValid c (phase_off phase) v = v

switch_all-IsValid : (c : Configuration) (ss : List Switch) → IsValid c → IsValid (switch_all c ss)
unfolding switch_all
switch_all-IsValid c [] v = v
switch_all-IsValid c (s ∷ ss) v = switch_all-IsValid (switch c s) ss (switch-IsValid c s v)

-- The phase has a name, or is turned off by one of the calls.
abbrev passes : List Switch → PassPhase → Bool
passes ss p = is_named p || turned_off p ss

phases-or :
    (ss : List Switch) (q : PassPhase) (ps : List PassPhase)
    → all (λ p. p == q || passes ss p) ps ≡ all (passes (phase_off q ∷ ss)) ps
phases-or ss q [] = refl
phases-or ss q (p ∷ ps) = ground (arith, phases-or ss q ps)

phases-now : (ps : List PassPhase) → all is_known_phase ps ≡ all (passes []) ps
phases-now [] = refl
phases-now (p ∷ ps) = ground (arith, is_known_phase_lem p, phases-now ps)

-- All phases that are on behind the calls have names exactly if the calls leave no other on.
switch_all-phases :
    (c : Configuration) (ss : List Switch)
    → all is_known_phase (switch_all c ss).enabled_phases
      ≡ (all (passes ss) c.enabled_phases && phases_named ss)
unfolding switch_all enable_rule disable_rule enable_phase disable_phase
switch_all-phases c [] = ground (arith, phases-now c.enabled_phases)
switch_all-phases c (rule_on rule ∷ ss) =
    ground (arith, switch_all-phases (switch c (rule_on rule)) ss)
switch_all-phases c (rule_off rule ∷ ss) =
    ground (arith, switch_all-phases (switch c (rule_off rule)) ss)
switch_all-phases c (phase_on p ∷ ss) =
    ground (
      arith,
      switch_all-phases (switch c (phase_on p)) ss,
      insert-all (passes ss) c.enabled_phases p,
    )
switch_all-phases c (phase_off p ∷ ss) = ground (
  arith,
  switch_all-phases (switch c (phase_off p)) ss,
  erase-all-or (passes ss) c.enabled_phases p,
  phases-or ss p c.enabled_phases,
)

started : (ss : List Switch) → all (passes ss) configuration.enabled_phases ≡ true
unfolding configuration available_rules default_limits
started ss = refl

-- Behind any history of calls from the default configuration, the validation succeeds exactly if no
-- call turned on a phase without a name that no later call turned off, and else fails with the code
-- for a phase; the rules never make it fail.
pub switch_all-valid :
    (ss : List Switch)
    → validate_configuration (switch_all configuration ss)
      ≡ require (phases_named ss) "canonicalizer.configuration.invalid_phase"
unfolding validate_configuration
switch_all-valid ss = ground (
  arith,
  switch_all-phases configuration ss,
  started ss,
  switch_all-IsValid configuration ss configuration-IsValid,
)
