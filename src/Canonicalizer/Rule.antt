-- ===== src/Canonicalizer/Rule.antt =====
-- lib/canonicalizer/rule_catalogue.cpp: the rules of an engine, in the order of their application.
use sivra.Prelude.{
  ℕ, ◌+◌, ◌≡◌, ◌↔◌, Bool, true, ◌||◌, not, if◌then◌else◌, List, [], ◌∷◌, Option, has_value,
  is_empty, any, find_if, Text, text_lt, ◌==◌, Eq, nat_eq, list_eq, arith,
}
use sivra.Prelude.Int.{ℤ, pos, negsuc, leb_ℤ, int_beq, int_eq}
use sivra.Prelude.Sort.{stable_sort}
use sivra.Core.Result.{Result, ok, require, ◌>>◌}

-- `pass_phase`, in canonicalizer/phase.hpp: an `int`, of which the enumerators name seven values. A
-- cast gives the others, `above n` for 7 + n and `below n` for -1 - n.
pub data PassPhase : Type 0 where
  validation local_simplification shape_normalization algebraic_collection domain_normalization
        cleanup verification :
      PassPhase
  above below : ℕ → PassPhase

abbrev phase_value : PassPhase → ℤ
phase_value validation = pos 0
phase_value local_simplification = pos 1
phase_value shape_normalization = pos 2
phase_value algebraic_collection = pos 3
phase_value domain_normalization = pos 4
phase_value cleanup = pos 5
phase_value verification = pos 6
phase_value (above n) = pos (7 + n)
phase_value (below n) = negsuc n

abbrev pub phase_beq : PassPhase → PassPhase → Bool
phase_beq a b = int_beq (phase_value a) (phase_value b)

pub phase_beq_iff : (a b : PassPhase) → (phase_beq a b ≡ true) ↔ (a ≡ b)
phase_beq_iff a b = ground arith

instance abbrev pub phase_eq : Eq PassPhase
phase_eq = record { beq = phase_beq; beq_iff = phase_beq_iff }

abbrev pub phase_descriptors : List PassPhase
phase_descriptors =
    validation ∷ local_simplification ∷ shape_normalization ∷ algebraic_collection
    ∷ domain_normalization ∷ cleanup ∷ verification ∷ []

unfoldable pub is_known_phase : PassPhase → Bool
is_known_phase phase = any (λ d. d == phase) phase_descriptors

-- `rewrite_rule` with its metadata. The function is an `apply_rule_fn`, or null; the texts for people
-- are left out.
pub record RewriteRule (Apply : Type 0) : Type 0 where
  pub id : Text
  pub name : Text
  pub phase : PassPhase
  pub priority : ℤ
  pub apply : Option Apply

module _ {Apply : Type 0} where
  unfoldable pub rule_less : RewriteRule Apply → RewriteRule Apply → Bool
  rule_less lhs rhs =
      if not (lhs.phase == rhs.phase)
      then not (leb_ℤ (phase_value rhs.phase) (phase_value lhs.phase))
      else if not (lhs.priority == rhs.priority)
      then not (leb_ℤ rhs.priority lhs.priority)
      else text_lt lhs.id rhs.id

  -- The loop of `create`; `seen` holds the ids of the rules before.
  unfoldable pub check_rules : List Text → List (RewriteRule Apply) → Result (Unit {0})
  unfolding is_known_phase
  check_rules seen [] = ok tt
  check_rules seen (r ∷ rs) = do
    require (not (is_empty r.id || is_empty r.name || not (has_value r.apply)))
        "canonicalizer.rule_catalogue.invalid_rule"
    require (is_known_phase r.phase) "canonicalizer.rule_catalogue.invalid_phase"
    require (not (any (λ k. k == r.id) seen)) "canonicalizer.rule_catalogue.duplicate_rule"
    check_rules (r.id ∷ seen) rs

  -- The ids differ, so that the order is strict and the sort of the source has only this result.
  unfoldable pub create_rules : List (RewriteRule Apply) → Result (List (RewriteRule Apply))
  create_rules rs = do check_rules [] rs; ok (stable_sort rule_less rs)

  unfoldable pub find_rule : List (RewriteRule Apply) → Text → Option (RewriteRule Apply)
  find_rule rs id = find_if (λ (r : RewriteRule Apply). r.id == id) rs
