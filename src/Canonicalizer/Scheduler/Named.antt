-- ===== src/Canonicalizer/Scheduler/Named.antt =====
-- The phases that canonicalizer/phase.hpp names, against the test of lib/canonicalizer/scheduler.cpp.
use sivra.Prelude.{◌≡◌, refl, Bool, true, false, arith}
use sivra.Canonicalizer.Rule.{
  PassPhase, validation, local_simplification, shape_normalization, algebraic_collection,
  domain_normalization, cleanup, verification, above, below, is_known_phase,
}

-- The phase is one of the enumerators.
abbrev pub is_named : PassPhase → Bool
is_named (above n) = false
is_named (below n) = false
is_named _ = true

pub is_known_phase_lem : (phase : PassPhase) → is_known_phase phase ≡ is_named phase
unfolding is_known_phase
is_known_phase_lem validation = refl
is_known_phase_lem local_simplification = refl
is_known_phase_lem shape_normalization = refl
is_known_phase_lem algebraic_collection = refl
is_known_phase_lem domain_normalization = refl
is_known_phase_lem cleanup = refl
is_known_phase_lem verification = refl
is_known_phase_lem (above n) = ground arith
is_known_phase_lem (below n) = refl
