-- ===== src/Core/Result.antt =====
-- core/result.hpp and core/diagnostic.hpp: `result_t`, diagnostics, the status of a stage.
-- A diagnostic keeps its code and its severity. Messages and notes are for people: the code builds
-- them and reads none of them back.
use sivra.Prelude.{
  String, ◌≡◌, refl, Bool, true, false, List, [], ◌∷◌, Option, has_value, ◌⊎◌, inl, inr,
}

pub data DiagnosticSeverity : Type 0 where
  note : DiagnosticSeverity
  warning : DiagnosticSeverity
  error : DiagnosticSeverity
  fatal : DiagnosticSeverity

pub record Diagnostic : Type 0 where
  pub code : String
  pub severity : DiagnosticSeverity

abbrev pub DiagnosticBundle : Type 0
DiagnosticBundle = List Diagnostic

-- `result_t`: a value, or the diagnostics of the failure.
pub data Result {ℓ} (A : Type ℓ) : Type ℓ where
  ok : A → Result A
  err : DiagnosticBundle → Result A

abbrev pub make_error : String → DiagnosticBundle
make_error code = record { code = code; severity = error } ∷ []

abbrev pub fail {ℓ} : {A : Type ℓ} → String → Result A
fail code = err (make_error code)

-- `if (!r.has_value()) return std::unexpected(std::move(r.error()));` and then the rest.
infixl 5 ◌>>=◌
abbrev pub ◌>>=◌ {κ ℓ} : {T : Type κ} {U : Type ℓ} → Result T → (T → Result U) → Result U
err diagnostics >>= rest = err diagnostics
ok value >>= rest = rest value

-- The same for a result without a value.
infixl 5 ◌>>◌
abbrev pub ◌>>◌ {κ} : {U : Type κ} → Result (Unit {0}) → Result U → Result U
err diagnostics >> rest = err diagnostics
ok done >> rest = rest

-- `if (!test) return core::fail(code);`
abbrev pub require : Bool → String → Result (Unit {0})
require true code = ok tt
require false code = fail code

-- An optional that a caller has to have.
abbrev pub or_fail {ℓ} : {A : Type ℓ} → Option A → String → Result A
or_fail Option.none code = fail code
or_fail (Option.some a) code = ok a

pub Result-cases {ℓ} :
    {A : Type ℓ} (r : Result A) → ((a : A) × (r ≡ ok a)) ⊎ ((e : DiagnosticBundle) × (r ≡ err e))
Result-cases (ok a) = inl (a, refl)
Result-cases (err e) = inr (e, refl)

-- The parts of a chain that succeeded.
pub >>=-eq-ok {κ ℓ} :
    {T : Type κ} {U : Type ℓ} (step : Result T) (rest : T → Result U) {last : U}
    → (step >>= rest) ≡ ok last
    → (value : T) × (step ≡ ok value) × (rest value ≡ ok last)
>>=-eq-ok (err diagnostics) rest h = cc
>>=-eq-ok (ok value) rest h = (value, refl, h)

pub data AnalysisStatus : Type 0 where
  complete partial unsupported invalid_input resource_exhausted internal_failure : AnalysisStatus

pub record StageResult (T : Type 0) : Type 0 where
  pub artifact : Option T
  pub status : AnalysisStatus
  pub diagnostics : DiagnosticBundle

abbrev pub permits_artifact : AnalysisStatus → Bool
permits_artifact complete = true
permits_artifact partial = true
permits_artifact _ = false

abbrev same_bool : Bool → Bool → Bool
same_bool true b = b
same_bool false true = false
same_bool false false = true

unfoldable pub has_artifact : {T : Type 0} → StageResult T → Bool
has_artifact r = has_value r.artifact

unfoldable pub is_consistent : {T : Type 0} → StageResult T → Bool
is_consistent r = same_bool (has_value r.artifact) (permits_artifact r.status)
