-- ===== src/Fuzz/Targets.antt =====
-- The fuzz targets transport_parts.rs and typed_headers.rs of fuzz/fuzz_targets as functions of their
-- input: `none` is a panic, of `expect` or of an assertion.
use gmcrypto_envelope_lite.Base.{
  ◌≡◌, refl, Bool, true, false, Option, some, none, if◌then◌else◌, Result, ok, err,
}
use gmcrypto_envelope_lite.Bytes.{Bytes, ◌and_then◌}
use gmcrypto_envelope_lite.Fuzz.Scenario.{
  TransportScenario, header_cipher_generic, TypedScenario, ScenarioOutcome, accepted, rejected,
  transport_scenario, transport_expected, typed_scenario, typed_expected,
}
use gmcrypto_envelope_lite.Fuzz.Schemas.{schema, header_cipher_schema}
use gmcrypto_envelope_lite.Fuzz.Built.{schema-ok, header_cipher_schema-ok}
use gmcrypto_envelope_lite.Fuzz.Outcomes.{parsed_by, transport_outcome, typed_outcome}
use gmcrypto_envelope_lite.Fuzz.Asserted.{transport_outcome-eq-expected, typed_outcome-eq-expected}
use gmcrypto_envelope_lite.Fuzz.Parts.{
  generic_transport_parts, generic_header_cipher_parts, generic_typed_parts,
}

abbrev pub same_outcome : ScenarioOutcome → ScenarioOutcome → Bool
same_outcome accepted accepted = true
same_outcome rejected rejected = true
same_outcome _ _ = false

abbrev same_answer : Option ScenarioOutcome → ScenarioOutcome → Bool
same_answer none expected = false
same_answer (some o) expected = same_outcome o expected

-- `assert_eq!(outcome, Some(expected))`, of a call that may have panicked.
abbrev assert_outcome : Option (Option ScenarioOutcome) → ScenarioOutcome → Option (Unit {0})
assert_outcome none expected = none
assert_outcome (some answer) expected = if same_answer answer expected then some tt else none

-- The call of a scenario without a declared outcome, whose result is dropped.
abbrev generic_call : Bool → Bytes → Option (Unit {0})
generic_call true input =
    parsed_by header_cipher_schema (generic_header_cipher_parts input) and_then λ _. some tt
generic_call false input = parsed_by schema (generic_transport_parts input) and_then λ _. some tt

-- `scenario == TransportScenario::HeaderCipherGeneric`
abbrev is_header_cipher_generic : TransportScenario → Bool
is_header_cipher_generic header_cipher_generic = true
is_header_cipher_generic _ = false

abbrev transport_case : Option ScenarioOutcome → TransportScenario → Bytes → Option (Unit {0})
transport_case (some expected) scenario input = assert_outcome (transport_outcome scenario) expected
transport_case none scenario input = generic_call (is_header_cipher_generic scenario) input

-- The target of transport_parts.rs.
unfoldable pub transport_target : Bytes → Option (Unit {0})
transport_target input =
    let scenario = transport_scenario input in
    transport_case (transport_expected scenario) scenario input

-- The call whose result is dropped cannot panic.
abbrev dropped : {E A : Type 0} → Result E A → Option (Unit {0})
dropped (ok a) = some tt
dropped (err e) = some tt

abbrev typed_case : Option ScenarioOutcome → TypedScenario → Bytes → Option (Unit {0})
typed_case (some expected) scenario input = assert_outcome (some (typed_outcome scenario)) expected
typed_case none scenario input = dropped (generic_typed_parts input)

-- The target of typed_headers.rs.
unfoldable pub typed_target : Bytes → Option (Unit {0})
typed_target input =
    let scenario = typed_scenario input in typed_case (typed_expected scenario) scenario input

same_outcome_refl : (o : ScenarioOutcome) → same_outcome o o ≡ true
same_outcome_refl accepted = refl
same_outcome_refl rejected = refl

assert_outcome-expected : (o : ScenarioOutcome) → assert_outcome (some (some o)) o ≡ some tt
assert_outcome-expected o = rw (same_outcome_refl o) refl

generic_call-some : (b : Bool) (input : Bytes) → generic_call b input ≡ some tt
generic_call-some true input = rw header_cipher_schema-ok refl
generic_call-some false input = rw schema-ok refl

dropped-some : {E A : Type 0} (r : Result E A) → dropped r ≡ some tt
dropped-some (ok a) = refl
dropped-some (err e) = refl

transport_case-some :
    (expected : Option ScenarioOutcome) (scenario : TransportScenario) (input : Bytes)
    → transport_outcome scenario ≡ some expected
    → transport_case expected scenario input ≡ some tt
transport_case-some none scenario input h =
    generic_call-some (is_header_cipher_generic scenario) input
transport_case-some (some o) scenario input h = rw h (assert_outcome-expected o)

typed_case-some :
    (expected : Option ScenarioOutcome) (scenario : TypedScenario) (input : Bytes)
    → typed_outcome scenario ≡ expected
    → typed_case expected scenario input ≡ some tt
typed_case-some none scenario input h = dropped-some (generic_typed_parts input)
typed_case-some (some o) scenario input h = rw h (assert_outcome-expected o)

-- No `expect` and no assertion of the target of transport_parts.rs fails, on any input: each scenario
-- that declares an outcome reaches it, and the other inputs parse or are refused.
pub transport_target-passes : (input : Bytes) → transport_target input ≡ some tt
unfolding transport_target
transport_target-passes input =
    let scenario = transport_scenario input in
    transport_case-some (transport_expected scenario) scenario input
      (transport_outcome-eq-expected scenario)

-- No assertion of the target of typed_headers.rs fails, on any input.
pub typed_target-passes : (input : Bytes) → typed_target input ≡ some tt
unfolding typed_target
typed_target-passes input =
    let scenario = typed_scenario input in
    typed_case-some (typed_expected scenario) scenario input (typed_outcome-eq-expected scenario)
