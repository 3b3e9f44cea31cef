-- ===== src/Fuzz/Context.antt =====
-- `context_outcome` of fuzz/fuzz_targets/support.rs and the target context_envelope.rs. An outcome that
-- is `none` is a panic. The random source is a state that is passed on.
use gmcrypto_envelope_lite.Base.{
  ◌+◌, Option, some, none, ok, err, [], ◌∷◌, ◌++◌, min, length, take, replicate, is_empty, beq,
  if◌then◌else◌,
}
use gmcrypto_envelope_lite.Bytes.{Bytes, ◌and_then◌}
use gmcrypto_envelope_lite.Error.{Fallible}
use gmcrypto_envelope_lite.Auth.Types.{AuthenticationContext}
use gmcrypto_envelope_lite.Auth.Context.{context_bound, legacy}
use gmcrypto_envelope_lite.Core.{Core}
use gmcrypto_envelope_lite.Message.Types.{SecureEnvelope}
use gmcrypto_envelope_lite.Client.Calls
use gmcrypto_envelope_lite.Client.Calls.{SecureClient}
use gmcrypto_envelope_lite.Fuzz.Scenario.{
  ContextScenario, round_trip, mismatched_context, legacy_marker, oversize_plaintext,
  ScenarioOutcome, accepted, rejected, context_scenario, context_expected,
}
use gmcrypto_envelope_lite.Fuzz.Framing.{fields, at}
use gmcrypto_envelope_lite.Fuzz.Outcomes.{expect}
use gmcrypto_envelope_lite.Fuzz.Clients.{
  KeyTools, context_client, default_protocol_context, fuzz_max_plaintext_bytes,
}
use gmcrypto_envelope_lite.Fuzz.Targets.{same_outcome}

-- The plaintext of the scenario, at most 64 bytes of the field, or 65 bytes.
abbrev pub plaintext_of : ContextScenario → Bytes → Bytes
plaintext_of oversize_plaintext raw = replicate (fuzz_max_plaintext_bytes + 1) b'x'
plaintext_of _ raw = take (min (length raw) fuzz_max_plaintext_bytes) raw

abbrev pub sealing_bytes : Bytes → Bytes
sealing_bytes raw = if is_empty raw then default_protocol_context else raw

-- The context that the scenario opens under.
unfoldable pub opening_context :
    ContextScenario → Bytes → AuthenticationContext → Option AuthenticationContext
opening_context legacy_marker bytes sealing = some legacy
opening_context mismatched_context bytes sealing = expect (context_bound (bytes ++ b'!' ∷ []))
opening_context round_trip bytes sealing = some sealing
opening_context oversize_plaintext bytes sealing = some sealing
opening_context ContextScenario.generic bytes sealing = some sealing

-- The match on what `open` returned, with its assertion.
abbrev pub opened_outcome : Fallible Bytes → Bytes → Option ScenarioOutcome
opened_outcome (ok opened) plaintext = if beq opened plaintext then some accepted else none
opened_outcome (err e) plaintext = some rejected

module _ (core : Core) (tools : KeyTools core) where
  abbrev pub after_seal :
      ContextScenario
      → Bytes
      → Bytes
      → AuthenticationContext
      → SecureClient core
      → Fallible SecureEnvelope
      → Option ScenarioOutcome
  after_seal scenario plaintext bytes sealing client (err e) = some rejected
  after_seal scenario plaintext bytes sealing client (ok envelope) =
      opening_context scenario bytes sealing and_then λ opening.
      opened_outcome (Calls.open_sealed core client envelope opening 0).0 plaintext

  -- What is done with the client.
  abbrev pub run_client :
      ContextScenario
      → Bytes
      → Bytes
      → AuthenticationContext
      → Option (SecureClient core)
      → core.Rng
      → Option ScenarioOutcome × core.Rng
  run_client scenario plaintext bytes sealing none r = (none, r)
  run_client scenario plaintext bytes sealing (some client) r =
      let (sealed, r') = Calls.seal core client plaintext sealing r in
      (after_seal scenario plaintext bytes sealing client sealed, r')

  abbrev pub run_context :
      ContextScenario
      → Bytes
      → Bytes
      → Fallible AuthenticationContext
      → core.Rng
      → Option ScenarioOutcome × core.Rng
  run_context scenario plaintext bytes (err e) r = (some rejected, r)
  run_context scenario plaintext bytes (ok sealing) r =
      run_client scenario plaintext bytes sealing (context_client core tools) r

  unfoldable pub context_outcome : Bytes → core.Rng → Option ScenarioOutcome × core.Rng
  context_outcome input r =
      let scenario = context_scenario input in
      let parts = fields input in
      let bytes = sealing_bytes (at parts 1) in
      run_context scenario (plaintext_of scenario (at parts 0)) bytes (context_bound bytes) r

  -- The assertion of context_envelope.rs, where the scenario declares an outcome.
  abbrev pub assert_declared : Option ScenarioOutcome → Option ScenarioOutcome → Option (Unit {0})
  assert_declared none declared = none
  assert_declared (some outcome) none = some tt
  assert_declared (some outcome) (some declared) =
      if same_outcome outcome declared then some tt else none

  -- The target of context_envelope.rs.
  unfoldable pub context_target : Bytes → core.Rng → Option (Unit {0})
  context_target input r =
      assert_declared (context_outcome input r).0 (context_expected (context_scenario input))
