-- ===== src/Fuzz/Scenario.antt =====
-- The scenarios of fuzz/fuzz_targets/support.rs, their choice by the first byte, and the outcomes that
-- they declare.
use gmcrypto_envelope_lite.Base.{◌==◌, Option, some, none, [], ◌∷◌, if◌then◌else◌}
use gmcrypto_envelope_lite.Bytes.{Bytes}

pub data TransportScenario : Type 0 where
  success duplicate unknown missing : TransportScenario
  header_cipher_success header_cipher_missing header_cipher_empty : TransportScenario
  header_cipher_duplicate header_cipher_generic generic : TransportScenario

pub data TypedScenario : Type 0 where
  valid duplicate generic : TypedScenario

pub data ContextScenario : Type 0 where
  round_trip mismatched_context legacy_marker oversize_plaintext generic : ContextScenario

pub data ScenarioOutcome : Type 0 where
  accepted rejected : ScenarioOutcome

-- `TransportScenario::expected_outcome`
unfoldable pub transport_expected : TransportScenario → Option ScenarioOutcome
transport_expected success = some accepted
transport_expected unknown = some accepted
transport_expected header_cipher_success = some accepted
transport_expected TransportScenario.duplicate = some rejected
transport_expected missing = some rejected
transport_expected header_cipher_missing = some rejected
transport_expected header_cipher_empty = some rejected
transport_expected header_cipher_duplicate = some rejected
transport_expected TransportScenario.generic = none
transport_expected header_cipher_generic = none

-- `TypedScenario::expected_outcome`
unfoldable pub typed_expected : TypedScenario → Option ScenarioOutcome
typed_expected valid = some accepted
typed_expected TypedScenario.duplicate = some rejected
typed_expected TypedScenario.generic = none

-- `ContextScenario::expected_outcome`
unfoldable pub context_expected : ContextScenario → Option ScenarioOutcome
context_expected round_trip = some accepted
context_expected mismatched_context = some rejected
context_expected legacy_marker = some rejected
context_expected oversize_plaintext = some rejected
context_expected ContextScenario.generic = none

unfoldable pub transport_scenario : Bytes → TransportScenario
transport_scenario [] = TransportScenario.generic
transport_scenario (b ∷ _) =
    if b == b'S'
    then success
    else if b == b'D'
    then TransportScenario.duplicate
    else if b == b'U'
    then unknown
    else if b == b'M'
    then missing
    else if b == b'H'
    then header_cipher_success
    else if b == b'I'
    then header_cipher_missing
    else if b == b'E'
    then header_cipher_empty
    else if b == b'J'
    then header_cipher_duplicate
    else if b == b'C'
    then header_cipher_generic
    else TransportScenario.generic

unfoldable pub typed_scenario : Bytes → TypedScenario
typed_scenario [] = TypedScenario.generic
typed_scenario (b ∷ _) =
    if b == b'V'
    then valid
    else if b == b'D'
    then TypedScenario.duplicate
    else TypedScenario.generic

unfoldable pub context_scenario : Bytes → ContextScenario
context_scenario [] = ContextScenario.generic
context_scenario (b ∷ _) =
    if b == b'R'
    then round_trip
    else if b == b'M'
    then mismatched_context
    else if b == b'L'
    then legacy_marker
    else if b == b'O'
    then oversize_plaintext
    else ContextScenario.generic
