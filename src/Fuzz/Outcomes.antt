-- ===== src/Fuzz/Outcomes.antt =====
-- The outcomes that the transport and typed-header targets of fuzz/fuzz_targets assert. A panic is
-- `none`, whether of `expect` or of an assertion.
use gmcrypto_envelope_lite.Base.{
  Bool, ◌&&◌, Option, some, none, Result, ok, err, is_ok, List, [], ◌∷◌, if◌then◌else◌,
}
use gmcrypto_envelope_lite.Bytes.{◌and_then◌}
use gmcrypto_envelope_lite.Text.{Text, codes}
use gmcrypto_envelope_lite.Error.{AdapterResult}
use gmcrypto_envelope_lite.Header.Name
use gmcrypto_envelope_lite.Header.Value
use gmcrypto_envelope_lite.Message.Types.{ResponseParts, ParsedResponse}
use gmcrypto_envelope_lite.Message.Parts
use gmcrypto_envelope_lite.Adapter.Types.{HeaderSchema}
use gmcrypto_envelope_lite.Adapter.Mapping.{parse_response}
use gmcrypto_envelope_lite.Fuzz.Scenario.{
  TransportScenario, success, unknown, missing, header_cipher_success, header_cipher_missing,
  header_cipher_empty, header_cipher_duplicate, header_cipher_generic, TypedScenario, valid,
  ScenarioOutcome, accepted, rejected,
}
use gmcrypto_envelope_lite.Fuzz.Schemas.{schema, header_cipher_schema}

-- `expect`
abbrev pub expect : {E A : Type 0} → Result E A → Option A
expect (ok a) = some a
expect (err e) = none

abbrev pub outcome_of : Bool → ScenarioOutcome
outcome_of b = if b then accepted else rejected

-- `parse_response` of the adapter with this schema.
abbrev pub parsed_by :
    AdapterResult HeaderSchema → ResponseParts → Option (AdapterResult ParsedResponse)
parsed_by made response = expect made and_then λ s. some (parse_response s response)

-- The responses of the scenarios.
abbrev signature_name : Text
signature_name = codes "X-Fuzz-Response-Signature"

abbrev wrapped_pair : Text × Text
wrapped_pair = (codes "X-Fuzz-Response-Wrapped-Key", codes "wrapped")

abbrev certificate_pair : Text × Text
certificate_pair = (codes "X-Fuzz-Response-Remote-Signing-Certificate", codes "fuzz-certificate")

abbrev signature_pair : Text × Text
signature_pair = (signature_name, codes "signature")

abbrev body_response : List (Text × Text) → ResponseParts
body_response headers = Parts.response headers (codes "cipher")

abbrev header_response : List (Text × Text) → ResponseParts
header_response headers = Parts.response headers (codes "ignored-body")

abbrev cipher_name : Text
cipher_name = codes "X-Fuzz-Response-Cipher"

-- The call of each scenario that has one.
abbrev transport_result : TransportScenario → Option (Option (AdapterResult ParsedResponse))
transport_result success =
    some (parsed_by schema (body_response (signature_pair ∷ wrapped_pair ∷ certificate_pair ∷ [])))
transport_result TransportScenario.duplicate = some (
    parsed_by schema (
      body_response (
        (signature_name, codes "first")
        ∷ (codes "x-fuzz-response-signature", codes "second")
        ∷ wrapped_pair
        ∷ certificate_pair
        ∷ [])))
transport_result unknown = some (
    parsed_by schema (
      body_response (
        (codes "X-Fuzz-Unknown", codes "ignored")
        ∷ signature_pair
        ∷ wrapped_pair
        ∷ certificate_pair
        ∷ [])))
transport_result missing = some (parsed_by schema (body_response (signature_pair ∷ [])))
transport_result header_cipher_success = some (
    parsed_by header_cipher_schema (
      header_response
        (signature_pair ∷ wrapped_pair ∷ certificate_pair ∷ (cipher_name, codes "cipher") ∷ [])))
transport_result header_cipher_missing = some (
    parsed_by header_cipher_schema
      (header_response (signature_pair ∷ wrapped_pair ∷ certificate_pair ∷ [])))
transport_result header_cipher_empty = some (
    parsed_by header_cipher_schema
      (header_response (signature_pair ∷ wrapped_pair ∷ certificate_pair ∷ (cipher_name, []) ∷ [])))
transport_result header_cipher_duplicate = some (
    parsed_by header_cipher_schema (
      header_response (
        signature_pair
        ∷ wrapped_pair
        ∷ certificate_pair
        ∷ (cipher_name, codes "first")
        ∷ (codes "x-fuzz-response-cipher", codes "second")
        ∷ [])))
transport_result TransportScenario.generic = none
transport_result header_cipher_generic = none

-- The outcome of a call that was made.
abbrev outcome_if : {E A : Type 0} → Option (Option (Result E A)) → Option (Option ScenarioOutcome)
outcome_if none = some none
outcome_if (some none) = none
outcome_if (some (some r)) = some (some (outcome_of (is_ok r)))

unfoldable pub transport_outcome : TransportScenario → Option (Option ScenarioOutcome)
transport_outcome scenario = outcome_if (transport_result scenario)

unfoldable pub typed_outcome : TypedScenario → Option ScenarioOutcome
typed_outcome valid = some (
    outcome_of (
      is_ok (Name.new (codes "X-Fuzz-Header"))
      && is_ok (Value.new (codes "header-value"))
      && is_ok (
          Parts.new
            ((codes "X-Fuzz-Header", codes "header-value")
              ∷ (codes "X-Fuzz-Other", codes "second")
              ∷ [])
            (codes "body"))))
typed_outcome TypedScenario.duplicate = some (
    outcome_of (
      is_ok (
        Parts.new
          ((codes "X-Fuzz-Header", codes "first") ∷ (codes "x-fuzz-header", codes "second") ∷ [])
          (codes "body"))))
typed_outcome TypedScenario.generic = none
