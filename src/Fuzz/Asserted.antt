-- ===== src/Fuzz/Asserted.antt =====
-- What the transport and typed-header targets of fuzz/fuzz_targets assert holds: no run of them panics.
use gmcrypto_envelope_lite.Base.{◌≡◌, refl, some}
use gmcrypto_envelope_lite.Text.{
  trim, trim_start, trim_end, is_whitespace, utf8, utf8_char, to_ascii_lowercase, lower,
  eq_ignore_ascii_case, contains_line_break,
}
use gmcrypto_envelope_lite.Header.Name.{is_token_byte, is_ascii_alphanumeric}
use gmcrypto_envelope_lite.Header.Name
use gmcrypto_envelope_lite.Header.Value
use gmcrypto_envelope_lite.Header.Value.{is_disallowed_value_character}
use gmcrypto_envelope_lite.Header.Collection.{
  insert, insert_typed, insert_pairs, insert_again, from_pairs, revalidate, append_checked,
  append_test,
}
use gmcrypto_envelope_lite.Message.Parts
use gmcrypto_envelope_lite.Adapter.Mapping.{
  parse_response, collect, replace, target, required_response_header, trimmed_nonempty,
}
use gmcrypto_envelope_lite.Fuzz.Scenario.{
  TransportScenario, success, unknown, missing, header_cipher_success, header_cipher_missing,
  header_cipher_empty, header_cipher_duplicate, header_cipher_generic, TypedScenario, valid,
  transport_expected, typed_expected,
}
use gmcrypto_envelope_lite.Fuzz.Built.{schema-ok, header_cipher_schema-ok}
use gmcrypto_envelope_lite.Fuzz.Outcomes.{transport_outcome, typed_outcome}

-- Every scenario of the transport target reaches the outcome that it declares, and the call does not
-- panic: the fixed schemas are built, and the adapter accepts or refuses the fixed response.
pub transport_outcome-eq-expected :
    (scenario : TransportScenario) → transport_outcome scenario ≡ some (transport_expected scenario)
unfolding transport_outcome transport_expected parse_response collect replace target
    required_response_header trimmed_nonempty trim trim_start trim_end is_whitespace Value.new
    is_disallowed_value_character eq_ignore_ascii_case lower Parts.parsed contains_line_break
transport_outcome-eq-expected success = rw schema-ok refl
transport_outcome-eq-expected TransportScenario.duplicate = rw schema-ok refl
transport_outcome-eq-expected unknown = rw schema-ok refl
transport_outcome-eq-expected missing = rw schema-ok refl
transport_outcome-eq-expected header_cipher_success = rw header_cipher_schema-ok refl
transport_outcome-eq-expected header_cipher_missing = rw header_cipher_schema-ok refl
transport_outcome-eq-expected header_cipher_empty = rw header_cipher_schema-ok refl
transport_outcome-eq-expected header_cipher_duplicate = rw header_cipher_schema-ok refl
transport_outcome-eq-expected header_cipher_generic = refl
transport_outcome-eq-expected TransportScenario.generic = refl

-- Every scenario of the typed-header target reaches the outcome that it declares.
pub typed_outcome-eq-expected :
    (scenario : TypedScenario) → typed_outcome scenario ≡ typed_expected scenario
unfolding typed_outcome typed_expected Name.new utf8 utf8_char is_token_byte is_ascii_alphanumeric
    Value.new is_disallowed_value_character to_ascii_lowercase lower Parts.new Parts.validate
    Parts.append_checked append_checked append_test revalidate insert_again insert insert_typed
    insert_pairs from_pairs
typed_outcome-eq-expected valid = refl
typed_outcome-eq-expected TypedScenario.duplicate = refl
typed_outcome-eq-expected TypedScenario.generic = refl
