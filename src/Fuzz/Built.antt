-- ===== src/Fuzz/Built.antt =====
-- The fixed schemas of fuzz/fuzz_targets/support.rs are built: none of their `expect` calls panics.
use gmcrypto_envelope_lite.Base.{◌≡◌, refl, ok, String, [], ◌∷◌}
use gmcrypto_envelope_lite.Text.{
  codes, trim, trim_start, trim_end, is_whitespace, utf8, utf8_char, to_ascii_lowercase, lower,
}
use gmcrypto_envelope_lite.Header.Name.{HeaderName, is_token_byte, is_ascii_alphanumeric}
use gmcrypto_envelope_lite.Header.Name
use gmcrypto_envelope_lite.Header.Value
use gmcrypto_envelope_lite.Header.Value.{is_disallowed_value_character}
use gmcrypto_envelope_lite.Adapter.Types.{
  CipherLocation, HeaderAuthentication, HeaderSchema, body, header, legacy, context_bound,
}
use gmcrypto_envelope_lite.Adapter.Builder
use gmcrypto_envelope_lite.Fuzz.Schemas.{
  fuzz_schema_builder, schema, header_cipher_schema, context_schema,
}

abbrev token : String → String → HeaderName
token original canonical = record { original = codes original; canonical = codes canonical }

abbrev pub cipher_header : HeaderName
cipher_header = token "X-Fuzz-Response-Cipher" "x-fuzz-response-cipher"

-- The schema with these last two choices.
abbrev pub fuzz_schema : CipherLocation → HeaderAuthentication → HeaderSchema
fuzz_schema place kind = record {
  static_request_headers =
      (token "Content-Type" "content-type", record { text = codes "application/fuzz+octets" }) ∷ [];
  local_identity_header = token "X-Fuzz-Local-Identity" "x-fuzz-local-identity";
  operation_header = token "X-Fuzz-Operation" "x-fuzz-operation";
  request_id_header = token "X-Fuzz-Request-Id" "x-fuzz-request-id";
  request_time_header = token "X-Fuzz-Request-Time" "x-fuzz-request-time";
  api_version_header = token "X-Fuzz-Api-Version" "x-fuzz-api-version";
  local_certificate_header = token "X-Fuzz-Local-Certificate" "x-fuzz-local-certificate";
  remote_signing_certificate_header =
      token "X-Fuzz-Remote-Signing-Certificate" "x-fuzz-remote-signing-certificate";
  remote_encryption_certificate_header =
      token "X-Fuzz-Remote-Encryption-Certificate" "x-fuzz-remote-encryption-certificate";
  request_signature_header = token "X-Fuzz-Request-Signature" "x-fuzz-request-signature";
  request_wrapped_key_header = token "X-Fuzz-Request-Wrapped-Key" "x-fuzz-request-wrapped-key";
  request_cipher = body;
  response_signature_header = token "X-Fuzz-Response-Signature" "x-fuzz-response-signature";
  response_wrapped_key_header = token "X-Fuzz-Response-Wrapped-Key" "x-fuzz-response-wrapped-key";
  response_remote_signing_certificate_header =
      token "X-Fuzz-Response-Remote-Signing-Certificate"
        "x-fuzz-response-remote-signing-certificate";
  response_cipher = place;
  authentication = kind;
}

pub schema-ok : schema ≡ ok (fuzz_schema body legacy)
unfolding schema fuzz_schema_builder Builder.build Builder.static_entries Builder.static_entry
    Builder.required_header Builder.validate_collisions Builder.insert_mappings
    Builder.insert_mapping Builder.request_cipher Builder.response_cipher
    Builder.legacy_authentication Builder.context_bound_authentication Builder.static_request_header
    Builder.local_identity_header Builder.operation_header Builder.request_id_header
    Builder.request_time_header Builder.api_version_header Builder.local_certificate_header
    Builder.remote_signing_certificate_header Builder.remote_encryption_certificate_header
    Builder.request_signature_header Builder.request_wrapped_key_header
    Builder.response_signature_header Builder.response_wrapped_key_header
    Builder.response_remote_signing_certificate_header trim trim_start trim_end is_whitespace
    Name.new utf8 utf8_char is_token_byte is_ascii_alphanumeric Value.new
    is_disallowed_value_character to_ascii_lowercase lower
schema-ok = refl

pub header_cipher_schema-ok : header_cipher_schema ≡ ok (fuzz_schema (header cipher_header) legacy)
unfolding header_cipher_schema fuzz_schema_builder Builder.build Builder.static_entries
    Builder.static_entry Builder.required_header Builder.validate_collisions Builder.insert_mappings
    Builder.insert_mapping Builder.request_cipher Builder.response_cipher
    Builder.legacy_authentication Builder.context_bound_authentication Builder.static_request_header
    Builder.local_identity_header Builder.operation_header Builder.request_id_header
    Builder.request_time_header Builder.api_version_header Builder.local_certificate_header
    Builder.remote_signing_certificate_header Builder.remote_encryption_certificate_header
    Builder.request_signature_header Builder.request_wrapped_key_header
    Builder.response_signature_header Builder.response_wrapped_key_header
    Builder.response_remote_signing_certificate_header trim trim_start trim_end is_whitespace
    Name.new utf8 utf8_char is_token_byte is_ascii_alphanumeric Value.new
    is_disallowed_value_character to_ascii_lowercase lower
header_cipher_schema-ok = refl

pub context_schema-ok : context_schema ≡ ok (fuzz_schema body context_bound)
unfolding context_schema fuzz_schema_builder Builder.build Builder.static_entries
    Builder.static_entry Builder.required_header Builder.validate_collisions Builder.insert_mappings
    Builder.insert_mapping Builder.request_cipher Builder.response_cipher
    Builder.legacy_authentication Builder.context_bound_authentication Builder.static_request_header
    Builder.local_identity_header Builder.operation_header Builder.request_id_header
    Builder.request_time_header Builder.api_version_header Builder.local_certificate_header
    Builder.remote_signing_certificate_header Builder.remote_encryption_certificate_header
    Builder.request_signature_header Builder.request_wrapped_key_header
    Builder.response_signature_header Builder.response_wrapped_key_header
    Builder.response_remote_signing_certificate_header trim trim_start trim_end is_whitespace
    Name.new utf8 utf8_char is_token_byte is_ascii_alphanumeric Value.new
    is_disallowed_value_character to_ascii_lowercase lower
context_schema-ok = refl
