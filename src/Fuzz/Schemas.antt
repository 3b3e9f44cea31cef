-- ===== src/Fuzz/Schemas.antt =====
-- The header schemas of fuzz/fuzz_targets/support.rs and the adapters with them. What `expect` is
-- called on stays a result: an error stands for the panic.
use gmcrypto_envelope_lite.Base.{◌>>=◌, map_err}
use gmcrypto_envelope_lite.Text.{codes}
use gmcrypto_envelope_lite.Error.{AdapterResult, adapter_error, invalid_mapping}
use gmcrypto_envelope_lite.Header.Name
use gmcrypto_envelope_lite.Adapter.Types.{HeaderSchema, HeaderSchemaBuilder, body, header}
use gmcrypto_envelope_lite.Adapter.Builder.{
  builder, static_request_header, local_identity_header, operation_header, request_id_header,
  request_time_header, api_version_header, local_certificate_header,
  remote_signing_certificate_header, remote_encryption_certificate_header, request_signature_header,
  request_wrapped_key_header, request_cipher, response_signature_header,
  response_wrapped_key_header, response_remote_signing_certificate_header, response_cipher,
  legacy_authentication, context_bound_authentication, build,
}

unfoldable pub fuzz_schema_builder : HeaderSchemaBuilder
unfolding static_request_header local_identity_header operation_header request_id_header
    request_time_header api_version_header local_certificate_header
    remote_signing_certificate_header remote_encryption_certificate_header request_signature_header
    request_wrapped_key_header request_cipher response_signature_header response_wrapped_key_header
    response_remote_signing_certificate_header
fuzz_schema_builder =
    let b0 =
      static_request_header (codes "Content-Type") (codes "application/fuzz+octets") builder in
    let b1 = local_identity_header (codes "X-Fuzz-Local-Identity") b0 in
    let b2 = operation_header (codes "X-Fuzz-Operation") b1 in
    let b3 = request_id_header (codes "X-Fuzz-Request-Id") b2 in
    let b4 = request_time_header (codes "X-Fuzz-Request-Time") b3 in
    let b5 = api_version_header (codes "X-Fuzz-Api-Version") b4 in
    let b6 = local_certificate_header (codes "X-Fuzz-Local-Certificate") b5 in
    let b7 = remote_signing_certificate_header (codes "X-Fuzz-Remote-Signing-Certificate") b6 in
    let b8 =
      remote_encryption_certificate_header (codes "X-Fuzz-Remote-Encryption-Certificate") b7 in
    let b9 = request_signature_header (codes "X-Fuzz-Request-Signature") b8 in
    let b10 = request_wrapped_key_header (codes "X-Fuzz-Request-Wrapped-Key") b9 in
    let b11 = request_cipher body b10 in
    let b12 = response_signature_header (codes "X-Fuzz-Response-Signature") b11 in
    let b13 = response_wrapped_key_header (codes "X-Fuzz-Response-Wrapped-Key") b12 in
    response_remote_signing_certificate_header (codes "X-Fuzz-Response-Remote-Signing-Certificate")
      b13

unfoldable pub schema : AdapterResult HeaderSchema
unfolding fuzz_schema_builder response_cipher legacy_authentication
schema = build (legacy_authentication (response_cipher body fuzz_schema_builder))

unfoldable pub header_cipher_schema : AdapterResult HeaderSchema
unfolding fuzz_schema_builder response_cipher legacy_authentication
header_cipher_schema = do
  name ← map_err (λ _. adapter_error invalid_mapping) (Name.new (codes "X-Fuzz-Response-Cipher"))
  build (legacy_authentication (response_cipher (header name) fuzz_schema_builder))

unfoldable pub context_schema : AdapterResult HeaderSchema
unfolding fuzz_schema_builder response_cipher context_bound_authentication
context_schema = build (context_bound_authentication (response_cipher body fuzz_schema_builder))
