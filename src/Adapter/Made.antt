-- ===== src/Adapter/Made.antt =====
-- The steps of `HeaderSchemaBuilder::build` of src/adapter.rs, all of which succeed where it does.
use gmcrypto_envelope_lite.Base.{
  ◌≡◌, refl, arith, some, Bool, ◌&&◌, if◌then◌else◌, ok, false, not, is_empty,
}
use gmcrypto_envelope_lite.Adapter.Types.{
  HeaderSchema, HeaderSchemaBuilder, HeaderAuthentication, legacy, context_bound,
}
use gmcrypto_envelope_lite.Adapter.Builder
use gmcrypto_envelope_lite.Adapter.Mapping.{is_context_bound}

-- The steps of `build` that succeed.
pub record Made (b : HeaderSchemaBuilder) (schema : HeaderSchema) : Type 0 where
  pub some_static : is_empty b.static_request_headers ≡ false
  pub statics : Builder.static_entries b.static_request_headers ≡ ok schema.static_request_headers
  pub local_identity :
      Builder.required_header b.local_identity_header ≡ ok schema.local_identity_header
  pub operation : Builder.required_header b.operation_header ≡ ok schema.operation_header
  pub request_id : Builder.required_header b.request_id_header ≡ ok schema.request_id_header
  pub request_time : Builder.required_header b.request_time_header ≡ ok schema.request_time_header
  pub api_version : Builder.required_header b.api_version_header ≡ ok schema.api_version_header
  pub local_certificate :
      Builder.required_header b.local_certificate_header ≡ ok schema.local_certificate_header
  pub remote_signing :
      Builder.required_header b.remote_signing_certificate_header
      ≡ ok schema.remote_signing_certificate_header
  pub remote_encryption :
      Builder.required_header b.remote_encryption_certificate_header
      ≡ ok schema.remote_encryption_certificate_header
  pub request_signature :
      Builder.required_header b.request_signature_header ≡ ok schema.request_signature_header
  pub request_wrapped :
      Builder.required_header b.request_wrapped_key_header ≡ ok schema.request_wrapped_key_header
  pub response_signature :
      Builder.required_header b.response_signature_header ≡ ok schema.response_signature_header
  pub response_wrapped :
      Builder.required_header b.response_wrapped_key_header ≡ ok schema.response_wrapped_key_header
  pub response_certificate :
      Builder.required_header b.response_remote_signing_certificate_header
      ≡ ok schema.response_remote_signing_certificate_header
  pub request_cipher : b.request_cipher ≡ some schema.request_cipher
  pub response_cipher : b.response_cipher ≡ some schema.response_cipher
  pub legacy_chosen : b.legacy_authentication ≡ not (is_context_bound schema.authentication)
  pub bound_chosen : b.context_bound_authentication ≡ is_context_bound schema.authentication
  pub passed : Builder.validate_collisions schema ≡ ok tt

pub build-Made :
    (b : HeaderSchemaBuilder) (schema : HeaderSchema) → Builder.build b ≡ ok schema → Made b schema
unfolding Builder.build
build-Made b schema e = ground arith

one_choice : (c : Bool) → (not c && c) ≡ false
one_choice c = ground arith

some_choice : (c : Bool) → (not (not c) && not c) ≡ false
some_choice c = ground arith

chosen : (k : HeaderAuthentication) → (if is_context_bound k then context_bound else legacy) ≡ k
chosen legacy = refl
chosen context_bound = refl

pub Made-build :
    (b : HeaderSchemaBuilder) (schema : HeaderSchema) → Made b schema → Builder.build b ≡ ok schema
unfolding Builder.build
Made-build b schema h =
    let k = is_context_bound schema.authentication in
    rw
      (
        h.some_static,
        h.request_cipher,
        h.response_cipher,
        h.legacy_chosen,
        h.bound_chosen,
        one_choice k,
        some_choice k,
        h.statics,
        h.local_identity,
        h.operation,
        h.request_id,
        h.request_time,
        h.api_version,
        h.local_certificate,
        h.remote_signing,
        h.remote_encryption,
        h.request_signature,
        h.request_wrapped,
        h.response_signature,
        h.response_wrapped,
        h.response_certificate,
        chosen schema.authentication,
        h.passed,
      )
      refl
