-- ===== src/Adapter/Accepted.antt =====
-- Exactly which builders `HeaderSchemaBuilder::build` of src/adapter.rs accepts.
use gmcrypto_envelope_lite.Base.{◌≡◌, ◌↔◌, sym, subst, some, ok, false, not, is_empty, All}
use gmcrypto_envelope_lite.Header.Laws.{IsName}
use gmcrypto_envelope_lite.Adapter.Types.{HeaderSchema, HeaderSchemaBuilder}
use gmcrypto_envelope_lite.Adapter.Builder
use gmcrypto_envelope_lite.Adapter.Mapping.{is_context_bound}
use gmcrypto_envelope_lite.Adapter.Schema.{AllDistinct, validate_collisions_iff}
use gmcrypto_envelope_lite.Adapter.Table.{
  all_request_names, all_response_names, request_names-all, response_names-all,
}
use gmcrypto_envelope_lite.Adapter.Made.{Made, build-Made, Made-build}
use gmcrypto_envelope_lite.Adapter.Given.{
  Given, AreStatic, IsPlace, required_header_iff, static_entries_iff, response_names-IsName,
}

-- What a builder must hold for this schema to come out.
pub record Accepts (b : HeaderSchemaBuilder) (schema : HeaderSchema) : Type 0 where
  pub some_static : is_empty b.static_request_headers ≡ false
  pub statics : AreStatic b.static_request_headers schema.static_request_headers
  pub local_identity : Given b.local_identity_header schema.local_identity_header
  pub operation : Given b.operation_header schema.operation_header
  pub request_id : Given b.request_id_header schema.request_id_header
  pub request_time : Given b.request_time_header schema.request_time_header
  pub api_version : Given b.api_version_header schema.api_version_header
  pub local_certificate : Given b.local_certificate_header schema.local_certificate_header
  pub remote_signing :
      Given b.remote_signing_certificate_header schema.remote_signing_certificate_header
  pub remote_encryption :
      Given b.remote_encryption_certificate_header schema.remote_encryption_certificate_header
  pub request_signature : Given b.request_signature_header schema.request_signature_header
  pub request_wrapped : Given b.request_wrapped_key_header schema.request_wrapped_key_header
  pub request_cipher : b.request_cipher ≡ some schema.request_cipher
  pub response_signature : Given b.response_signature_header schema.response_signature_header
  pub response_wrapped : Given b.response_wrapped_key_header schema.response_wrapped_key_header
  pub response_certificate :
      Given b.response_remote_signing_certificate_header
        schema.response_remote_signing_certificate_header
  pub response_cipher : b.response_cipher ≡ some schema.response_cipher
  pub legacy_chosen : b.legacy_authentication ≡ not (is_context_bound schema.authentication)
  pub bound_chosen : b.context_bound_authentication ≡ is_context_bound schema.authentication
  pub request_distinct : AllDistinct (all_request_names schema)
  pub response_distinct : AllDistinct (all_response_names schema)

-- The collision check, by the names of the table.
passes_iff :
    (schema : HeaderSchema)
    → (Builder.validate_collisions schema ≡ ok tt)
      ↔ (AllDistinct (all_request_names schema) × AllDistinct (all_response_names schema))
passes_iff schema =
    subst
      (λ ns.
        (Builder.validate_collisions schema ≡ ok tt)
        ↔ (AllDistinct ns × AllDistinct (all_response_names schema)))
      (request_names-all schema)
      (subst
        (λ ns.
          (Builder.validate_collisions schema ≡ ok tt)
          ↔ (AllDistinct (Builder.request_names schema) × AllDistinct ns))
        (response_names-all schema) (validate_collisions_iff schema))

Made-Accepts_iff :
    (b : HeaderSchemaBuilder) (schema : HeaderSchema) → Made b schema ↔ Accepts b schema
Made-Accepts_iff b schema = (
  λ h. record {
    some_static = h.some_static;
    statics =
        (static_entries_iff b.static_request_headers schema.static_request_headers).0 h.statics;
    local_identity =
        (required_header_iff b.local_identity_header schema.local_identity_header).0
          h.local_identity;
    operation = (required_header_iff b.operation_header schema.operation_header).0 h.operation;
    request_id = (required_header_iff b.request_id_header schema.request_id_header).0 h.request_id;
    request_time =
        (required_header_iff b.request_time_header schema.request_time_header).0 h.request_time;
    api_version =
        (required_header_iff b.api_version_header schema.api_version_header).0 h.api_version;
    local_certificate =
        (required_header_iff b.local_certificate_header schema.local_certificate_header).0
          h.local_certificate;
    remote_signing =
        (required_header_iff b.remote_signing_certificate_header
            schema.remote_signing_certificate_header).0
          h.remote_signing;
    remote_encryption =
        (required_header_iff b.remote_encryption_certificate_header
            schema.remote_encryption_certificate_header).0
          h.remote_encryption;
    request_signature =
        (required_header_iff b.request_signature_header schema.request_signature_header).0
          h.request_signature;
    request_wrapped =
        (required_header_iff b.request_wrapped_key_header schema.request_wrapped_key_header).0
          h.request_wrapped;
    response_signature =
        (required_header_iff b.response_signature_header schema.response_signature_header).0
          h.response_signature;
    response_wrapped =
        (required_header_iff b.response_wrapped_key_header schema.response_wrapped_key_header).0
          h.response_wrapped;
    response_certificate =
        (required_header_iff b.response_remote_signing_certificate_header
            schema.response_remote_signing_certificate_header).0
          h.response_certificate;
    request_cipher = h.request_cipher;
    response_cipher = h.response_cipher;
    legacy_chosen = h.legacy_chosen;
    bound_chosen = h.bound_chosen;
    request_distinct = ((passes_iff schema).0 h.passed).0;
    response_distinct = ((passes_iff schema).0 h.passed).1;
  },
  λ h. record {
    some_static = h.some_static;
    statics =
        (static_entries_iff b.static_request_headers schema.static_request_headers).1 h.statics;
    local_identity =
        (required_header_iff b.local_identity_header schema.local_identity_header).1
          h.local_identity;
    operation = (required_header_iff b.operation_header schema.operation_header).1 h.operation;
    request_id = (required_header_iff b.request_id_header schema.request_id_header).1 h.request_id;
    request_time =
        (required_header_iff b.request_time_header schema.request_time_header).1 h.request_time;
    api_version =
        (required_header_iff b.api_version_header schema.api_version_header).1 h.api_version;
    local_certificate =
        (required_header_iff b.local_certificate_header schema.local_certificate_header).1
          h.local_certificate;
    remote_signing =
        (required_header_iff b.remote_signing_certificate_header
            schema.remote_signing_certificate_header).1
          h.remote_signing;
    remote_encryption =
        (required_header_iff b.remote_encryption_certificate_header
            schema.remote_encryption_certificate_header).1
          h.remote_encryption;
    request_signature =
        (required_header_iff b.request_signature_header schema.request_signature_header).1
          h.request_signature;
    request_wrapped =
        (required_header_iff b.request_wrapped_key_header schema.request_wrapped_key_header).1
          h.request_wrapped;
    response_signature =
        (required_header_iff b.response_signature_header schema.response_signature_header).1
          h.response_signature;
    response_wrapped =
        (required_header_iff b.response_wrapped_key_header schema.response_wrapped_key_header).1
          h.response_wrapped;
    response_certificate =
        (required_header_iff b.response_remote_signing_certificate_header
            schema.response_remote_signing_certificate_header).1
          h.response_certificate;
    request_cipher = h.request_cipher;
    response_cipher = h.response_cipher;
    legacy_chosen = h.legacy_chosen;
    bound_chosen = h.bound_chosen;
    passed = (passes_iff schema).1 (h.request_distinct, h.response_distinct);
  },
)

-- `build` returns a schema exactly when there is a static header, every header is given and well
-- formed, both cipher locations are given, just one kind of authentication is chosen, and no two
-- headers of one direction have names that are equal up to case: in a request the static ones, the ten
-- of the identity, the context, the certificates, the signature and the wrapped key, and the cipher's
-- where it has one; in a response those of the signature, the wrapped key and the certificate, the
-- cipher's where it has one, and the request identifier's under context-bound authentication. The
-- schema then holds what was given.
pub schema_build_iff :
    (b : HeaderSchemaBuilder) (schema : HeaderSchema)
    → (Builder.build b ≡ ok schema) ↔ Accepts b schema
schema_build_iff b schema = (
  λ e. (Made-Accepts_iff b schema).0 (build-Made b schema e),
  λ h. Made-build b schema ((Made-Accepts_iff b schema).1 h),
)

-- The code's list of the response's names has no collision either.
pub Accepts-distinct :
    (b : HeaderSchemaBuilder) (schema : HeaderSchema)
    → Accepts b schema
    → AllDistinct (Builder.response_names schema)
Accepts-distinct b schema h =
    subst AllDistinct (sym (response_names-all schema)) h.response_distinct

-- The response's names of an accepted schema are well formed, where that of a cipher header is.
pub Accepts-names :
    (b : HeaderSchemaBuilder) (schema : HeaderSchema)
    → Accepts b schema
    → IsPlace schema.response_cipher
    → All IsName (Builder.response_names schema)
Accepts-names b schema h place = (
  h.response_signature.name,
  (
    h.response_wrapped.name,
    (
      h.response_certificate.name,
      response_names-IsName schema.response_cipher schema.authentication schema.request_id_header
          place h.request_id.name,
    ),
  ),
)
