-- ===== src/Adapter/Targets.antt =====
-- The variable that `HeaderProtocolAdapter::parse_response` of src/adapter.rs stores each header of a
-- schema in: the collision check gives every one its own.
use gmcrypto_envelope_lite.Base.{
  ◌≡◌, refl, sym, ◌∙◌, arith, ◌&&◌, true, false, some, [], ◌∷◌, ◌++◌, beq_refl, All, any,
}
use gmcrypto_envelope_lite.Header.Name.{HeaderName, name_eq}
use gmcrypto_envelope_lite.Header.Name
use gmcrypto_envelope_lite.Header.Laws.{IsName, name_eq-eq_ignore_ascii_case}
use gmcrypto_envelope_lite.Header.Valid.{beq_sym}
use gmcrypto_envelope_lite.Adapter.Types.{
  CipherLocation, HeaderAuthentication, HeaderSchema, body, header, legacy, context_bound,
}
use gmcrypto_envelope_lite.Adapter.Builder.{response_names, cipher_names, request_id_names}
use gmcrypto_envelope_lite.Adapter.Mapping.{
  signature, wrapped_session_key, remote_signing_certificate_id, request_id, cipher, is_named,
  is_context_bound, target,
}
use gmcrypto_envelope_lite.Adapter.Schema.{AllDistinct}

named : (n m : HeaderName) → IsName n → IsName m → is_named (Name.as_str n) m ≡ name_eq n m
named n m hn hm = sym (name_eq-eq_ignore_ascii_case n m hn hm)

named_self : (n : HeaderName) → IsName n → is_named (Name.as_str n) n ≡ true
named_self n h = named n n h h ∙ beq_refl n.canonical

last-IsName :
    (place : CipherLocation) (id : HeaderName)
    → All IsName (cipher_names place ++ id ∷ [])
    → IsName id
last-IsName body id h = h.0
last-IsName (header name) id h = h.1.0

last_distinct :
    (place : CipherLocation) (n id : HeaderName)
    → any (λ m. name_eq m n) (cipher_names place ++ id ∷ []) ≡ false
    → name_eq id n ≡ false
last_distinct body n id h = ground arith
last_distinct (header name) n id h = ground arith

not_id :
    (kind : HeaderAuthentication) (name id : HeaderName)
    → IsName name
    → All IsName (request_id_names kind id)
    → any (λ m. name_eq m name) (request_id_names kind id) ≡ false
    → (is_context_bound kind && is_named (Name.as_str name) id) ≡ false
not_id legacy name id h names d = refl
not_id context_bound name id h names d =
    ground (arith, named name id h names.0, beq_sym name.canonical id.canonical)

module _ (schema : HeaderSchema) (distinct : AllDistinct (response_names schema))
    (names : All IsName (response_names schema)) where
  pub target_signature :
      target schema (Name.as_str schema.response_signature_header) ≡ some signature
  unfolding target
  target_signature = rw (named_self schema.response_signature_header names.0) refl

  pub target_wrapped :
      target schema (Name.as_str schema.response_wrapped_key_header) ≡ some wrapped_session_key
  unfolding target
  target_wrapped = ground (
    arith,
    named schema.response_wrapped_key_header schema.response_signature_header names.1.0 names.0,
    named_self schema.response_wrapped_key_header names.1.0,
  )

  pub target_certificate :
      target schema (Name.as_str schema.response_remote_signing_certificate_header)
      ≡ some remote_signing_certificate_id
  unfolding target
  target_certificate = ground (
    arith,
    named schema.response_remote_signing_certificate_header schema.response_signature_header
        names.1.1.0 names.0,
    named schema.response_remote_signing_certificate_header schema.response_wrapped_key_header
        names.1.1.0 names.1.0,
    named_self schema.response_remote_signing_certificate_header names.1.1.0,
  )

  -- The names behind the first three.
  rest_names : All IsName (
      cipher_names schema.response_cipher
      ++ request_id_names schema.authentication schema.request_id_header)
  rest_names = names.1.1.1

  pub target_request_id :
      schema.authentication ≡ context_bound
      → target schema (Name.as_str schema.request_id_header) ≡ some request_id
  unfolding target
  target_request_id e =
      let id = last-IsName schema.response_cipher schema.request_id_header (rw e at rest_names) in
      let apart : AllDistinct (
          schema.response_signature_header
          ∷ schema.response_wrapped_key_header
          ∷ schema.response_remote_signing_certificate_header
          ∷ (cipher_names schema.response_cipher ++ schema.request_id_header ∷ [])) =
        rw e at distinct in
      let last = last_distinct schema.response_cipher in
      rw e (
        ground (
          arith,
          apart,
          last schema.response_signature_header schema.request_id_header,
          last schema.response_wrapped_key_header schema.request_id_header,
          last schema.response_remote_signing_certificate_header schema.request_id_header,
          named schema.request_id_header schema.response_signature_header id names.0,
          named schema.request_id_header schema.response_wrapped_key_header id names.1.0,
          named schema.request_id_header schema.response_remote_signing_certificate_header id
              names.1.1.0,
          named_self schema.request_id_header id,
        ))

  pub target_cipher :
      (name : HeaderName)
      → schema.response_cipher ≡ header name
      → target schema (Name.as_str name) ≡ some cipher
  unfolding target
  target_cipher name e =
      let found : IsName name = (rw e at rest_names).0 in
      let apart : AllDistinct (
          schema.response_signature_header
          ∷ schema.response_wrapped_key_header
          ∷ schema.response_remote_signing_certificate_header
          ∷ name
          ∷ request_id_names schema.authentication schema.request_id_header) =
        rw e at distinct in
      let other =
        not_id schema.authentication name schema.request_id_header found (rw e at rest_names).1
          apart.1.1.1.0 in
      rw e (
        ground (
          arith,
          apart,
          other,
          named name schema.response_signature_header found names.0,
          named name schema.response_wrapped_key_header found names.1.0,
          named name schema.response_remote_signing_certificate_header found names.1.1.0,
          named_self name found,
        ))
