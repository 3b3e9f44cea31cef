-- ===== src/Adapter/Parsed.antt =====
-- Exactly what `HeaderProtocolAdapter::parse_response` of src/adapter.rs accepts, and what it returns.
use gmcrypto_envelope_lite.Base.{
  ◌≡◌, ◌↔◌, refl, sym, ◌∙◌, arith, false, Result-cases, inl, inr, Option, some, none, List, [], ◌∷◌,
  is_empty, ok,
}
use gmcrypto_envelope_lite.Text.{Text, trim, contains_line_break}
use gmcrypto_envelope_lite.Text.Laws.{trim_idem}
use gmcrypto_envelope_lite.Auth.Types.{AuthenticationContext}
use gmcrypto_envelope_lite.Message.Types.{ResponseParts, ParsedResponse}
use gmcrypto_envelope_lite.Message.Parts
use gmcrypto_envelope_lite.Adapter.Types.{
  CipherLocation, HeaderAuthentication, HeaderSchema, body, header, legacy, context_bound,
}
use gmcrypto_envelope_lite.Adapter.Mapping.{
  Slot, Slots, no_slots, signature, wrapped_session_key, remote_signing_certificate_id, request_id,
  cipher, slot, collect, target, required_response_header, trimmed_nonempty, response_cipher_text,
  response_context, parse_response,
}
use gmcrypto_envelope_lite.Adapter.Responses.{values_for, to_list, collect_iff, goes_to}
use gmcrypto_envelope_lite.Adapter.Fields.{
  Values, HasField, HasCipher, HasContext, required_response_header_iff, to_list-one,
  response_context_iff,
}

-- The parts of a response, by what its headers carry for each field.
pub record Parses (schema : HeaderSchema) (values : Values) (stated : Text)
    (parsed : ParsedResponse) : Type 0 where
  pub signature_field : HasField values signature parsed.envelope.signature
  pub wrapped_field : HasField values wrapped_session_key parsed.envelope.wrapped_session_key
  pub certificate_field :
      HasField values remote_signing_certificate_id parsed.remote_signing_certificate_id
  pub one_line : contains_line_break parsed.remote_signing_certificate_id ≡ false
  pub cipher_field : HasCipher schema.response_cipher values stated parsed.envelope.cipher
  pub context_field : HasContext schema.authentication values parsed.authentication_context

-- The values of the headers that go into each variable.
abbrev pub stored : HeaderSchema → ResponseParts → Values
stored schema response t = values_for schema t response.headers

module _ (schema : HeaderSchema) (response : ResponseParts) (s : Slots)
    (gathered : (t : Slot) → to_list (slot t s) ≡ values_for schema t response.headers) where
  field_iff :
      (t : Slot) (field : Text)
      → (required_response_header (slot t s) ≡ ok field) ↔ HasField (stored schema response) t field
  field_iff t field = (
    λ e.
        let h = (required_response_header_iff (slot t s) field).0 e in
        (h.0, sym (gathered t) ∙ (to_list-one (slot t s) h.0).1 h.1, h.2),
    λ h.
        (required_response_header_iff (slot t s) field).1
          (h.0, (to_list-one (slot t s) h.0).0 (gathered t ∙ h.1), h.2),
  )

  cipher_iff :
      (place : CipherLocation) (text : Text)
      → (response_cipher_text place response.body s.cipher ≡ ok text)
        ↔ HasCipher place (stored schema response) response.body text
  unfolding trimmed_nonempty
  cipher_iff body text = ground arith
  cipher_iff (header name) text = field_iff cipher text

  context_iff :
      (kind : HeaderAuthentication) (context : AuthenticationContext)
      → (response_context kind s.request_id ≡ ok context)
        ↔ HasContext kind (stored schema response) context
  context_iff legacy context = ground arith
  context_iff context_bound context = (
    λ e.
        let h = (response_context_iff s.request_id context).0 e in
        (h.0, sym (gathered request_id) ∙ (to_list-one s.request_id h.0).1 h.1, h.2),
    λ h.
        (response_context_iff s.request_id context).1
          (h.0, (to_list-one s.request_id h.0).0 (gathered request_id ∙ h.1), h.2),
  )

-- A header goes to the variables that are not read only where the schema has them.
values_for-none :
    (schema : HeaderSchema) (t : Slot) (headers : List (Text × Text))
    → ((name : Text) → goes_to t (target schema name) ≡ false)
    → values_for schema t headers ≡ []
unfolding values_for
values_for-none schema t [] never = refl
values_for-none schema t ((name, value) ∷ rest) never =
    rw (never name) (values_for-none schema t rest never)

never_cipher :
    (schema : HeaderSchema) (name : Text)
    → schema.response_cipher ≡ body
    → goes_to cipher (target schema name) ≡ false
unfolding target
never_cipher schema name e = ground arith

never_request_id :
    (schema : HeaderSchema) (name : Text)
    → schema.authentication ≡ legacy
    → goes_to request_id (target schema name) ≡ false
unfolding target
never_request_id schema name e = ground arith

-- The slots that a response which parses leaves.
abbrev cipher_of :
    (place : CipherLocation) (schema : HeaderSchema) (response : ResponseParts) (text : Text)
    → HasCipher place (stored schema response) response.body text
    → Option Text
cipher_of body schema response text h = none
cipher_of (header name) schema response text h = some h.0

abbrev id_of :
    (kind : HeaderAuthentication) (schema : HeaderSchema) (response : ResponseParts)
    (context : AuthenticationContext)
    → HasContext kind (stored schema response) context
    → Option Text
id_of legacy schema response context h = none
id_of context_bound schema response context h = some h.0

cipher_of-values :
    (place : CipherLocation) (schema : HeaderSchema) (response : ResponseParts) (text : Text)
    (h : HasCipher place (stored schema response) response.body text)
    → schema.response_cipher ≡ place
    → to_list (cipher_of place schema response text h) ≡ values_for schema cipher response.headers
cipher_of-values body schema response text h e =
    sym (values_for-none schema cipher response.headers (λ n. never_cipher schema n e))
cipher_of-values (header name) schema response text h e = sym h.1

id_of-values :
    (kind : HeaderAuthentication) (schema : HeaderSchema) (response : ResponseParts)
    (context : AuthenticationContext) (h : HasContext kind (stored schema response) context)
    → schema.authentication ≡ kind
    → to_list (id_of kind schema response context h) ≡ values_for schema request_id response.headers
id_of-values legacy schema response context h e =
    sym (values_for-none schema request_id response.headers (λ n. never_request_id schema n e))
id_of-values context_bound schema response context h e = sym h.1

module _ (schema : HeaderSchema) (response : ResponseParts) (parsed : ParsedResponse) where
  slots_of : Parses schema (stored schema response) response.body parsed → Slots
  slots_of h = record {
    signature = some h.signature_field.0;
    wrapped_session_key = some h.wrapped_field.0;
    remote_signing_certificate_id = some h.certificate_field.0;
    cipher = cipher_of schema.response_cipher schema response parsed.envelope.cipher h.cipher_field;
    request_id =
        id_of schema.authentication schema response parsed.authentication_context h.context_field;
  }

  slots_of-values :
      (h : Parses schema (stored schema response) response.body parsed) (t : Slot)
      → to_list (slot t (slots_of h)) ≡ values_for schema t response.headers
  unfolding slots_of
  slots_of-values h signature = sym h.signature_field.1
  slots_of-values h wrapped_session_key = sym h.wrapped_field.1
  slots_of-values h remote_signing_certificate_id = sym h.certificate_field.1
  slots_of-values h request_id =
      id_of-values schema.authentication schema response parsed.authentication_context
        h.context_field refl
  slots_of-values h cipher =
      cipher_of-values schema.response_cipher schema response parsed.envelope.cipher h.cipher_field
        refl

  from_slots_iff :
      (s : Slots)
      → ((t : Slot) → to_list (slot t s) ≡ values_for schema t response.headers)
      → collect schema response.headers no_slots ≡ ok s
      → (parse_response schema response ≡ ok parsed)
        ↔ Parses schema (stored schema response) response.body parsed
  unfolding parse_response Parts.parsed
  from_slots_iff s gathered e =
      let a = field_iff schema response s gathered signature parsed.envelope.signature in
      let b =
        field_iff schema response s gathered wrapped_session_key
          parsed.envelope.wrapped_session_key in
      let c =
        field_iff schema response s gathered remote_signing_certificate_id
          parsed.remote_signing_certificate_id in
      let d = cipher_iff schema response s gathered schema.response_cipher parsed.envelope.cipher in
      let k =
        context_iff schema response s gathered schema.authentication
          parsed.authentication_context in
      rw e (
        λ h.
            let found : (required_response_header (slot signature s) ≡ ok parsed.envelope.signature)
                × (required_response_header (slot wrapped_session_key s)
                    ≡ ok parsed.envelope.wrapped_session_key)
                × (required_response_header (slot remote_signing_certificate_id s)
                    ≡ ok parsed.remote_signing_certificate_id)
                × (response_cipher_text schema.response_cipher response.body s.cipher
                    ≡ ok parsed.envelope.cipher)
                × (response_context schema.authentication s.request_id
                    ≡ ok parsed.authentication_context)
                × (contains_line_break parsed.remote_signing_certificate_id ≡ false) =
              ground arith in
            record {
              signature_field = a.0 found.0;
              wrapped_field = b.0 found.1;
              certificate_field = c.0 found.2;
              one_line = found.5;
              cipher_field = d.0 found.3;
              context_field = k.0 found.4;
            },
        λ h.
            let solid : is_empty (trim parsed.remote_signing_certificate_id) ≡ false =
              rw (h.certificate_field.2.trimmed, trim_idem h.certificate_field.0)
                h.certificate_field.2.solid in
            rw
              (
                a.1 h.signature_field,
                b.1 h.wrapped_field,
                c.1 h.certificate_field,
                d.1 h.cipher_field,
                k.1 h.context_field,
                solid,
                h.one_line,
              )
              refl,
      )

  -- A response parses exactly when its headers carry, by the variables that they go into, what the
  -- schema asks for.
  pub parse_response-Parses_iff :
      (parse_response schema response ≡ ok parsed)
      ↔ Parses schema (stored schema response) response.body parsed
  parse_response-Parses_iff = elim (Result-cases (collect schema response.headers no_slots)) [
    | inl (s, e) ↦ from_slots_iff s ((collect_iff schema response.headers s).0 e) e
    | inr (x, e) ↦ (
      λ h. unfold parse_response in absurd (cc (rw e at h)),
      λ h.
          absurd
            (cc (sym e ∙ (collect_iff schema response.headers (slots_of h)).1 (slots_of-values h))),
    )
  ]
