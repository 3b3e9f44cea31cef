-- ===== src/Adapter/Respond.antt =====
-- A response with the headers of a schema, as `parse_response` of src/adapter.rs reads it: the
-- collision check makes every one of its headers go to its own variable.
use gmcrypto_envelope_lite.Base.{
  ◌≡◌, refl, sym, ap, subst, ◌∙◌, arith, false, List, [], ◌∷◌, ◌++◌, if◌then◌else◌, All, any,
  is_empty, ok,
}
use gmcrypto_envelope_lite.Text.{Text, trim, contains_line_break}
use gmcrypto_envelope_lite.Auth.Types.{AuthenticationContext}
use gmcrypto_envelope_lite.Auth.Context as AuthContext
use gmcrypto_envelope_lite.Header.Name.{HeaderName}
use gmcrypto_envelope_lite.Header.Laws.{IsName}
use gmcrypto_envelope_lite.Header.Value.{is_disallowed_value_character}
use gmcrypto_envelope_lite.Message.Types.{SecureEnvelope, ResponseParts}
use gmcrypto_envelope_lite.Message.Parts
use gmcrypto_envelope_lite.Adapter.Types.{
  CipherLocation, HeaderAuthentication, HeaderSchema, body, header, legacy, context_bound,
}
use gmcrypto_envelope_lite.Adapter.Builder.{response_names}
use gmcrypto_envelope_lite.Adapter.Encoding.{IsExact, response_layout}
use gmcrypto_envelope_lite.Adapter.Mapping.{
  Slot, signature, wrapped_session_key, remote_signing_certificate_id, request_id, cipher, pair,
  cipher_pairs, body_of, parse_response,
}
use gmcrypto_envelope_lite.Adapter.Fields.{IsField, HasCipher, HasContext}
use gmcrypto_envelope_lite.Adapter.Parsed.{stored, parse_response-Parses_iff}
use gmcrypto_envelope_lite.Adapter.Responses.{values_for, same_slot}
use gmcrypto_envelope_lite.Adapter.Schema.{AllDistinct}
use gmcrypto_envelope_lite.Adapter.Targets.{
  target_signature, target_wrapped, target_certificate, target_request_id, target_cipher,
}

-- The header of the request identifier, where it is read.
abbrev pub id_pairs : HeaderAuthentication → HeaderName → Text → List (Text × Text)
id_pairs legacy name id = []
id_pairs context_bound name id = pair name id ∷ []

-- The texts that these headers carry.
abbrev cipher_texts : CipherLocation → Text → List Text
cipher_texts body c = []
cipher_texts (header name) c = c ∷ []

abbrev id_texts : HeaderAuthentication → Text → List Text
id_texts legacy id = []
id_texts context_bound id = id ∷ []

-- The response that carries an envelope, a certificate and a request identifier under this schema.
abbrev pub respond : HeaderSchema → SecureEnvelope → Text → Text → ResponseParts
respond schema envelope certificate id =
    Parts.response
      (pair schema.response_signature_header envelope.signature
        ∷ pair schema.response_wrapped_key_header envelope.wrapped_session_key
        ∷ pair schema.response_remote_signing_certificate_header certificate
        ∷ (cipher_pairs schema.response_cipher envelope.cipher
            ++ id_pairs schema.authentication schema.request_id_header id))
      (body_of schema.response_cipher envelope.cipher)

-- A request identifier that a response can be bound to.
abbrev pub IsBindable : HeaderAuthentication → Text → Type 0
IsBindable legacy id = Unit
IsBindable context_bound id = (any is_disallowed_value_character id ≡ false) × IsExact id

-- Texts that arrive unchanged: legal header values, not blank, without white space at their ends.
pub record Carries (schema : HeaderSchema) (envelope : SecureEnvelope) (certificate id : Text)
    : Type 0 where
  pub signature : IsField envelope.signature envelope.signature
  pub wrapped : IsField envelope.wrapped_session_key envelope.wrapped_session_key
  pub cipher : IsField envelope.cipher envelope.cipher
  pub certificate_field : IsField certificate certificate
  pub one_line : contains_line_break certificate ≡ false
  pub bindable : IsBindable schema.authentication id

-- The context that the response is sealed under.
abbrev pub context_of : HeaderAuthentication → Text → AuthenticationContext
context_of legacy id = AuthContext.legacy
context_of context_bound id = response_layout id

module _ (schema : HeaderSchema) (distinct : AllDistinct (response_names schema))
    (names : All IsName (response_names schema)) where
  -- What the headers behind the first three carry for a variable.
  tail_values :
      (place : CipherLocation) (kind : HeaderAuthentication) (c id : Text) (t : Slot)
      → schema.response_cipher ≡ place
      → schema.authentication ≡ kind
      → values_for schema t (cipher_pairs place c ++ id_pairs kind schema.request_id_header id)
        ≡ (if same_slot cipher t then cipher_texts place c else [])
          ++ (if same_slot request_id t then id_texts kind id else [])
  unfolding values_for
  tail_values body legacy c id t e f = ground arith
  tail_values body context_bound c id t e f =
      rw (target_request_id schema distinct names f) (ground arith)
  tail_values (header name) legacy c id t e f =
      rw (target_cipher schema distinct names name e) (ground arith)
  tail_values (header name) context_bound c id t e f =
      rw (target_cipher schema distinct names name e, target_request_id schema distinct names f)
        (ground arith)

  -- What all headers of the response carry for a variable.
  respond-values :
      (envelope : SecureEnvelope) (certificate id : Text) (t : Slot)
      → values_for schema t (respond schema envelope certificate id).headers
        ≡ (if same_slot signature t then envelope.signature ∷ [] else [])
          ++ ((if same_slot wrapped_session_key t then envelope.wrapped_session_key ∷ [] else [])
              ++ ((if same_slot remote_signing_certificate_id t then certificate ∷ [] else [])
                  ++ ((if same_slot cipher t
                        then cipher_texts schema.response_cipher envelope.cipher
                        else [])
                      ++ (if same_slot request_id t
                          then id_texts schema.authentication id
                          else []))))
  unfolding values_for
  respond-values envelope certificate id t =
      rw
        (
          target_signature schema distinct names,
          target_wrapped schema distinct names,
          target_certificate schema distinct names,
          tail_values schema.response_cipher schema.authentication envelope.cipher id t refl refl,
        )
        refl

  module _ (envelope : SecureEnvelope) (certificate id : Text)
      (carries : Carries schema envelope certificate id) where
    cipher_lem :
        (place : CipherLocation)
        → schema.response_cipher ≡ place
        → HasCipher place
            (stored schema (respond schema envelope certificate id))
            (body_of schema.response_cipher envelope.cipher)
            envelope.cipher
    cipher_lem body e =
        subst
          (λ l.
            (is_empty (trim (body_of l envelope.cipher)) ≡ false)
            × (envelope.cipher ≡ trim (body_of l envelope.cipher)))
          (sym e) (carries.cipher.solid, carries.cipher.trimmed)
    cipher_lem (header name) e = (
      envelope.cipher,
      respond-values envelope certificate id cipher
          ∙ ap (λ l. cipher_texts l envelope.cipher ++ []) e,
      carries.cipher,
    )

    context_lem :
        (kind : HeaderAuthentication)
        → schema.authentication ≡ kind
        → HasContext kind
            (stored schema (respond schema envelope certificate id))
            (context_of kind id)
    context_lem legacy e = refl
    context_lem context_bound e =
        let b : IsBindable context_bound id = subst (λ k. IsBindable k id) e carries.bindable in
        (
          id,
          respond-values envelope certificate id request_id ∙ ap (λ k. id_texts k id) e,
          (b.0, b.1, refl),
        )

    -- A response with the headers of a schema without collisions parses, and to just what it carries:
    -- the envelope, the certificate, and the context of its request identifier.
    pub parse_response-respond :
        parse_response schema (respond schema envelope certificate id)
        ≡ ok (record {
          envelope = envelope;
          remote_signing_certificate_id = certificate;
          authentication_context = context_of schema.authentication id;
        })
    parse_response-respond =
        (parse_response-Parses_iff schema (respond schema envelope certificate id) _).1 (record {
          signature_field = (
            envelope.signature,
            respond-values envelope certificate id signature,
            carries.signature,
          );
          wrapped_field = (
            envelope.wrapped_session_key,
            respond-values envelope certificate id wrapped_session_key,
            carries.wrapped,
          );
          certificate_field = (
            certificate,
            respond-values envelope certificate id remote_signing_certificate_id,
            carries.certificate_field,
          );
          one_line = carries.one_line;
          cipher_field = cipher_lem schema.response_cipher refl;
          context_field = context_lem schema.authentication refl;
        })
