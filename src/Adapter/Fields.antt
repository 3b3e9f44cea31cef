-- ===== src/Adapter/Fields.antt =====
-- What `HeaderProtocolAdapter::parse_response` of src/adapter.rs asks of each part of a response.
use gmcrypto_envelope_lite.Base.{
  ◌≡◌, ◌↔◌, refl, arith, false, Option, some, none, List, [], ◌∷◌, any, is_empty, ok,
}
use gmcrypto_envelope_lite.Text.{Text, trim}
use gmcrypto_envelope_lite.Auth.Types.{AuthenticationContext}
use gmcrypto_envelope_lite.Auth.Context as AuthContext
use gmcrypto_envelope_lite.Header.Value
use gmcrypto_envelope_lite.Header.Value.{is_disallowed_value_character}
use gmcrypto_envelope_lite.Adapter.Types.{
  CipherLocation, HeaderAuthentication, body, header, legacy, context_bound,
}
use gmcrypto_envelope_lite.Adapter.Encoding.{IsExact, response_layout, encode_response_context_iff}
use gmcrypto_envelope_lite.Adapter.Mapping.{
  Slot, request_id, cipher, required_response_header, trimmed_nonempty, response_context,
}
use gmcrypto_envelope_lite.Adapter.Responses.{to_list}

-- A text that is not blank and has no disallowed character, and what is left without white space at
-- its ends.
pub record IsField (value field : Text) : Type 0 where
  pub legal : any is_disallowed_value_character value ≡ false
  pub solid : is_empty (trim value) ≡ false
  pub trimmed : field ≡ trim value

-- What the response's headers carry for each field.
abbrev pub Values : Type 0
Values = Slot → List Text

-- Exactly one header carries this field.
abbrev pub HasField : Values → Slot → Text → Type 0
HasField values t field = (value : Text) × (values t ≡ value ∷ []) × IsField value field

-- Where the cipher stands: it is the trimmed body, or the one header that carries it.
abbrev pub HasCipher : CipherLocation → Values → Text → Text → Type 0
HasCipher body values stated text = (is_empty (trim stated) ≡ false) × (text ≡ trim stated)
HasCipher (header name) values stated text = HasField values cipher text

-- What a request identifier must be for a context-bound response.
abbrev pub IsResponseId : Text → AuthenticationContext → Type 0
IsResponseId id context =
    (any is_disallowed_value_character id ≡ false) × IsExact id × (context ≡ response_layout id)

-- The context under which the response is opened: the legacy one, or that of the one request
-- identifier.
abbrev pub HasContext : HeaderAuthentication → Values → AuthenticationContext → Type 0
HasContext legacy values context = context ≡ AuthContext.legacy
HasContext context_bound values context =
    (id : Text) × (values request_id ≡ id ∷ []) × IsResponseId id context

given_iff :
    (value field : Text) → (required_response_header (some value) ≡ ok field) ↔ IsField value field
unfolding required_response_header trimmed_nonempty Value.new
given_iff value field = ground arith

pub required_response_header_iff :
    (o : Option Text) (field : Text)
    → (required_response_header o ≡ ok field)
      ↔ ((value : Text) × (o ≡ some value) × IsField value field)
unfolding required_response_header
required_response_header_iff none field = (λ e. cc, λ h. cc (h.1))
required_response_header_iff (some value) field = (
  λ e. (value, refl, (given_iff value field).0 e),
  λ h. let same : h.0 ≡ value = cc (h.1) in (given_iff value field).1 (rw same at h.2),
)

pub to_list-one : (o : Option Text) (v : Text) → (to_list o ≡ v ∷ []) ↔ (o ≡ some v)
to_list-one none v = ground arith
to_list-one (some w) v = ground arith

given_context_iff :
    (id : Text) (context : AuthenticationContext)
    → (response_context context_bound (some id) ≡ ok context) ↔ IsResponseId id context
unfolding Value.new
given_context_iff id context = ground (arith, encode_response_context_iff id context)

pub response_context_iff :
    (o : Option Text) (context : AuthenticationContext)
    → (response_context context_bound o ≡ ok context)
      ↔ ((id : Text) × (o ≡ some id) × IsResponseId id context)
response_context_iff none context = (λ e. cc, λ h. cc (h.1))
response_context_iff (some id) context = (
  λ e. (id, refl, (given_context_iff id context).0 e),
  λ h. let same : h.0 ≡ id = cc (h.1) in (given_context_iff id context).1 (rw same at h.2),
)
