-- ===== src/Adapter/Mapping.antt =====
-- `HeaderProtocolAdapter` of src/adapter.rs. The five local variables that `parse_response` fills
-- are a record, and the variable that a header is stored in is a value of `Slot`.
use gmcrypto_envelope_lite.Base.{
  ◌&&◌, Bool, true, false, Option, some, none, is_some, is_empty, List, [], ◌∷◌, ◌++◌, map, ok,
  ◌>>=◌, ◌>>◌, ok_or, fail_if, map_err, if◌then◌else◌,
}
use gmcrypto_envelope_lite.Text.{Text, trim, eq_ignore_ascii_case}
use gmcrypto_envelope_lite.Error.{
  AdapterResult, adapter_error, missing_field, invalid_field, duplicate_field,
}
use gmcrypto_envelope_lite.Auth.Types.{AuthenticationContext}
use gmcrypto_envelope_lite.Auth.Context as AuthContext
use gmcrypto_envelope_lite.Config.Types.{ClientIdentity}
use gmcrypto_envelope_lite.Header.Name.{HeaderName}
use gmcrypto_envelope_lite.Header.Name
use gmcrypto_envelope_lite.Header.Value
use gmcrypto_envelope_lite.Header.Collection.{Entry}
use gmcrypto_envelope_lite.Message.Types.{
  SecureEnvelope, ProtocolRequestContext, RequestParts, ResponseParts, ParsedResponse,
}
use gmcrypto_envelope_lite.Message.Parts
use gmcrypto_envelope_lite.Adapter.Types.{
  AdapterAuthentication, CipherLocation, HeaderAuthentication, HeaderSchema, ProtocolAdapter, body,
  header, legacy, context_bound,
}
use gmcrypto_envelope_lite.Adapter.Context.{encode_request_context, encode_response_context}

abbrev pub pair : HeaderName → Text → Text × Text
pair name value = (Name.as_str name, value)

unfoldable pub validate_nonempty : Text → AdapterResult (Unit {0})
validate_nonempty value = fail_if (is_empty (trim value)) (adapter_error invalid_field)

unfoldable pub trimmed_nonempty : Text → AdapterResult Text
trimmed_nonempty value = do
  fail_if (is_empty (trim value)) (adapter_error invalid_field)
  ok (trim value)

unfoldable pub required_response_header : Option Text → AdapterResult Text
required_response_header value = do
  text ← ok_or value (adapter_error missing_field)
  map_err (λ _. adapter_error invalid_field) (Value.new text)
  trimmed_nonempty text

unfoldable pub context_for :
    HeaderAuthentication → ProtocolRequestContext → AdapterResult AuthenticationContext
context_for legacy context = ok AuthContext.legacy
context_for context_bound context =
    encode_request_context context.operation context.metadata.request_id

abbrev pub pinned_kind : HeaderAuthentication → AdapterAuthentication
pinned_kind legacy = AdapterAuthentication.legacy_plaintext
pinned_kind context_bound = AdapterAuthentication.context_bound

abbrev pub cipher_pairs : CipherLocation → Text → List (Text × Text)
cipher_pairs body cipher = []
cipher_pairs (header name) cipher = pair name cipher ∷ []

abbrev pub body_of : CipherLocation → Text → Text
body_of body cipher = cipher
body_of (header name) cipher = []

-- The headers that `build_request` collects.
unfoldable pub request_pairs :
    HeaderSchema → ClientIdentity → ProtocolRequestContext → SecureEnvelope → List (Text × Text)
request_pairs schema identity context envelope =
    map (λ (e : Entry). (Name.as_str e.0, Value.as_str e.1)) schema.static_request_headers
    ++ (pair schema.local_identity_header identity.local_identity_id
        ∷ pair schema.operation_header context.operation
        ∷ pair schema.request_id_header context.metadata.request_id
        ∷ pair schema.request_time_header context.metadata.request_time
        ∷ pair schema.api_version_header identity.api_version
        ∷ pair schema.local_certificate_header identity.local_certificate_id
        ∷ pair schema.remote_signing_certificate_header
            identity.expected_remote_signing_certificate_id
        ∷ pair schema.remote_encryption_certificate_header identity.remote_encryption_certificate_id
        ∷ pair schema.request_signature_header envelope.signature
        ∷ pair schema.request_wrapped_key_header envelope.wrapped_session_key
        ∷ cipher_pairs schema.request_cipher envelope.cipher)

unfoldable pub build_request :
    HeaderSchema
    → ClientIdentity
    → ProtocolRequestContext
    → SecureEnvelope
    → AdapterResult RequestParts
build_request schema identity context envelope = do
  validate_nonempty envelope.signature
  validate_nonempty envelope.wrapped_session_key
  validate_nonempty envelope.cipher
  map_err (λ _. adapter_error invalid_field)
      (Parts.new (request_pairs schema identity context envelope)
        (body_of schema.request_cipher envelope.cipher))

pub data Slot : Type 0 where
  signature wrapped_session_key remote_signing_certificate_id request_id cipher : Slot

pub record Slots : Type 0 where
  pub signature : Option Text
  pub wrapped_session_key : Option Text
  pub remote_signing_certificate_id : Option Text
  pub cipher : Option Text
  pub request_id : Option Text

abbrev pub no_slots : Slots
no_slots = record {
  signature = none;
  wrapped_session_key = none;
  remote_signing_certificate_id = none;
  cipher = none;
  request_id = none;
}

abbrev pub is_named : Text → HeaderName → Bool
is_named name header_name = eq_ignore_ascii_case name (Name.as_str header_name)

abbrev pub cipher_slot : CipherLocation → Text → Option Slot
cipher_slot body name = none
cipher_slot (header cipher_header) name = if is_named name cipher_header then some cipher else none

abbrev pub is_context_bound : HeaderAuthentication → Bool
is_context_bound legacy = false
is_context_bound context_bound = true

-- The variable that a header goes into, by the first test that holds.
unfoldable pub target : HeaderSchema → Text → Option Slot
target schema name =
    if is_named name schema.response_signature_header
    then some signature
    else if is_named name schema.response_wrapped_key_header
    then some wrapped_session_key
    else if is_named name schema.response_remote_signing_certificate_header
    then some remote_signing_certificate_id
    else if is_context_bound schema.authentication && is_named name schema.request_id_header
    then some request_id
    else cipher_slot schema.response_cipher name

abbrev pub slot : Slot → Slots → Option Text
slot signature s = s.signature
slot wrapped_session_key s = s.wrapped_session_key
slot remote_signing_certificate_id s = s.remote_signing_certificate_id
slot request_id s = s.request_id
slot cipher s = s.cipher

abbrev pub store : Slot → Text → Slots → Slots
store signature value s = record s { signature = some value }
store wrapped_session_key value s = record s { wrapped_session_key = some value }
store remote_signing_certificate_id value s = record s {
  remote_signing_certificate_id = some value;
}
store request_id value s = record s { request_id = some value }
store cipher value s = record s { cipher = some value }

-- `replace` with the test on what was there.
unfoldable pub replace : Option Slot → Text → Slots → AdapterResult Slots
replace none value s = ok s
replace (some t) value s = do
  fail_if (is_some (slot t s)) (adapter_error duplicate_field)
  ok (store t value s)

-- The loop over the response's headers.
unfoldable pub collect : HeaderSchema → List (Text × Text) → Slots → AdapterResult Slots
collect schema [] s = ok s
collect schema ((name, value) ∷ rest) s = do
  s' ← replace (target schema name) value s
  collect schema rest s'

abbrev pub response_cipher_text : CipherLocation → Text → Option Text → AdapterResult Text
response_cipher_text body text value = trimmed_nonempty text
response_cipher_text (header name) text value = required_response_header value

abbrev pub response_context :
    HeaderAuthentication → Option Text → AdapterResult AuthenticationContext
response_context legacy value = ok AuthContext.legacy
response_context context_bound value = do
  text ← ok_or value (adapter_error missing_field)
  map_err (λ _. adapter_error invalid_field) (Value.new text)
  encode_response_context text

unfoldable pub parse_response : HeaderSchema → ResponseParts → AdapterResult ParsedResponse
parse_response schema response = do
  let (headers, text) = Parts.into_parts response
  s ← collect schema headers no_slots
  signature' ← required_response_header s.signature
  wrapped' ← required_response_header s.wrapped_session_key
  certificate ← required_response_header s.remote_signing_certificate_id
  cipher' ← response_cipher_text schema.response_cipher text s.cipher
  context ← response_context schema.authentication s.request_id
  Parts.parsed (record { cipher = cipher'; wrapped_session_key = wrapped'; signature = signature' })
      certificate context

-- `HeaderProtocolAdapter`, from its schema.
unfoldable pub header_protocol_adapter : HeaderSchema → ProtocolAdapter
header_protocol_adapter schema = record {
  request_authentication_context = λ _ context. context_for schema.authentication context;
  build_request = build_request schema;
  parse_response = parse_response schema;
  pinned_authentication = some (pinned_kind schema.authentication);
}
