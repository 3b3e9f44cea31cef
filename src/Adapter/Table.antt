-- ===== src/Adapter/Table.antt =====
-- The headers of a schema of src/adapter.rs as a table, apart from the code that lists them: what each
-- header carries, and the name that the schema gives it.
use gmcrypto_envelope_lite.Base.{◌≡◌, refl, ap, Option, some, none, List, [], ◌∷◌, ◌++◌, map}
use gmcrypto_envelope_lite.Text.{Text}
use gmcrypto_envelope_lite.Config.Types.{ClientIdentity}
use gmcrypto_envelope_lite.Header.Name
use gmcrypto_envelope_lite.Header.Value
use gmcrypto_envelope_lite.Header.Name.{HeaderName}
use gmcrypto_envelope_lite.Header.Collection.{Entry}
use gmcrypto_envelope_lite.Message.Types.{SecureEnvelope, ProtocolRequestContext}
use gmcrypto_envelope_lite.Adapter.Types.{
  CipherLocation, HeaderAuthentication, HeaderSchema, body, header, legacy, context_bound,
}
use gmcrypto_envelope_lite.Adapter.Builder
use gmcrypto_envelope_lite.Adapter.Mapping.{
  Slot, signature, wrapped_session_key, remote_signing_certificate_id, request_id, cipher,
  request_pairs, cipher_pairs,
}

-- What the headers of a request carry, behind the static ones and in the order of the request.
pub data RequestField : Type 0 where
  identity_field operation_field request_id_field request_time_field version_field : RequestField
  certificate_field signing_field encryption_field signature_field wrapped_key_field : RequestField
  cipher_field : RequestField

abbrev pub request_fields : List RequestField
request_fields =
    identity_field ∷ operation_field ∷ request_id_field ∷ request_time_field ∷ version_field
    ∷ certificate_field ∷ signing_field ∷ encryption_field ∷ signature_field ∷ wrapped_key_field
    ∷ cipher_field ∷ []

-- The header that a cipher stands in, if it is one.
abbrev pub place_header : CipherLocation → Option HeaderName
place_header body = none
place_header (header name) = some name

abbrev pub request_header : HeaderSchema → RequestField → Option HeaderName
request_header schema identity_field = some schema.local_identity_header
request_header schema operation_field = some schema.operation_header
request_header schema request_id_field = some schema.request_id_header
request_header schema request_time_field = some schema.request_time_header
request_header schema version_field = some schema.api_version_header
request_header schema certificate_field = some schema.local_certificate_header
request_header schema signing_field = some schema.remote_signing_certificate_header
request_header schema encryption_field = some schema.remote_encryption_certificate_header
request_header schema signature_field = some schema.request_signature_header
request_header schema wrapped_key_field = some schema.request_wrapped_key_header
request_header schema cipher_field = place_header schema.request_cipher

abbrev pub request_text :
    ClientIdentity → ProtocolRequestContext → SecureEnvelope → RequestField → Text
request_text identity context envelope identity_field = identity.local_identity_id
request_text identity context envelope operation_field = context.operation
request_text identity context envelope request_id_field = context.metadata.request_id
request_text identity context envelope request_time_field = context.metadata.request_time
request_text identity context envelope version_field = identity.api_version
request_text identity context envelope certificate_field = identity.local_certificate_id
request_text identity context envelope signing_field =
    identity.expected_remote_signing_certificate_id
request_text identity context envelope encryption_field = identity.remote_encryption_certificate_id
request_text identity context envelope signature_field = envelope.signature
request_text identity context envelope wrapped_key_field = envelope.wrapped_session_key
request_text identity context envelope cipher_field = envelope.cipher

-- One line for a field that has a header.
abbrev line : Option HeaderName → Text → List (Text × Text)
line none text = []
line (some name) text = (name.original, text) ∷ []

abbrev lines :
    (RequestField → Option HeaderName)
    → (RequestField → Text)
    → List RequestField
    → List (Text × Text)
lines headers texts [] = []
lines headers texts (f ∷ fs) = line (headers f) (texts f) ++ lines headers texts fs

abbrev static_lines : List Entry → List (Text × Text)
static_lines [] = []
static_lines (e ∷ es) = (e.0.original, e.1.text) ∷ static_lines es

-- The lines of a request: the static headers, then each field that has a header.
abbrev pub request_lines :
    HeaderSchema → ClientIdentity → ProtocolRequestContext → SecureEnvelope → List (Text × Text)
request_lines schema identity context envelope =
    static_lines schema.static_request_headers
    ++ lines (request_header schema) (request_text identity context envelope) request_fields

-- The request identifier is read under context-bound authentication only.
abbrev pub bound_header : HeaderAuthentication → HeaderName → Option HeaderName
bound_header legacy name = none
bound_header context_bound name = some name

-- The header that a response carries a field in, if it is read from one.
abbrev pub response_header : HeaderSchema → Slot → Option HeaderName
response_header schema signature = some schema.response_signature_header
response_header schema wrapped_session_key = some schema.response_wrapped_key_header
response_header schema remote_signing_certificate_id =
    some schema.response_remote_signing_certificate_header
response_header schema cipher = place_header schema.response_cipher
response_header schema request_id = bound_header schema.authentication schema.request_id_header

abbrev response_fields : List Slot
response_fields =
    signature ∷ wrapped_session_key ∷ remote_signing_certificate_id ∷ cipher ∷ request_id ∷ []

abbrev some_name : Option HeaderName → List HeaderName
some_name none = []
some_name (some name) = name ∷ []

-- The names of the fields that have a header.
abbrev names_of {ℓ} : {F : Type ℓ} → (F → Option HeaderName) → List F → List HeaderName
names_of headers [] = []
names_of headers (f ∷ fs) = some_name (headers f) ++ names_of headers fs

abbrev static_names : List Entry → List HeaderName
static_names [] = []
static_names (e ∷ es) = e.0 ∷ static_names es

-- All names that a request, and all that a response, has by this schema.
abbrev pub all_request_names : HeaderSchema → List HeaderName
all_request_names schema =
    static_names schema.static_request_headers ++ names_of (request_header schema) request_fields

abbrev pub all_response_names : HeaderSchema → List HeaderName
all_response_names schema = names_of (response_header schema) response_fields

map-static_names : (es : List Entry) → map (λ (e : Entry). e.0) es ≡ static_names es
map-static_names [] = refl
map-static_names (e ∷ es) = ap (λ r. e.0 ∷ r) (map-static_names es)

map-static_lines :
    (es : List Entry)
    → map (λ (e : Entry). (Name.as_str e.0, Value.as_str e.1)) es ≡ static_lines es
map-static_lines [] = refl
map-static_lines (e ∷ es) = ap (λ r. (e.0.original, e.1.text) ∷ r) (map-static_lines es)

cipher_names-place :
    (place : CipherLocation) → Builder.cipher_names place ≡ some_name (place_header place) ++ []
cipher_names-place body = refl
cipher_names-place (header name) = refl

cipher_pairs-place :
    (place : CipherLocation) (text : Text)
    → cipher_pairs place text ≡ line (place_header place) text ++ []
cipher_pairs-place body text = refl
cipher_pairs-place (header name) text = refl

tail-names :
    (place : CipherLocation) (kind : HeaderAuthentication) (id : HeaderName)
    → Builder.cipher_names place ++ Builder.request_id_names kind id
      ≡ some_name (place_header place) ++ (some_name (bound_header kind id) ++ [])
tail-names body legacy id = refl
tail-names body context_bound id = refl
tail-names (header name) legacy id = refl
tail-names (header name) context_bound id = refl

-- The code's lists are those of the table.
pub request_names-all :
    (schema : HeaderSchema) → Builder.request_names schema ≡ all_request_names schema
request_names-all schema =
    rw (map-static_names schema.static_request_headers, cipher_names-place schema.request_cipher)
      refl

pub response_names-all :
    (schema : HeaderSchema) → Builder.response_names schema ≡ all_response_names schema
response_names-all schema =
    rw (tail-names schema.response_cipher schema.authentication schema.request_id_header) refl

pub request_pairs-lines :
    (schema : HeaderSchema) (identity : ClientIdentity) (context : ProtocolRequestContext)
    (envelope : SecureEnvelope)
    → request_pairs schema identity context envelope
      ≡ request_lines schema identity context envelope
unfolding request_pairs
request_pairs-lines schema identity context envelope =
    rw
      (
        map-static_lines schema.static_request_headers,
        cipher_pairs-place schema.request_cipher envelope.cipher,
      )
      refl
