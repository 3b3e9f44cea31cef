-- ===== src/Adapter/Builder.antt =====
-- `HeaderSchemaBuilder` and `HeaderSchema::validate_collisions` of src/adapter.rs. The set of names
-- is a list; a name is in it when an equal name is.
use gmcrypto_envelope_lite.Base.{
  true, false, not, ◌&&◌, ◌||◌, any, is_empty, is_some, Option, some, none, List, [], ◌∷◌, ◌++◌,
  map, ok, ◌>>=◌, ◌>>◌, ok_or, fail_if, map_err, if◌then◌else◌,
}
use gmcrypto_envelope_lite.Text.{Text, trim}
use gmcrypto_envelope_lite.Error.{AdapterResult, adapter_error, invalid_mapping, missing_field}
use gmcrypto_envelope_lite.Header.Name
use gmcrypto_envelope_lite.Header.Name.{HeaderName, name_eq}
use gmcrypto_envelope_lite.Header.Value
use gmcrypto_envelope_lite.Header.Collection.{Entry}
use gmcrypto_envelope_lite.Adapter.Types.{
  CipherLocation, HeaderAuthentication, HeaderSchema, HeaderSchemaBuilder, body, header, legacy,
  context_bound,
}

-- `HeaderSchema::builder`
abbrev pub builder : HeaderSchemaBuilder
builder = record {
  static_request_headers = [];
  local_identity_header = none;
  operation_header = none;
  request_id_header = none;
  request_time_header = none;
  api_version_header = none;
  local_certificate_header = none;
  remote_signing_certificate_header = none;
  remote_encryption_certificate_header = none;
  request_signature_header = none;
  request_wrapped_key_header = none;
  response_signature_header = none;
  response_wrapped_key_header = none;
  response_remote_signing_certificate_header = none;
  request_cipher = none;
  response_cipher = none;
  legacy_authentication = false;
  context_bound_authentication = false;
}

unfoldable pub static_request_header : Text → Text → HeaderSchemaBuilder → HeaderSchemaBuilder
static_request_header name value b = record b {
  static_request_headers = b.static_request_headers ++ (name, value) ∷ [];
}

unfoldable pub local_identity_header : Text → HeaderSchemaBuilder → HeaderSchemaBuilder
local_identity_header name b = record b { local_identity_header = some name }

unfoldable pub operation_header : Text → HeaderSchemaBuilder → HeaderSchemaBuilder
operation_header name b = record b { operation_header = some name }

unfoldable pub request_id_header : Text → HeaderSchemaBuilder → HeaderSchemaBuilder
request_id_header name b = record b { request_id_header = some name }

unfoldable pub request_time_header : Text → HeaderSchemaBuilder → HeaderSchemaBuilder
request_time_header name b = record b { request_time_header = some name }

unfoldable pub api_version_header : Text → HeaderSchemaBuilder → HeaderSchemaBuilder
api_version_header name b = record b { api_version_header = some name }

unfoldable pub local_certificate_header : Text → HeaderSchemaBuilder → HeaderSchemaBuilder
local_certificate_header name b = record b { local_certificate_header = some name }

unfoldable pub remote_signing_certificate_header : Text → HeaderSchemaBuilder → HeaderSchemaBuilder
remote_signing_certificate_header name b = record b {
  remote_signing_certificate_header = some name;
}

unfoldable pub remote_encryption_certificate_header :
    Text → HeaderSchemaBuilder → HeaderSchemaBuilder
remote_encryption_certificate_header name b = record b {
  remote_encryption_certificate_header = some name;
}

unfoldable pub request_signature_header : Text → HeaderSchemaBuilder → HeaderSchemaBuilder
request_signature_header name b = record b { request_signature_header = some name }

unfoldable pub request_wrapped_key_header : Text → HeaderSchemaBuilder → HeaderSchemaBuilder
request_wrapped_key_header name b = record b { request_wrapped_key_header = some name }

unfoldable pub response_signature_header : Text → HeaderSchemaBuilder → HeaderSchemaBuilder
response_signature_header name b = record b { response_signature_header = some name }

unfoldable pub response_wrapped_key_header : Text → HeaderSchemaBuilder → HeaderSchemaBuilder
response_wrapped_key_header name b = record b { response_wrapped_key_header = some name }

unfoldable pub response_remote_signing_certificate_header :
    Text → HeaderSchemaBuilder → HeaderSchemaBuilder
response_remote_signing_certificate_header name b = record b {
  response_remote_signing_certificate_header = some name;
}

unfoldable pub request_cipher : CipherLocation → HeaderSchemaBuilder → HeaderSchemaBuilder
request_cipher location b = record b { request_cipher = some location }

unfoldable pub response_cipher : CipherLocation → HeaderSchemaBuilder → HeaderSchemaBuilder
response_cipher location b = record b { response_cipher = some location }

unfoldable pub legacy_authentication : HeaderSchemaBuilder → HeaderSchemaBuilder
legacy_authentication b = record b { legacy_authentication = true }

unfoldable pub context_bound_authentication : HeaderSchemaBuilder → HeaderSchemaBuilder
context_bound_authentication b = record b { context_bound_authentication = true }

unfoldable pub required_header : Option Text → AdapterResult HeaderName
required_header value = do
  text ← ok_or value (adapter_error missing_field)
  map_err (λ _. adapter_error invalid_mapping) (Name.new text)

-- The closure that `build` maps over the static headers.
unfoldable pub static_entry : Text × Text → AdapterResult Entry
static_entry (name, value) = do
  fail_if (is_empty (trim value)) (adapter_error invalid_mapping)
  name' ← map_err (λ _. adapter_error invalid_mapping) (Name.new name)
  value' ← map_err (λ _. adapter_error invalid_mapping) (Value.new value)
  ok (name', value')

-- `map` and `collect` over the static headers.
unfoldable pub static_entries : List (Text × Text) → AdapterResult (List Entry)
static_entries [] = ok []
static_entries (p ∷ ps) = do e ← static_entry p; es ← static_entries ps; ok (e ∷ es)

-- `insert_mapping`, with the set that it leaves behind.
unfoldable pub insert_mapping : HeaderName → List HeaderName → AdapterResult (List HeaderName)
insert_mapping name names = do
  fail_if (any (λ n. name_eq n name) names) (adapter_error invalid_mapping)
  ok (name ∷ names)

-- The loops over the names of one direction.
unfoldable pub insert_mappings : List HeaderName → List HeaderName → AdapterResult (List HeaderName)
insert_mappings [] names = ok names
insert_mappings (name ∷ rest) names = do
  names' ← insert_mapping name names
  insert_mappings rest names'

abbrev pub cipher_names : CipherLocation → List HeaderName
cipher_names body = []
cipher_names (header name) = name ∷ []

abbrev pub request_id_names : HeaderAuthentication → HeaderName → List HeaderName
request_id_names context_bound name = name ∷ []
request_id_names legacy name = []

-- The names in the order in which the collision check takes them.
abbrev pub request_names : HeaderSchema → List HeaderName
request_names schema =
    map (λ (e : Entry). e.0) schema.static_request_headers
    ++ (schema.local_identity_header
        ∷ schema.operation_header
        ∷ schema.request_id_header
        ∷ schema.request_time_header
        ∷ schema.api_version_header
        ∷ schema.local_certificate_header
        ∷ schema.remote_signing_certificate_header
        ∷ schema.remote_encryption_certificate_header
        ∷ schema.request_signature_header
        ∷ schema.request_wrapped_key_header
        ∷ cipher_names schema.request_cipher)

abbrev pub response_names : HeaderSchema → List HeaderName
response_names schema =
    schema.response_signature_header
    ∷ schema.response_wrapped_key_header
    ∷ schema.response_remote_signing_certificate_header
    ∷ (cipher_names schema.response_cipher
        ++ request_id_names schema.authentication schema.request_id_header)

unfoldable pub validate_collisions : HeaderSchema → AdapterResult (Unit {0})
validate_collisions schema = do
  insert_mappings (request_names schema) []
  insert_mappings (response_names schema) []
  ok tt

unfoldable pub build : HeaderSchemaBuilder → AdapterResult HeaderSchema
build b = do
  fail_if
      (is_empty b.static_request_headers
        || not (is_some b.request_cipher)
        || not (is_some b.response_cipher))
      (adapter_error missing_field)
  fail_if (b.legacy_authentication && b.context_bound_authentication)
      (adapter_error invalid_mapping)
  fail_if (not b.legacy_authentication && not b.context_bound_authentication)
      (adapter_error missing_field)
  statics ← static_entries b.static_request_headers
  h0 ← required_header b.local_identity_header
  h1 ← required_header b.operation_header
  h2 ← required_header b.request_id_header
  h3 ← required_header b.request_time_header
  h4 ← required_header b.api_version_header
  h5 ← required_header b.local_certificate_header
  h6 ← required_header b.remote_signing_certificate_header
  h7 ← required_header b.remote_encryption_certificate_header
  h8 ← required_header b.request_signature_header
  h9 ← required_header b.request_wrapped_key_header
  h10 ← ok_or b.request_cipher (adapter_error missing_field)
  h11 ← required_header b.response_signature_header
  h12 ← required_header b.response_wrapped_key_header
  h13 ← required_header b.response_remote_signing_certificate_header
  h14 ← ok_or b.response_cipher (adapter_error missing_field)
  let schema : HeaderSchema = record {
    static_request_headers = statics;
    local_identity_header = h0;
    operation_header = h1;
    request_id_header = h2;
    request_time_header = h3;
    api_version_header = h4;
    local_certificate_header = h5;
    remote_signing_certificate_header = h6;
    remote_encryption_certificate_header = h7;
    request_signature_header = h8;
    request_wrapped_key_header = h9;
    request_cipher = h10;
    response_signature_header = h11;
    response_wrapped_key_header = h12;
    response_remote_signing_certificate_header = h13;
    response_cipher = h14;
    authentication = if b.context_bound_authentication then context_bound else legacy;
  }
  validate_collisions schema
  ok schema
