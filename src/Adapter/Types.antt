-- ===== src/Adapter/Types.antt =====
-- The structs and enums of src/adapter.rs, and the trait `ProtocolAdapter` as a record of functions.
use gmcrypto_envelope_lite.Base.{Bool, Option, List}
use gmcrypto_envelope_lite.Text.{Text}
use gmcrypto_envelope_lite.Error.{AdapterResult}
use gmcrypto_envelope_lite.Auth.Types.{AuthenticationContext}
use gmcrypto_envelope_lite.Config.Types.{ClientIdentity}
use gmcrypto_envelope_lite.Header.Name.{HeaderName}
use gmcrypto_envelope_lite.Header.Collection.{Entry}
use gmcrypto_envelope_lite.Message.Types.{
  SecureEnvelope, ProtocolRequestContext, RequestParts, ResponseParts, ParsedResponse,
}

pub data AdapterAuthentication : Type 0 where
  legacy_plaintext context_bound : AdapterAuthentication

pub data CipherLocation : Type 0 where
  body : CipherLocation
  header : HeaderName → CipherLocation

pub data HeaderAuthentication : Type 0 where
  legacy context_bound : HeaderAuthentication

pub record HeaderSchema : Type 0 where
  pub static_request_headers : List Entry
  pub local_identity_header : HeaderName
  pub operation_header : HeaderName
  pub request_id_header : HeaderName
  pub request_time_header : HeaderName
  pub api_version_header : HeaderName
  pub local_certificate_header : HeaderName
  pub remote_signing_certificate_header : HeaderName
  pub remote_encryption_certificate_header : HeaderName
  pub request_signature_header : HeaderName
  pub request_wrapped_key_header : HeaderName
  pub request_cipher : CipherLocation
  pub response_signature_header : HeaderName
  pub response_wrapped_key_header : HeaderName
  pub response_remote_signing_certificate_header : HeaderName
  pub response_cipher : CipherLocation
  pub authentication : HeaderAuthentication

pub record HeaderSchemaBuilder : Type 0 where
  pub static_request_headers : List (Text × Text)
  pub local_identity_header : Option Text
  pub operation_header : Option Text
  pub request_id_header : Option Text
  pub request_time_header : Option Text
  pub api_version_header : Option Text
  pub local_certificate_header : Option Text
  pub remote_signing_certificate_header : Option Text
  pub remote_encryption_certificate_header : Option Text
  pub request_signature_header : Option Text
  pub request_wrapped_key_header : Option Text
  pub request_cipher : Option CipherLocation
  pub response_signature_header : Option Text
  pub response_wrapped_key_header : Option Text
  pub response_remote_signing_certificate_header : Option Text
  pub response_cipher : Option CipherLocation
  pub legacy_authentication : Bool
  pub context_bound_authentication : Bool

-- The methods of `ProtocolAdapter`.
pub record ProtocolAdapter : Type 0 where
  pub request_authentication_context :
      ClientIdentity → ProtocolRequestContext → AdapterResult AuthenticationContext
  pub build_request :
      ClientIdentity → ProtocolRequestContext → SecureEnvelope → AdapterResult RequestParts
  pub parse_response : ResponseParts → AdapterResult ParsedResponse
  pub pinned_authentication : Option AdapterAuthentication
