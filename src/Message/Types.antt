-- ===== src/Message/Types.antt =====
-- The structs of src/message.rs.
use gmcrypto_envelope_lite.Base.{Option, List}
use gmcrypto_envelope_lite.Text.{Text}
use gmcrypto_envelope_lite.Auth.Types.{AuthenticationContext}
use gmcrypto_envelope_lite.Header.Collection.{HeaderCollection}

pub record SecureEnvelope : Type 0 where
  pub cipher : Text
  pub wrapped_session_key : Text
  pub signature : Text

pub record RequestMetadata : Type 0 where
  pub request_id : Text
  pub request_time : Text

pub record ProtocolRequestContext : Type 0 where
  pub operation : Text
  pub metadata : RequestMetadata

pub record RequestContext : Type 0 where
  pub protocol : ProtocolRequestContext
  pub additional_headers : HeaderCollection

pub record RequestContextBuilder : Type 0 where
  pub operation : Text
  pub metadata : Option RequestMetadata
  pub additional_headers : HeaderCollection

pub record RequestParts : Type 0 where
  pub headers : HeaderCollection
  pub body : Text

pub record ResponseParts : Type 0 where
  pub headers : List (Text × Text)
  pub body : Text

pub record ParsedResponse : Type 0 where
  pub envelope : SecureEnvelope
  pub remote_signing_certificate_id : Text
  pub authentication_context : AuthenticationContext
