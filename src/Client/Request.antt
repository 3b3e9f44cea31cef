-- ===== src/Client/Request.antt =====
-- `RequestBuilder` of src/request.rs. The clock's answer is an argument, as in Message/Metadata.antt.
use gmcrypto_envelope_lite.Base.{Option, some, none, ok}
use gmcrypto_envelope_lite.Base as Base
use gmcrypto_envelope_lite.Bytes.{Bytes}
use gmcrypto_envelope_lite.Text.{Text}
use gmcrypto_envelope_lite.Error.{Fallible}
use gmcrypto_envelope_lite.Core.{Core}
use gmcrypto_envelope_lite.Header.Collection.{HeaderCollection, default, settle, insert, into_pairs}
use gmcrypto_envelope_lite.Message.Types.{RequestMetadata, RequestContext, RequestParts}
use gmcrypto_envelope_lite.Message.Time.{Duration}
use gmcrypto_envelope_lite.Message.Context.{from_parts, metadata_or_generate}
use gmcrypto_envelope_lite.Envelope.Action.{Action, ◌>>=◌, pure, lift}
use gmcrypto_envelope_lite.Client.Calls.{SecureClient, build_request, serialize_json}

pub record RequestBuilder (core : Core) : Type 0 where
  pub client : SecureClient core
  pub operation : Text
  pub metadata : Option RequestMetadata
  pub headers : HeaderCollection

module _ (core : Core) where
  -- `RequestBuilder::new`, which `SecureClient::request` calls
  abbrev pub new : SecureClient core → Text → RequestBuilder core
  new client operation = record {
    client = client;
    operation = operation;
    metadata = none;
    headers = default;
  }

  unfoldable pub metadata : RequestMetadata → RequestBuilder core → RequestBuilder core
  metadata value b = record b { metadata = some value }

  unfoldable pub header : Text → Text → RequestBuilder core → Fallible (RequestBuilder core)
  header name value b =
      Base.◌>>=◌ (settle (insert name value b.headers))
        (λ headers. ok (record b { headers = headers }))

  unfoldable pub into_context :
      Option Duration → RequestBuilder core → Action core.Rng (SecureClient core × RequestContext)
  into_context now b = do
    value ← metadata_or_generate core now b.metadata
    context ← lift (from_parts b.operation value (into_pairs b.headers))
    pure (b.client, context)

  unfoldable pub bytes :
      Option Duration → Bytes → RequestBuilder core → Action core.Rng RequestParts
  bytes now plaintext b = do
    parts ← into_context now b
    build_request core parts.0 plaintext parts.1

  unfoldable pub json :
      {T : Type 0}
      → (T → Option Bytes)
      → Option Duration
      → T
      → RequestBuilder core
      → Action core.Rng RequestParts
  json serialize now value b = do
    parts ← into_context now b
    plaintext ← lift (serialize_json core serialize value)
    build_request core parts.0 plaintext parts.1
