-- ===== src/Message/Context.antt =====
-- `RequestContext` and `RequestContextBuilder` of src/message.rs.
use gmcrypto_envelope_lite.Base.{ℕ, Bool, Option, none, some, List, ok, ◌>>=◌, ◌>>◌}
use mathlib.Core.Option
use gmcrypto_envelope_lite.Text.{Text}
use gmcrypto_envelope_lite.Error.{Fallible}
use gmcrypto_envelope_lite.Core.{Core}
use gmcrypto_envelope_lite.Header.Value
use gmcrypto_envelope_lite.Header.Collection.{
  Entry, HeaderCollection, default, settle, insert, revalidate, from_typed_pairs, get, count,
  has_none, into_pairs,
}
use gmcrypto_envelope_lite.Envelope.Action
use gmcrypto_envelope_lite.Envelope.Action.{Action, pure, lift}
use gmcrypto_envelope_lite.Message.Types.{
  RequestMetadata, ProtocolRequestContext, RequestContext, RequestContextBuilder,
}
use gmcrypto_envelope_lite.Message.Time.{Duration}
use gmcrypto_envelope_lite.Message.Metadata.{generate, new_protocol}

-- `RequestContext::from_parts`
unfoldable pub from_parts : Text → RequestMetadata → List Entry → Fallible RequestContext
from_parts operation metadata additional_headers = do
  headers ← from_typed_pairs additional_headers
  revalidate headers
  protocol ← new_protocol operation metadata
  ok (record { protocol = protocol; additional_headers = headers })

-- `RequestContext::header`
abbrev pub header_of : RequestContext → Text → Option Text
header_of context name = Option.map Value.as_str (get name context.additional_headers)

-- `RequestContext::len` and `is_empty`
abbrev pub len_of : RequestContext → ℕ
len_of context = count context.additional_headers

abbrev pub is_empty_of : RequestContext → Bool
is_empty_of context = has_none context.additional_headers

-- `RequestContext::into_parts`
abbrev pub into_parts : RequestContext → ProtocolRequestContext × HeaderCollection
into_parts context = (context.protocol, context.additional_headers)

-- `RequestContextBuilder::new`, which `RequestContext::builder` calls
abbrev pub builder : Text → RequestContextBuilder
builder operation = record { operation = operation; metadata = none; additional_headers = default }

-- `RequestContextBuilder::metadata`
unfoldable pub metadata : RequestMetadata → RequestContextBuilder → RequestContextBuilder
metadata value b = record b { metadata = some value }

-- `RequestContextBuilder::header`
unfoldable pub header : Text → Text → RequestContextBuilder → Fallible RequestContextBuilder
header name value b = do
  headers ← settle (insert name value b.additional_headers)
  ok (record b { additional_headers = headers })

-- The metadata that was set, or generated ones.
unfoldable pub metadata_or_generate :
    (core : Core) → Option Duration → Option RequestMetadata → Action core.Rng RequestMetadata
metadata_or_generate core now (some value) = pure value
metadata_or_generate core now none = generate core now

-- `RequestContextBuilder::build`
unfoldable pub build :
    (core : Core) → Option Duration → RequestContextBuilder → Action core.Rng RequestContext
build core now b =
    Action.◌>>=◌ (metadata_or_generate core now b.metadata)
      (λ value. lift (from_parts b.operation value (into_pairs b.additional_headers)))
