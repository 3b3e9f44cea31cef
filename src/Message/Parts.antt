-- ===== src/Message/Parts.antt =====
-- `RequestParts`, `ResponseParts` and `ParsedResponse` of src/message.rs.
use mathlib.Core.Option
use gmcrypto_envelope_lite.Base.{
  ℕ, Bool, ◌||◌, Option, List, ok, err, ◌>>=◌, ◌>>◌, is_empty, fail_if,
}
use gmcrypto_envelope_lite.Text.{Text, trim, contains_line_break}
use gmcrypto_envelope_lite.Error.{Fallible, AdapterResult, adapter_error, invalid_field}
use gmcrypto_envelope_lite.Auth.Types.{AuthenticationContext}
use gmcrypto_envelope_lite.Header.Value
use gmcrypto_envelope_lite.Header.Collection
use gmcrypto_envelope_lite.Header.Collection.{
  HeaderCollection, default, settle, from_pairs, revalidate, get, count, has_none,
}
use gmcrypto_envelope_lite.Message.Types.{
  SecureEnvelope, RequestParts, ResponseParts, ParsedResponse,
}

-- `RequestParts::append_checked`, with the request that it leaves behind.
unfoldable pub append_checked : HeaderCollection → RequestParts → Fallible (Unit {0}) × RequestParts
append_checked headers parts =
    let (r, headers') = Collection.append_checked parts.headers headers in
    (r, record { headers = headers'; body = parts.body })

-- `?` on `append_checked` of a request that the caller owns.
abbrev pub appended : Fallible (Unit {0}) × RequestParts → Fallible RequestParts
appended (ok _, parts) = ok parts
appended (err e, parts) = err e

-- `RequestParts::validate`
unfoldable pub validate : RequestParts → Fallible (Unit {0})
validate parts = revalidate parts.headers

-- `RequestParts::new`
unfoldable pub new : List (Text × Text) → Text → Fallible RequestParts
new headers body = do
  incoming ← from_pairs headers
  parts ← appended (append_checked incoming (record { headers = default; body = body }))
  validate parts
  ok parts

-- `RequestParts::header`
abbrev pub header_of : RequestParts → Text → Option Text
header_of parts name = Option.map Value.as_str (get name parts.headers)

-- `RequestParts::len` and `is_empty`
abbrev pub len_of : RequestParts → ℕ
len_of parts = count parts.headers

abbrev pub is_empty_of : RequestParts → Bool
is_empty_of parts = has_none parts.headers

-- `ResponseParts::new`
abbrev pub response : List (Text × Text) → Text → ResponseParts
response headers body = record { headers = headers; body = body }

-- `ResponseParts::into_parts`
abbrev pub into_parts : ResponseParts → List (Text × Text) × Text
into_parts r = (r.headers, r.body)

-- `ParsedResponse::new`
unfoldable pub parsed : SecureEnvelope → Text → AuthenticationContext → AdapterResult ParsedResponse
parsed envelope remote_signing_certificate_id authentication_context = do
  fail_if
      (is_empty (trim remote_signing_certificate_id)
        || contains_line_break remote_signing_certificate_id)
      (adapter_error invalid_field)
  ok (record {
    envelope = envelope;
    remote_signing_certificate_id = remote_signing_certificate_id;
    authentication_context = authentication_context;
  })
