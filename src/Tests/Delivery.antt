-- ===== src/Tests/Delivery.antt =====
-- The theorems on delivery between two ends, on schemas and parsed responses, and on key files.
use gmcrypto_envelope_lite.Base.{◌≡◌, ◌↔◌, refl, arith, ok, false}
use gmcrypto_envelope_lite.Bytes.{be_bytes}
use gmcrypto_envelope_lite.Text.{
  codes, utf8, utf8_char, trim, trim_start, trim_end, is_whitespace, contains_line_break,
}
use gmcrypto_envelope_lite.Header.Value.{is_disallowed_value_character}
use gmcrypto_envelope_lite.Auth.Types.{AuthenticationContext}
use gmcrypto_envelope_lite.Config.Types.{ClientConfig, aead, sm4_ccm}
use gmcrypto_envelope_lite.Keys.Types.{KeyMaterial, spki}
use gmcrypto_envelope_lite.Message.Types.{SecureEnvelope, ResponseParts, ParsedResponse}
use gmcrypto_envelope_lite.Adapter.Types.{HeaderSchema, body, context_bound}
use gmcrypto_envelope_lite.Adapter.Builder
use gmcrypto_envelope_lite.Adapter.Accepted
use gmcrypto_envelope_lite.Adapter.Parsed.{Parses}
use gmcrypto_envelope_lite.Adapter.Named
use gmcrypto_envelope_lite.Adapter.Mapping.{parse_response, header_protocol_adapter, context_for}
use gmcrypto_envelope_lite.Client.Pinned
use gmcrypto_envelope_lite.Adapter.Encoding.{
  response_layout, request_layout, encode_request_context_iff,
}
use gmcrypto_envelope_lite.Adapter.Fields.{IsField}
use gmcrypto_envelope_lite.Adapter.Respond.{respond, IsBindable}
use gmcrypto_envelope_lite.Client.Calls
use gmcrypto_envelope_lite.Client.Delivery
use gmcrypto_envelope_lite.Envelope.Complete
use gmcrypto_envelope_lite.Envelope.Complete.{Admits}
use gmcrypto_envelope_lite.Envelope.Dispatch.{seal, open_envelope}
use gmcrypto_envelope_lite.Envelope.Peers.{Peers}
use gmcrypto_envelope_lite.Fuzz.Built.{fuzz_schema, context_schema-ok}
use gmcrypto_envelope_lite.Fuzz.Schemas.{fuzz_schema_builder, context_schema}
use gmcrypto_envelope_lite.Tests.Ends.{plaintext}
use gmcrypto_envelope_lite.Tests.Ends as Ends
use gmcrypto_envelope_lite.Tests.Compact.{compact, lawful_lem, available_lem, printable_lem}

abbrev config : ClientConfig
config = Ends.config (aead sm4_ccm)

abbrev keys : KeyMaterial compact
keys = record {
  local_signing = 7;
  local_decryption = 8;
  remote_verification = 7;
  remote_encryption = 8;
  remote_verification_source = spki;
  remote_encryption_source = spki;
  shared_roles = false;
}

peers : Peers compact config keys config keys
peers = record {
  mode = refl;
  signer = refl;
  wraps = lawful_lem.wraps 8;
  signs = lawful_lem.signs 7;
  base64 = lawful_lem.base64;
  fills = lawful_lem.fills;
}

-- The context of a response to request 7.
abbrev context : AuthenticationContext
context = response_layout (codes "7")

admits : Admits config context plaintext
unfolding be_bytes utf8 utf8_char
admits = record {
  signer = omega arith;
  limit = (omega arith, omega arith);
  within = omega arith;
  small = omega arith;
  agrees = (omega arith, omega arith, omega arith);
}

delivers_example :
    (envelope : SecureEnvelope) × (s : compact.Rng) × (seal compact config keys plaintext context 1
      ≡ (ok envelope, s))
    × ((open_envelope compact config keys envelope context 0).0 ≡ ok plaintext)
delivers_example =
    Complete.delivers compact available_lem config keys config keys peers lawful_lem.cbc
      lawful_lem.aead refl refl context plaintext admits (omega arith) 1 0

-- What is sealed for the response.
sealed :
    (envelope : SecureEnvelope) × (s : compact.Rng) × (seal compact config keys plaintext context 1
      ≡ (ok envelope, s))
sealed =
    Complete.seal_total compact available_lem lawful_lem.fills lawful_lem.aead config keys context
      plaintext admits 1

abbrev schema : HeaderSchema
schema = fuzz_schema body context_bound

built :
    Builder.build
      (Builder.context_bound_authentication (Builder.response_cipher body fuzz_schema_builder))
    ≡ ok schema
unfolding context_schema fuzz_schema_builder Builder.context_bound_authentication
    Builder.response_cipher
built = context_schema-ok

certificate-IsField : IsField (codes "b") (codes "b")
unfolding trim trim_start trim_end is_whitespace is_disallowed_value_character
certificate-IsField = record { legal = refl; solid = refl; trimmed = refl }

certificate_line : contains_line_break (codes "b") ≡ false
unfolding contains_line_break
certificate_line = refl

bindable : IsBindable context_bound (codes "7")
unfolding trim trim_start trim_end is_whitespace is_disallowed_value_character utf8 utf8_char
bindable = (refl, record { solid = refl; exact = refl; small = omega arith })

open_response-respond_example :
    (Calls.open_response compact
      (Delivery.client compact config keys config keys peers lawful_lem.cbc lawful_lem.aead
        printable_lem refl refl _ schema built tt)
      (respond schema sealed.0 (codes "b") (codes "7"))
      0).0
    ≡ ok plaintext
open_response-respond_example =
    Delivery.open_response-respond compact config keys config keys peers lawful_lem.cbc
      lawful_lem.aead printable_lem refl refl
      (Builder.context_bound_authentication (Builder.response_cipher body fuzz_schema_builder))
      schema built tt plaintext (codes "7") sealed.0 1 sealed.1 0 (omega arith) (omega arith)
      sealed.2 certificate-IsField certificate_line bindable

-- The client of these keys and this schema, and what it selects for a request.
abbrev made : Calls.SecureClient compact
made = record { config = config; keys = keys; adapter = header_protocol_adapter schema }

abbrev selected : AuthenticationContext
selected = request_layout (codes "7") (codes "7")

supplied : Pinned.Supplied made.adapter selected
unfolding header_protocol_adapter context_for
supplied =
    Pinned.for_request config.identity
      (record {
        operation = codes "7";
        metadata = record { request_id = codes "7"; request_time = codes "1" };
      })
      ((encode_request_context_iff (codes "7") (codes "7") selected).1
        (bindable.1, bindable.1, refl))

new-SameKind : Calls.new compact config keys (header_protocol_adapter schema) ≡ ok made
new-SameKind = (Pinned.new-SameKind_iff compact config keys schema made).1 (tt, refl)

new-Takes_example : Pinned.Takes config.authentication_mode selected.kind
new-Takes_example = Pinned.new-Takes compact config keys schema made selected new-SameKind supplied

abbrev response : ResponseParts
response = respond schema sealed.0 (codes "b") (codes "7")

abbrev parsed : ParsedResponse
parsed = record {
  envelope = sealed.0;
  remote_signing_certificate_id = codes "b";
  authentication_context = context;
}

parse_response_iff_example :
    (parse_response schema response ≡ ok parsed)
    ↔ Parses schema (Named.carried schema response) response.body parsed
parse_response_iff_example =
    Named.parse_response_iff
      (Builder.context_bound_authentication (Builder.response_cipher body fuzz_schema_builder))
      schema response parsed built tt

schema_build_iff_example :
    (Builder.build
        (Builder.context_bound_authentication (Builder.response_cipher body fuzz_schema_builder))
      ≡ ok schema)
    ↔ Accepted.Accepts
        (Builder.context_bound_authentication (Builder.response_cipher body fuzz_schema_builder))
        schema
schema_build_iff_example =
    Accepted.schema_build_iff
      (Builder.context_bound_authentication (Builder.response_cipher body fuzz_schema_builder))
      schema
