-- ===== src/Tests/Adapter.antt =====
-- The theorems on header schemas, mapped requests, parsed headers and context encodings.
use gmcrypto_envelope_lite.Base.{
  String, ◌≡◌, ◌≢◌, ◌↔◌, ◌<◌, refl, arith, ok, true, false, some, [], ◌∷◌, is_empty, All,
}
use gmcrypto_envelope_lite.Bytes.{be_bytes}
use gmcrypto_envelope_lite.Text.{
  Text, codes, trim, trim_start, trim_end, is_whitespace, utf8, utf8_char, lower,
  to_ascii_lowercase, char_bound,
}
use gmcrypto_envelope_lite.Auth.Context
use gmcrypto_envelope_lite.Header.Name.{HeaderName, is_token_byte, is_ascii_alphanumeric, name_eq}
use gmcrypto_envelope_lite.Header.Name
use gmcrypto_envelope_lite.Header.Value
use gmcrypto_envelope_lite.Header.Valid.{IsValid}
use gmcrypto_envelope_lite.Header.Pairs.{texts}
use gmcrypto_envelope_lite.Message.Types.{RequestParts, ProtocolRequestContext, SecureEnvelope}
use gmcrypto_envelope_lite.Adapter.Types.{HeaderSchema, HeaderSchemaBuilder, body, context_bound}
use gmcrypto_envelope_lite.Adapter.Builder
use gmcrypto_envelope_lite.Adapter.Context.{
  require_exact_trim, push_length_prefixed, bound_context, encode_request_context,
  encode_response_context,
}
use gmcrypto_envelope_lite.Adapter.Encoding
use gmcrypto_envelope_lite.Adapter.Mapping.{build_request, request_pairs, validate_nonempty}
use gmcrypto_envelope_lite.Adapter.Requests
use gmcrypto_envelope_lite.Tests.Ends.{identity}
use gmcrypto_envelope_lite.Header.Collection
use gmcrypto_envelope_lite.Header.Collection.{Entry}
use gmcrypto_envelope_lite.Message.Parts
use gmcrypto_envelope_lite.Adapter.Table.{request_lines}

abbrev given : HeaderSchemaBuilder
given = record {
  static_request_headers = (codes "V", codes "1") ∷ [];
  local_identity_header = some (codes "a");
  operation_header = some (codes "b");
  request_id_header = some (codes "c");
  request_time_header = some (codes "d");
  api_version_header = some (codes "e");
  local_certificate_header = some (codes "f");
  remote_signing_certificate_header = some (codes "g");
  remote_encryption_certificate_header = some (codes "h");
  request_signature_header = some (codes "i");
  request_wrapped_key_header = some (codes "j");
  request_cipher = some body;
  response_signature_header = some (codes "k");
  response_wrapped_key_header = some (codes "l");
  response_remote_signing_certificate_header = some (codes "m");
  response_cipher = some body;
  legacy_authentication = false;
  context_bound_authentication = true;
}

abbrev named : String → HeaderName
named s = record { original = codes s; canonical = codes s }

abbrev schema : HeaderSchema
schema = record {
  static_request_headers =
      (record { original = codes "V"; canonical = codes "v" }, record { text = codes "1" }) ∷ [];
  local_identity_header = named "a";
  operation_header = named "b";
  request_id_header = named "c";
  request_time_header = named "d";
  api_version_header = named "e";
  local_certificate_header = named "f";
  remote_signing_certificate_header = named "g";
  remote_encryption_certificate_header = named "h";
  request_signature_header = named "i";
  request_wrapped_key_header = named "j";
  request_cipher = body;
  response_signature_header = named "k";
  response_wrapped_key_header = named "l";
  response_remote_signing_certificate_header = named "m";
  response_cipher = body;
  authentication = context_bound;
}

build_given : Builder.build given ≡ ok schema
unfolding Builder.build Builder.static_entries Builder.static_entry Builder.required_header
    Builder.validate_collisions Builder.insert_mappings Builder.insert_mapping Name.new Value.new
    Value.is_disallowed_value_character is_token_byte is_ascii_alphanumeric utf8 utf8_char
    to_ascii_lowercase lower trim trim_start trim_end is_whitespace
build_given = refl

abbrev protocol : ProtocolRequestContext
protocol = record {
  operation = codes "pay";
  metadata = record { request_id = codes "7"; request_time = codes "now" };
}

abbrev envelope : SecureEnvelope
envelope = record { cipher = codes "c"; wrapped_session_key = codes "w"; signature = codes "s" }

abbrev entry : String → Text → Entry
entry name text = (named name, record { text = text })

-- The request of this identity, context and envelope.
abbrev parts : RequestParts
parts = record {
  headers = record {
    entries =
        (record { original = codes "V"; canonical = codes "v" }, record { text = codes "1" })
        ∷ entry "a" (codes "app")
        ∷ entry "b" (codes "pay")
        ∷ entry "c" (codes "7")
        ∷ entry "d" (codes "now")
        ∷ entry "e" (codes "1")
        ∷ entry "f" (codes "a")
        ∷ entry "g" (codes "b")
        ∷ entry "h" (codes "c")
        ∷ entry "i" (codes "s")
        ∷ entry "j" (codes "w")
        ∷ [];
  };
  body = codes "c";
}

build_request_iff_example : (build_request schema identity protocol envelope ≡ ok parts) ↔ (
    (is_empty (trim (codes "s")) ≡ false)
    × (is_empty (trim (codes "w")) ≡ false)
    × (is_empty (trim (codes "c")) ≡ false)
    × IsValid parts.headers
    × (texts parts.headers.entries ≡ request_lines schema identity protocol envelope)
    × (codes "c" ≡ codes "c"))
build_request_iff_example = Requests.build_request_iff schema identity protocol envelope parts

-- Both sides hold of this request.
mapped_request : build_request schema identity protocol envelope ≡ ok parts
unfolding build_request request_pairs validate_nonempty Parts.new Parts.append_checked
    Parts.validate Collection.from_pairs Collection.insert Collection.insert_typed
    Collection.append_checked Collection.revalidate Name.new Value.new
    Value.is_disallowed_value_character is_token_byte is_ascii_alphanumeric utf8 utf8_char
    to_ascii_lowercase lower trim trim_start trim_end is_whitespace Collection.append_test
mapped_request = refl

encode_request_context_iff_example :
    (encode_request_context (codes "pay") (codes "7")
      ≡ ok (Encoding.request_layout (codes "pay") (codes "7")))
    ↔ (Encoding.IsExact (codes "pay")
        × Encoding.IsExact (codes "7")
        × (Encoding.request_layout (codes "pay") (codes "7")
            ≡ Encoding.request_layout (codes "pay") (codes "7")))
encode_request_context_iff_example =
    Encoding.encode_request_context_iff (codes "pay") (codes "7")
      (Encoding.request_layout (codes "pay") (codes "7"))

encoded :
    encode_request_context (codes "pay") (codes "7")
    ≡ ok (Encoding.request_layout (codes "pay") (codes "7"))
unfolding encode_request_context require_exact_trim push_length_prefixed bound_context
    Context.context_bound be_bytes utf8 utf8_char trim trim_start trim_end is_whitespace
encoded = refl

encoded_response : encode_response_context (codes "7") ≡ ok (Encoding.response_layout (codes "7"))
unfolding encode_response_context require_exact_trim push_length_prefixed bound_context
    Context.context_bound be_bytes utf8 utf8_char trim trim_start trim_end is_whitespace
encoded_response = refl

pay_scalars : All (λ x. x < char_bound) (codes "pay")
pay_scalars = (omega arith, (omega arith, (omega arith, tt)))

id_scalars : All (λ x. x < char_bound) (codes "7")
id_scalars = (omega arith, tt)

encode_request_context-inj_example : (codes "pay" ≡ codes "pay") × (codes "7" ≡ codes "7")
encode_request_context-inj_example =
    Encoding.encode_request_context-inj (codes "pay") (codes "pay") (codes "7") (codes "7")
      pay_scalars pay_scalars id_scalars id_scalars encoded encoded

encode_request_context-ne-encode_response_context_example :
    Encoding.request_layout (codes "pay") (codes "7") ≢ Encoding.response_layout (codes "7")
encode_request_context-ne-encode_response_context_example =
    Encoding.encode_request_context-ne-encode_response_context (codes "pay") (codes "7") (codes "7")
      encoded encoded_response
