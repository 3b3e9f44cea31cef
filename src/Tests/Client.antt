-- ===== src/Tests/Client.antt =====
-- The theorems on the client and on keys, with the toy connection and an adapter of one header.
use gmcrypto_envelope_lite.Base.{◌≡◌, ◌≢◌, ◌↔◌, refl, subst, ok, none, false, [], All}
use gmcrypto_envelope_lite.Text.{codes}
use gmcrypto_envelope_lite.Config.Types.{aead, sm4_gcm}
use gmcrypto_envelope_lite.Keys.Types.{KeyMaterial, spki}
use gmcrypto_envelope_lite.Keys.Roles
use gmcrypto_envelope_lite.Header.Valid.{IsEntry}
use gmcrypto_envelope_lite.Message.Types.{
  RequestContext, RequestParts, ResponseParts, ParsedResponse, SecureEnvelope,
}
use gmcrypto_envelope_lite.Adapter.Types.{ProtocolAdapter}
use gmcrypto_envelope_lite.Envelope.Dispatch
use gmcrypto_envelope_lite.Envelope.Contract
use gmcrypto_envelope_lite.Client.Calls.{SecureClient}
use gmcrypto_envelope_lite.Client.Calls
use gmcrypto_envelope_lite.Client.Sound
use gmcrypto_envelope_lite.Text.{utf8}
use gmcrypto_envelope_lite.Message.Parts
use gmcrypto_envelope_lite.Header.Name
use gmcrypto_envelope_lite.Header.Name.{is_token_byte}
use gmcrypto_envelope_lite.Header.Value
use gmcrypto_envelope_lite.Header.Value.{is_disallowed_value_character}
use gmcrypto_envelope_lite.Header.Collection.{
  revalidate, insert, insert_typed, append_checked, append_test,
}
use gmcrypto_envelope_lite.Tests.Toy.{toy}
use gmcrypto_envelope_lite.Tests.Ends.{config, keys, context, plaintext}
use gmcrypto_envelope_lite.Tests.Envelope.{gcm_sealed, opened_gcm, seal_gcm}
use gmcrypto_envelope_lite.Tests.Header.{one, two, other, accept-IsEntry, other-IsValid}

abbrev parsed : ParsedResponse
parsed = record {
  envelope = gcm_sealed;
  remote_signing_certificate_id = codes "b";
  authentication_context = context;
}

abbrev adapter : ProtocolAdapter
adapter = record {
  request_authentication_context = λ _ _. ok context;
  build_request = λ _ _ envelope. ok (record { headers = one; body = envelope.cipher });
  parse_response = λ _. ok parsed;
  pinned_authentication = none;
}

abbrev client : SecureClient toy
client = record { config = config (aead sm4_gcm); keys = keys; adapter = adapter }

abbrev response : ResponseParts
response = record { headers = []; body = [] }

open_response_iff_example : ((Calls.open_response toy client response 0).0 ≡ ok plaintext) ↔ (
    (p : ParsedResponse) × (adapter.parse_response response ≡ ok p)
    × (p.remote_signing_certificate_id ≡ codes "b")
    × ((Dispatch.open_envelope toy
          (config (aead sm4_gcm))
          keys
          p.envelope
          p.authentication_context
          0).0
        ≡ ok plaintext))
open_response_iff_example = Sound.open_response_iff toy client response plaintext 0

opened : (Calls.open_response toy client response 0).0 ≡ ok plaintext
opened =
    (Sound.open_response_iff toy client response plaintext 0).1 (parsed, refl, refl, opened_gcm)

open_response-Verified_example :
    (p : ParsedResponse) × (adapter.parse_response response ≡ ok p)
    × (p.remote_signing_certificate_id ≡ codes "b")
    × Contract.Verified toy
        (config (aead sm4_gcm))
        keys
        p.authentication_context
        p.envelope
        plaintext
open_response-Verified_example = Sound.open_response-Verified toy client response plaintext 0 opened

abbrev request_context : RequestContext
request_context = record {
  protocol = record {
    operation = codes "pay";
    metadata = record { request_id = codes "7"; request_time = codes "now" };
  };
  additional_headers = other;
}

abbrev request : RequestParts
request = record { headers = two; body = gcm_sealed.cipher }

typed :
    (envelope : SecureEnvelope) (mapped : RequestParts)
    → adapter.build_request client.config.identity request_context.protocol envelope ≡ ok mapped
    → All IsEntry mapped.headers.entries
typed envelope mapped e =
    let same : record { headers = one; body = envelope.cipher } ≡ mapped = cc e in
    subst (λ (q : RequestParts). All IsEntry q.headers.entries) same (accept-IsEntry, tt)

built : Calls.build_request toy client plaintext request_context 1 ≡ (ok request, 5)
unfolding Calls.build_request Parts.validate revalidate insert Name.new utf8 is_token_byte Value.new
    is_disallowed_value_character insert_typed Parts.append_checked append_checked append_test
built = rw seal_gcm refl

build_request-Requested_example : Sound.Requested toy client request_context plaintext request 1 5
build_request-Requested_example =
    Sound.build_request-Requested toy client request_context plaintext request 1 5 typed
      other-IsValid built

abbrev material : KeyMaterial toy
material = record {
  local_signing = 1;
  local_decryption = 2;
  remote_verification = 3;
  remote_encryption = 4;
  remote_verification_source = spki;
  remote_encryption_source = spki;
  shared_roles = false;
}

key_material_new_iff_example :
    (Roles.new toy
        (record { inner = 1 })
        (record { inner = 2 })
        (record { inner = 3; source = spki })
        (record { inner = 4; source = spki })
      ≡ ok material)
    ↔ ((toy.to_bytes_be 1 ≢ toy.to_bytes_be 2)
        × (toy.to_sec1_uncompressed 3 ≢ toy.to_sec1_uncompressed 4)
        × (material ≡ material))
key_material_new_iff_example =
    Roles.key_material_new_iff toy (record { inner = 1 }) (record { inner = 2 })
      (record { inner = 3; source = spki }) (record { inner = 4; source = spki }) material
