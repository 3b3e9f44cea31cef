-- ===== src/Adapter/Requests.antt =====
-- The request that `HeaderProtocolAdapter::build_request` of src/adapter.rs makes.
use gmcrypto_envelope_lite.Base.{
  ◌≡◌, ◌↔◌, arith, false, Result-cases, inl, inr, List, [], ok, is_empty,
}
use gmcrypto_envelope_lite.Text.{Text, trim}
use gmcrypto_envelope_lite.Config.Types.{ClientIdentity}
use gmcrypto_envelope_lite.Header.Collection.{HeaderCollection, from_pairs, default, revalidate}
use gmcrypto_envelope_lite.Header.Collection
use gmcrypto_envelope_lite.Header.Valid.{IsValid, revalidate_iff, Apart-nil}
use gmcrypto_envelope_lite.Header.Pairs.{texts, from_pairs_iff}
use gmcrypto_envelope_lite.Header.Append.{append_checked_lem}
use gmcrypto_envelope_lite.Message.Types.{SecureEnvelope, ProtocolRequestContext, RequestParts}
use gmcrypto_envelope_lite.Message.Parts
use gmcrypto_envelope_lite.Adapter.Types.{HeaderSchema, CipherLocation, body, header}
use gmcrypto_envelope_lite.Adapter.Table.{request_lines, request_pairs-lines}
use gmcrypto_envelope_lite.Adapter.Mapping.{body_of, build_request, validate_nonempty}

append_default :
    (c : HeaderCollection) → IsValid c → Collection.append_checked default c ≡ (ok tt, c)
append_default c h = elim (append_checked_lem default c (record { formed = tt; distinct = tt }) h) [
  | inl good ↦ good.1
  | inr bad ↦ absurd (bad.0 (Apart-nil c.entries))
]

-- `RequestParts::new` accepts exactly the pairs that are well formed and have no two names equal up
-- to case, and keeps their texts, their order and the body.
new_iff :
    (ps : List (Text × Text)) (b : Text) (parts : RequestParts)
    → (Parts.new ps b ≡ ok parts)
      ↔ (IsValid parts.headers × (texts parts.headers.entries ≡ ps) × (parts.body ≡ b))
unfolding Parts.new Parts.append_checked Parts.validate
new_iff ps b parts = elim (Result-cases (from_pairs ps)) [
  | inr (e, p) ↦ ground (arith, from_pairs_iff ps parts.headers, p)
  | inl (c, p) ↦
      let v = (from_pairs_iff ps c).0 p in
      let back = from_pairs_iff ps parts.headers in
      rw (p, append_default c v.0, (revalidate_iff c v.0.formed).0.1 v.0.distinct)
        (ground (arith, v, back))
]

-- The request's body: the cipher where the schema has it there, and nothing otherwise.
abbrev pub IsBody : CipherLocation → Text → Text → Type 0
IsBody body cipher text = text ≡ cipher
IsBody (header name) cipher text = text ≡ []

body_of-IsBody_iff :
    (place : CipherLocation) (c text : Text) → (text ≡ body_of place c) ↔ IsBody place c text
body_of-IsBody_iff body c text = (λ e. e, λ e. e)
body_of-IsBody_iff (header name) c text = (λ e. e, λ e. e)

-- `build_request` succeeds exactly when no part of the envelope is blank and the mapped headers are
-- well formed with no two names equal up to case. The request then has the static headers and, each
-- under its header of the schema and in this order, the local identity, the operation, the request's
-- identifier and time, the API version, the local, the remote signing and the remote encryption
-- certificate, the signature and the wrapped key, with their texts unchanged, and the cipher as its
-- body or its last header.
pub build_request_iff :
    (schema : HeaderSchema) (identity : ClientIdentity) (context : ProtocolRequestContext)
    (envelope : SecureEnvelope) (parts : RequestParts)
    → (build_request schema identity context envelope ≡ ok parts) ↔ (
        (is_empty (trim envelope.signature) ≡ false)
        × (is_empty (trim envelope.wrapped_session_key) ≡ false)
        × (is_empty (trim envelope.cipher) ≡ false)
        × IsValid parts.headers
        × (texts parts.headers.entries ≡ request_lines schema identity context envelope)
        × IsBody schema.request_cipher envelope.cipher parts.body)
unfolding build_request validate_nonempty
build_request_iff schema identity context envelope parts =
    rw (request_pairs-lines schema identity context envelope) (
      ground (
        arith,
        new_iff (request_lines schema identity context envelope)
            (body_of schema.request_cipher envelope.cipher) parts,
        body_of-IsBody_iff schema.request_cipher envelope.cipher parts.body,
      ))
