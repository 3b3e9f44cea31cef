-- ===== src/Fuzz/FullValid.antt =====
-- The assertion of the envelope targets of fuzz/fuzz_targets: an input that selects the valid values
-- opens to the fixed plaintext.

use gmcrypto_envelope_lite.Base.{
  ℕ, ◌≡◌, refl, arith, ok, true, false, some, Option, [], is_empty, beq, Bool-cases, inl, inr,
}
use gmcrypto_envelope_lite.Bytes.{Bytes}
use gmcrypto_envelope_lite.Text.{Text}
use gmcrypto_envelope_lite.Auth.Types.{legacy_plaintext}
use gmcrypto_envelope_lite.Auth.Context as AuthContext
use gmcrypto_envelope_lite.Config.Types.{
  ClientConfig, EnvelopeMode, AeadAlgorithm, legacy_cbc, aead, sm4_gcm, sm4_ccm,
}
use gmcrypto_envelope_lite.Config.Accepted.{LimitFits}
use gmcrypto_envelope_lite.Core.{Core}
use gmcrypto_envelope_lite.Message.Types.{SecureEnvelope}
use gmcrypto_envelope_lite.Adapter.Types.{body, legacy}
use gmcrypto_envelope_lite.Adapter.Respond.{respond}
use gmcrypto_envelope_lite.Text.{trim, trim_start, trim_end, is_whitespace, contains_line_break}
use gmcrypto_envelope_lite.Header.Value.{is_disallowed_value_character}
use gmcrypto_envelope_lite.Adapter.Fields.{IsField}
use gmcrypto_envelope_lite.Keys.Types.{KeyMaterial}
use gmcrypto_envelope_lite.Envelope.Peers.{Peers}
use gmcrypto_envelope_lite.Envelope.Complete.{delivers}
use gmcrypto_envelope_lite.Client.Printable.{Printable}
use gmcrypto_envelope_lite.Client.Delivery.{open_response-respond}
use gmcrypto_envelope_lite.Fuzz.Laws.{
  Lawful, fuzz_config, fuzz_material, fuzz_key, fuzz_client_of, client-some, aead_client_with-some,
}
use gmcrypto_envelope_lite.Config.Builder.{zero_iv}
use gmcrypto_envelope_lite.Fuzz.Framing.{selectors, fields, framed, get, at}
use gmcrypto_envelope_lite.Fuzz.Clients.{
  KeyTools, fuzz_iv, cipher_limit, aead_cipher_limit, valid_plaintext, expected_certificate,
}
use gmcrypto_envelope_lite.Fuzz.Built.{fuzz_schema, schema-ok}
use gmcrypto_envelope_lite.Fuzz.Schemas.{schema, fuzz_schema_builder}
use gmcrypto_envelope_lite.Adapter.Builder.{build, legacy_authentication, response_cipher}
use gmcrypto_envelope_lite.Fuzz.Values.{
  select_mode, select_value, encoded_values_with, encoded_certificate_claim,
  envelope_response_parts, full_valid, run_made, assert_full, encoded_opened, encoded_target,
  aead_opened, aead_target, valid_envelope,
}

-- The input selects the three valid values and makes no claim of its own on the certificate.
pub record SelectsValid (input : Bytes) : Type 0 where
  pub signature : select_mode (get (selectors input) 0) ≡ 0
  pub wrapped : select_mode (get (selectors input) 1) ≡ 0
  pub cipher : select_mode (get (selectors input) 2) ≡ 0
  pub claim : is_empty (at (framed 4 input) 3) ≡ true

select_value-valid :
    (mode boundary : Option ℕ) (raw : Bytes) (valid : Text) (limit : ℕ)
    → select_mode mode ≡ 0
    → select_value mode boundary raw valid limit ≡ some valid
unfolding select_value
select_value-valid mode boundary raw valid limit h = rw h refl

encoded_values-valid :
    (limit : ℕ) (input : Bytes) (envelope : SecureEnvelope)
    → SelectsValid input
    → encoded_values_with limit input envelope
      ≡ some (envelope.signature, envelope.wrapped_session_key, envelope.cipher)
unfolding encoded_values_with
encoded_values-valid limit input envelope h =
    let s = selectors input in
    let parts = fields input in
    rw
      (
        select_value-valid (get s 0) (get s 3) (at parts 0) envelope.signature _ h.signature,
        select_value-valid (get s 1) (get s 4) (at parts 1) envelope.wrapped_session_key _
            h.wrapped,
        select_value-valid (get s 2) (get s 5) (at parts 2) envelope.cipher limit h.cipher,
      )
      refl

pub schema-built :
    build (legacy_authentication (response_cipher body fuzz_schema_builder))
    ≡ ok (fuzz_schema body legacy)
unfolding schema fuzz_schema_builder response_cipher legacy_authentication
schema-built = schema-ok

-- The response is then the one that the schema describes.
response-valid :
    (input : Bytes) (envelope : SecureEnvelope) (id : Text)
    → SelectsValid input
    → envelope_response_parts
        (envelope.signature, envelope.wrapped_session_key, envelope.cipher)
        input
      ≡ respond (fuzz_schema body legacy) envelope expected_certificate id
unfolding envelope_response_parts encoded_certificate_claim
response-valid input envelope id h = rw h.claim refl

asserted : (input : Bytes) → assert_full input (ok valid_plaintext) ≡ some tt
asserted input = elim (Bool-cases (beq input full_valid)) [
  | inl same ↦ rw same refl
  | inr other ↦ rw other refl
]

module _ (core : Core) (tools : KeyTools core) (lawful : Lawful core tools)
    (printable : Printable core) where
  -- The plaintext limit of the targets fits every mode.
  fits : (mode : EnvelopeMode) → LimitFits mode 64
  fits legacy_cbc = omega arith
  fits (aead sm4_gcm) = omega arith
  fits (aead sm4_ccm) = (omega arith, omega arith)

  abbrev config : EnvelopeMode → Bytes → ClientConfig
  config mode iv = fuzz_config legacy_plaintext mode iv

  abbrev keys : KeyMaterial core
  keys = fuzz_material core tools lawful

  ends : (mode : EnvelopeMode) (iv : Bytes) → Peers core (config mode iv) keys (config mode iv) keys
  ends mode iv = record {
    mode = refl;
    signer = refl;
    wraps = lawful.wraps (fuzz_key core tools lawful);
    signs = lawful.signs (fuzz_key core tools lawful);
    base64 = lawful.base64;
    fills = lawful.fills;
  }

  certificate-IsField : IsField expected_certificate expected_certificate
  unfolding trim trim_start trim_end is_whitespace is_disallowed_value_character
  certificate-IsField = record { legal = refl; solid = refl; trimmed = refl }

  certificate_line : contains_line_break expected_certificate ≡ false
  unfolding contains_line_break
  certificate_line = refl

  -- The client of a target opens the response to an input that selects the valid values.
  opens_valid :
      (mode : EnvelopeMode) (iv input : Bytes) (limit : ℕ) (r : core.Rng)
      → SelectsValid input
      → run_made core
          (encoded_values_with limit)
          input
          (some (fuzz_client_of core tools lawful legacy_plaintext mode iv legacy))
          r
        ≡ some (ok valid_plaintext)
  unfolding valid_envelope
  opens_valid mode iv input limit r h =
      let (envelope, s, sealed, opened) =
        delivers core lawful.available (config mode iv) keys (config mode iv) keys (ends mode iv)
          lawful.cbc lawful.aead refl refl AuthContext.legacy valid_plaintext
          (record {
            signer = omega arith;
            limit = fits mode;
            within = omega arith;
            small = omega arith;
            agrees = tt;
          })
          (omega arith) r 0 in
      let answer =
        open_response-respond core (config mode iv) keys (config mode iv) keys (ends mode iv)
          lawful.cbc lawful.aead printable refl refl
          (legacy_authentication (response_cipher body fuzz_schema_builder))
          (fuzz_schema body legacy) schema-built tt valid_plaintext [] envelope r s 0 (omega arith)
          (omega arith) sealed certificate-IsField certificate_line tt in
      rw sealed (
        rw (encoded_values-valid limit input envelope h)
          (rw (response-valid input envelope [] h) (rw answer refl)))

  -- An input that selects the valid values, as the input of the target's assertion does, opens to the
  -- fixed plaintext in encoded_envelope.rs, from every state of the random source, and the target
  -- does not panic; the primitives behave as documented and Base64 texts are plain header values.
  pub encoded_target-passes :
      (input : Bytes) (r : core.Rng)
      → SelectsValid input
      → (encoded_opened core tools input r ≡ some (ok valid_plaintext))
        × (encoded_target core tools input r ≡ some tt)
  unfolding encoded_opened encoded_target
  encoded_target-passes input r h =
      let opened = opens_valid legacy_cbc fuzz_iv input cipher_limit r h in
      rw (client-some core tools lawful) (opened, rw opened (asserted input))

  -- The same for aead_envelope.rs and aead_ccm_envelope.rs, by the algorithm of the client.
  pub aead_target-passes :
      (algorithm : AeadAlgorithm) (input : Bytes) (r : core.Rng)
      → SelectsValid input
      → (aead_opened core tools algorithm input r ≡ some (ok valid_plaintext))
        × (aead_target core tools algorithm input r ≡ some tt)
  unfolding aead_opened aead_target
  aead_target-passes algorithm input r h =
      let opened = opens_valid (aead algorithm) zero_iv input aead_cipher_limit r h in
      rw (aead_client_with-some core tools lawful algorithm) (opened, rw opened (asserted input))
