-- ===== src/Client/Printable.antt =====
-- The texts of a sealed envelope (src/envelope_crypto) are header values that a response carries
-- unchanged (src/adapter.rs).
use gmcrypto_envelope_lite.Base.{◌≤◌, ◌≡◌, arith, ok, some, length, ◌++◌, ltb, Bool-cases, inl, inr}
use gmcrypto_envelope_lite.Bytes.{Bytes}
use gmcrypto_envelope_lite.Auth.Types.{AuthenticationContext}
use gmcrypto_envelope_lite.Config.Types.{ClientConfig, EnvelopeMode, legacy_cbc, aead}
use gmcrypto_envelope_lite.Core.{Core}
use gmcrypto_envelope_lite.Core.Laws.{Cbc}
use gmcrypto_envelope_lite.Keys.Types.{KeyMaterial}
use gmcrypto_envelope_lite.Message.Types.{SecureEnvelope}
use gmcrypto_envelope_lite.Adapter.Fields.{IsField}
use gmcrypto_envelope_lite.Envelope.Dispatch.{seal, seal_in}
use gmcrypto_envelope_lite.Envelope.Cbc.RoundTrip as Cbc
use gmcrypto_envelope_lite.Envelope.Aead.Seal.{frame_header}
use gmcrypto_envelope_lite.Envelope.Aead.Sealed as Aead

-- The Base64 form of a nonempty byte string has no white space and no control character, and no
-- signature and no wrapped key is empty.
pub record Printable (core : Core) : Type 0 where
  pub encoded : (b : Bytes) → 1 ≤ length b → IsField (core.base64_encode b) (core.base64_encode b)
  pub signed :
      (key : core.Sm2PrivateKey) (id m : Bytes) (r s : core.Rng) {sig : Bytes}
      → core.sign_with_id key id m r ≡ (some sig, s)
      → 1 ≤ length sig
  pub wrapped :
      (key : core.Sm2PublicKey) (m : Bytes) (r s : core.Rng) {w : Bytes}
      → core.sm2_encrypt key m r ≡ (some w, s)
      → 1 ≤ length w

-- The three texts are fields.
pub record AreFields (envelope : SecureEnvelope) : Type 0 where
  pub signature : IsField envelope.signature envelope.signature
  pub wrapped : IsField envelope.wrapped_session_key envelope.wrapped_session_key
  pub cipher : IsField envelope.cipher envelope.cipher

module _ (core : Core) (cbc : Cbc core) (printable : Printable core) (config : ClientConfig)
    (keys : KeyMaterial core) (context : AuthenticationContext) (p : Bytes) where
  seal_in-AreFields :
      (mode : EnvelopeMode) (envelope : SecureEnvelope) (r s : core.Rng)
      → seal_in core mode config keys p context r ≡ (ok envelope, s)
      → AreFields envelope
  unfolding seal_in
  seal_in-AreFields legacy_cbc envelope r s e =
      let m = Cbc.seal-Sealed core config keys context p envelope r s e in
      let size = cbc.padded m.session_key config.iv p in
      rw m.result (record {
        signature = printable.encoded m.signature (
            printable.signed keys.local_signing config.local_signer_id m.input m.r₂ m.r₃ m.signing);
        wrapped =
            printable.encoded m.wrapped
              (printable.wrapped keys.remote_encryption m.session_key m.r₁ m.r₂ m.wrapping);
        cipher = printable.encoded (core.cbc_encrypt m.session_key config.iv p) (omega arith);
      })
  seal_in-AreFields (aead algorithm) envelope r s e =
      let m = Aead.seal-Sealed core config keys context algorithm p envelope r s e in
      let frame = (frame_header algorithm m.nonce ++ m.ciphertext) ++ m.tag in
      let some_frame : 1 ≤ length frame = unfold frame_header in omega arith in
      rw m.result (record {
        signature = printable.encoded m.signature (
            printable.signed keys.local_signing config.local_signer_id m.input m.r₃ m.r₄ m.signing);
        wrapped =
            printable.encoded m.wrapped
              (printable.wrapped keys.remote_encryption m.session_key m.r₂ m.r₃ m.wrapping);
        cipher = printable.encoded frame some_frame;
      })

  pub seal-AreFields :
      (envelope : SecureEnvelope) (r s : core.Rng)
      → seal core config keys p context r ≡ (ok envelope, s)
      → AreFields envelope
  unfolding seal
  seal-AreFields envelope r s e = elim (Bool-cases (ltb config.max_plaintext_bytes (length p))) [
    | inl big ↦ let bad = rw big at e in absurd (ground arith)
    | inr fits ↦ seal_in-AreFields config.envelope_mode envelope r s (rw fits at e)
  ]
