-- ===== src/Envelope/Contract.antt =====
-- What `seal` and `open` of src/envelope_crypto/mod.rs promise in every payload mode.
use gmcrypto_envelope_lite.Base.{
  ℕ, ◌≤◌, ◌<◌, ◌^◌, ◌≡◌, ◌⊎◌, inl, inr, subst, arith, ok, err, length, ltb, lt→ltb, true, some,
  Bool-cases,
}
use gmcrypto_envelope_lite.Bytes.{Bytes}
use gmcrypto_envelope_lite.Error.{Error, message_too_large, invalid_envelope}
use gmcrypto_envelope_lite.Auth.Types.{AuthenticationContext}
use gmcrypto_envelope_lite.Auth.Mode.{authentication_input}
use gmcrypto_envelope_lite.Config.Types.{ClientConfig, EnvelopeMode, legacy_cbc, aead}
use gmcrypto_envelope_lite.Core.{Core}
use gmcrypto_envelope_lite.Core.Laws
use gmcrypto_envelope_lite.Keys.Types.{KeyMaterial}
use gmcrypto_envelope_lite.Message.Types.{SecureEnvelope}
use gmcrypto_envelope_lite.Envelope.Peers.{Peers}
use gmcrypto_envelope_lite.Envelope.Cbc.RoundTrip
use gmcrypto_envelope_lite.Envelope.Cbc.Sound
use gmcrypto_envelope_lite.Envelope.Aead.RoundTrip as AeadRoundTrip
use gmcrypto_envelope_lite.Envelope.Aead.Sound as AeadSound
use gmcrypto_envelope_lite.Envelope.Dispatch.{seal_in, seal, open_in, open_envelope}

module _ (core : Core) (sender : ClientConfig) (sender_keys : KeyMaterial core)
    (receiver : ClientConfig) (receiver_keys : KeyMaterial core)
    (peers : Peers core sender sender_keys receiver receiver_keys) (cbc : Laws.Cbc core)
    (aead_laws : Laws.Aead core) (same_iv : sender.iv ≡ receiver.iv)
    (context : AuthenticationContext) (p : Bytes) (within : length p ≤ receiver.max_plaintext_bytes)
    (addressable : length p < 2 ^ 63) where
  open_in-seal_in :
      (mode : EnvelopeMode) (envelope : SecureEnvelope) (r s : core.Rng) (calls : ℕ)
      → seal_in core mode sender sender_keys p context r ≡ (ok envelope, s)
      → (open_in core mode receiver receiver_keys envelope context calls).0 ≡ ok p
  unfolding seal_in open_in
  open_in-seal_in legacy_cbc envelope r s calls e =
      RoundTrip.cbc_open_envelope-seal core sender sender_keys receiver receiver_keys peers cbc
        same_iv context p within addressable envelope r s calls e
  open_in-seal_in (aead algorithm) envelope r s calls e =
      AeadRoundTrip.aead_open_envelope-seal core sender sender_keys receiver receiver_keys peers
        aead_laws algorithm context p within addressable envelope r s e

  -- Between two ends whose configurations agree in payload mode, authentication mode, IV and signer
  -- identifier and whose keys match, and with external operations that behave as documented, opening
  -- returns what was sealed in every payload mode: whenever `seal` succeeds, and the plaintext is
  -- within the receiver's limit and below 2^63 bytes, `open` succeeds with just these bytes.
  pub open_envelope-seal :
      (envelope : SecureEnvelope) (r s : core.Rng) (calls : ℕ)
      → sender.envelope_mode ≡ receiver.envelope_mode
      → seal core sender sender_keys p context r ≡ (ok envelope, s)
      → (open_envelope core receiver receiver_keys envelope context calls).0 ≡ ok p
  unfolding seal open_envelope
  open_envelope-seal envelope r s calls same_mode e =
      elim (Bool-cases (ltb sender.max_plaintext_bytes (length p))) [
        | inl big ↦ let bad = rw big at e in absurd (ground arith)
        | inr fits ↦
            subst (λ m. (open_in core m receiver receiver_keys envelope context calls).0 ≡ ok p)
              same_mode (open_in-seal_in sender.envelope_mode envelope r s calls (rw fits at e))
      ]

module _ (core : Core) (config : ClientConfig) (keys : KeyMaterial core)
    (context : AuthenticationContext) where
  -- A plaintext above the limit is refused with the limit before any randomness is drawn.
  pub seal_oversize :
      (p : Bytes) (r : core.Rng)
      → config.max_plaintext_bytes < length p
      → seal core config keys p context r ≡ (err (message_too_large config.max_plaintext_bytes), r)
  unfolding seal
  seal_oversize p r h = rw (lt→ltb _ _ h)

  -- What every opened envelope carries: a signature that the remote key verifies under the expected
  -- signer over the transcript of this context and this plaintext.
  pub record Verified (envelope : SecureEnvelope) (p : Bytes) : Type 0 where
    pub signature : Bytes
    pub signature_bytes : core.base64_decode envelope.signature ≡ some signature
    pub transcript : Bytes
    pub input : authentication_input config.authentication_mode context p ≡ ok transcript
    pub verified :
        core.verify_with_id keys.remote_verification config.expected_remote_signer_id transcript
          signature
        ≡ true

  open_in-Verified :
      (mode : EnvelopeMode) (envelope : SecureEnvelope) (p : Bytes) (calls : ℕ)
      → (open_in core mode config keys envelope context calls).0 ≡ ok p
      → Verified envelope p
  unfolding open_in
  open_in-Verified legacy_cbc envelope p calls e =
      let o = (Sound.cbc_open_envelope_iff core config keys context envelope p calls).0 e in
      record {
        signature = o.signature;
        signature_bytes = o.parts.signature_bytes;
        transcript = o.authorised.transcript;
        input = o.authorised.input;
        verified = o.authorised.verified;
      }
  open_in-Verified (aead algorithm) envelope p calls e =
      let o =
        (AeadSound.aead_open_envelope_iff core config keys context algorithm envelope p).0 e in
      record {
        signature = o.signature;
        signature_bytes = o.decoded.signature_bytes;
        transcript = o.authorised.transcript;
        input = o.authorised.input;
        verified = o.authorised.verified;
      }

  -- In every payload mode, a plaintext is returned only with a verified signature over it.
  pub open_envelope-Verified :
      (envelope : SecureEnvelope) (p : Bytes) (calls : ℕ)
      → (open_envelope core config keys envelope context calls).0 ≡ ok p
      → Verified envelope p
  unfolding open_envelope
  open_envelope-Verified envelope p calls e =
      open_in-Verified config.envelope_mode envelope p calls e

  open_in_errors :
      (mode : EnvelopeMode) (envelope : SecureEnvelope) (calls : ℕ) (e : Error)
      → (open_in core mode config keys envelope context calls).0 ≡ err e
      → (e ≡ message_too_large config.max_plaintext_bytes) ⊎ (e ≡ invalid_envelope)
  unfolding open_in
  open_in_errors legacy_cbc envelope calls e h =
      ground (arith, Sound.cbc_open_envelope_errors core config keys context envelope calls e h)
  open_in_errors (aead algorithm) envelope calls e h =
      ground
        (arith, AeadSound.aead_open_envelope_errors core config keys context algorithm envelope e h)

  -- In every payload mode `open` fails with `MessageTooLarge` and the limit, or with
  -- `InvalidEnvelope`, and with nothing else.
  pub open_envelope_errors :
      (envelope : SecureEnvelope) (calls : ℕ) (e : Error)
      → (open_envelope core config keys envelope context calls).0 ≡ err e
      → (e ≡ message_too_large config.max_plaintext_bytes) ⊎ (e ≡ invalid_envelope)
  unfolding open_envelope
  open_envelope_errors envelope calls e h = open_in_errors config.envelope_mode envelope calls e h
