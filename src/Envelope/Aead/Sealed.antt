-- ===== src/Envelope/Aead/Sealed.antt =====
-- What a successful AEAD `seal` (src/envelope_crypto/aead.rs) has drawn and computed.
use gmcrypto_envelope_lite.Base.{◌≡◌, ap, ◌∙◌, arith, ◌++◌, some, ok, ok_or, length}
use gmcrypto_envelope_lite.Bytes.{Bytes, checked_add}
use gmcrypto_envelope_lite.Error.{Fallible, encryption}
use gmcrypto_envelope_lite.Auth.Types.{AuthenticationContext}
use gmcrypto_envelope_lite.Auth.Mode.{authentication_input, aead_aad}
use gmcrypto_envelope_lite.Config.Types.{ClientConfig, AeadAlgorithm}
use gmcrypto_envelope_lite.Core.{Core}
use gmcrypto_envelope_lite.Keys.Types.{KeyMaterial}
use gmcrypto_envelope_lite.Message.Types.{SecureEnvelope}
use gmcrypto_envelope_lite.Envelope.Action.{lift, draw, >>=-Bound, draw-eq-ok, lift-eq-ok}
use gmcrypto_envelope_lite.Envelope.Shared.{generate_session_key, session_key_bytes}
use gmcrypto_envelope_lite.Envelope.Aead.Frame.{nonce_bytes, frame_overhead_bytes, aead_encrypt}
use gmcrypto_envelope_lite.Envelope.Aead.Seal.{frame_header, seal}

module _ (core : Core) (config : ClientConfig) (keys : KeyMaterial core)
    (context : AuthenticationContext) (algorithm : AeadAlgorithm) where
  -- What a successful `seal` has drawn and computed.
  pub record Sealed (p : Bytes) (envelope : SecureEnvelope) : Type 0 where
    pub input : Bytes
    pub session_key : Bytes
    pub nonce : Bytes
    pub aad : Bytes
    pub ciphertext : Bytes
    pub tag : Bytes
    pub wrapped : Bytes
    pub signature : Bytes
    pub r₀ : core.Rng
    pub r₁ : core.Rng
    pub r₂ : core.Rng
    pub r₃ : core.Rng
    pub r₄ : core.Rng
    pub authenticated : authentication_input config.authentication_mode context p ≡ ok input
    pub drawn : core.fill session_key_bytes r₀ ≡ (some session_key, r₁)
    pub drawn_nonce : core.fill nonce_bytes r₁ ≡ (some nonce, r₂)
    pub bound : aead_aad config.authentication_mode context (frame_header algorithm nonce) ≡ ok aad
    pub encrypted : aead_encrypt core algorithm session_key nonce aad p ≡ ok (ciphertext, tag)
    pub wrapping : core.sm2_encrypt keys.remote_encryption session_key r₂ ≡ (some wrapped, r₃)
    pub signing :
        core.sign_with_id keys.local_signing config.local_signer_id input r₃ ≡ (some signature, r₄)
    pub result : envelope ≡ record {
      cipher = core.base64_encode ((frame_header algorithm nonce ++ ciphertext) ++ tag);
      wrapped_session_key = core.base64_encode wrapped;
      signature = core.base64_encode signature;
    }

  sealed_value :
      {v w : SecureEnvelope} {s t : core.Rng}
      → ◌≡◌ {A = Fallible SecureEnvelope × core.Rng} (ok v, s) (ok w, t)
      → w ≡ v
  sealed_value e = ground arith

  pub seal-Sealed :
      (p : Bytes) (envelope : SecureEnvelope) (r s : core.Rng)
      → seal core config keys p context algorithm r ≡ (ok envelope, s)
      → Sealed p envelope
  unfolding seal generate_session_key
  seal-Sealed p envelope r s e =
      let b₀ =
        >>=-Bound (lift (authentication_input config.authentication_mode context p)) _ r envelope s
          e in
      let l₀ =
        lift-eq-ok (authentication_input config.authentication_mode context p) r b₀.state b₀.value
          b₀.first in
      let b₁ =
        >>=-Bound (draw (core.fill session_key_bytes) encryption) _ b₀.state envelope s b₀.rest in
      let b₂ = >>=-Bound (draw (core.fill nonce_bytes) encryption) _ b₁.state envelope s b₁.rest in
      let aad_result =
        aead_aad config.authentication_mode context (frame_header algorithm b₂.value) in
      let b₃ = >>=-Bound (lift aad_result) _ b₂.state envelope s b₂.rest in
      let l₃ = lift-eq-ok aad_result b₂.state b₃.state b₃.value b₃.first in
      let sealed_result = aead_encrypt core algorithm b₁.value b₂.value b₃.value p in
      let b₄ = >>=-Bound (lift sealed_result) _ b₃.state envelope s b₃.rest in
      let l₄ = lift-eq-ok sealed_result b₃.state b₄.state b₄.value b₄.first in
      let size = ok_or (checked_add frame_overhead_bytes (length b₄.value.0)) encryption in
      let b₅ = >>=-Bound (lift size) _ b₄.state envelope s b₄.rest in
      let l₅ = lift-eq-ok size b₄.state b₅.state b₅.value b₅.first in
      let b₆ =
        >>=-Bound (draw (core.sm2_encrypt keys.remote_encryption b₁.value) encryption) _ b₅.state
          envelope s b₅.rest in
      let b₇ =
        >>=-Bound
          (draw (core.sign_with_id keys.local_signing config.local_signer_id b₀.value) encryption) _
          b₆.state envelope s b₆.rest in
      record {
        input = b₀.value;
        session_key = b₁.value;
        nonce = b₂.value;
        aad = b₃.value;
        ciphertext = b₄.value.0;
        tag = b₄.value.1;
        wrapped = b₆.value;
        signature = b₇.value;
        r₀ = b₀.state;
        r₁ = b₁.state;
        r₂ = b₅.state;
        r₃ = b₆.state;
        r₄ = b₇.state;
        authenticated = l₀.0;
        drawn =
            draw-eq-ok (core.fill session_key_bytes) encryption b₀.state b₁.state b₁.value b₁.first;
        drawn_nonce =
            draw-eq-ok (core.fill nonce_bytes) encryption b₁.state b₂.state b₂.value b₂.first
            ∙ ap (λ (x : core.Rng). (some b₂.value, x)) (l₃.1 ∙ l₄.1 ∙ l₅.1);
        bound = l₃.0;
        encrypted = l₄.0;
        wrapping =
            draw-eq-ok (core.sm2_encrypt keys.remote_encryption b₁.value) encryption b₅.state
              b₆.state b₆.value b₆.first;
        signing =
            draw-eq-ok (core.sign_with_id keys.local_signing config.local_signer_id b₀.value)
              encryption b₆.state b₇.state b₇.value b₇.first;
        result = sealed_value b₇.rest;
      }
