-- ===== src/Envelope/Cbc/RoundTrip.antt =====
-- A CBC envelope (src/envelope_crypto/cbc.rs) that is sealed for a peer opens there.
use gmcrypto_envelope_lite.Base.{
  ℕ, ◌+◌, ◌*◌, ◌/◌, ◌^◌, ◌≤◌, ◌<◌, ◌≡◌, subst, arith, some, true, ok, length,
}
use gmcrypto_envelope_lite.Bytes.{Bytes}
use gmcrypto_envelope_lite.Error.{Fallible, encryption}
use gmcrypto_envelope_lite.Auth.Types.{AuthenticationContext}
use gmcrypto_envelope_lite.Auth.Mode.{authentication_input}
use gmcrypto_envelope_lite.Config.Types.{ClientConfig}
use gmcrypto_envelope_lite.Core.{Core}
use gmcrypto_envelope_lite.Core.Laws.{Cbc}
use gmcrypto_envelope_lite.Keys.Types.{KeyMaterial}
use gmcrypto_envelope_lite.Message.Types.{SecureEnvelope}
use gmcrypto_envelope_lite.Envelope.Action.{lift, draw, >>=-Bound, draw-eq-ok, lift-eq-ok}
use gmcrypto_envelope_lite.Envelope.Shared.{
  generate_session_key, session_key_bytes, base64_len-guard,
}
use gmcrypto_envelope_lite.Envelope.Peers.{Peers, encoded_short}
use gmcrypto_envelope_lite.Envelope.Cbc.Seal.{seal}
use gmcrypto_envelope_lite.Envelope.Cbc.Open.{padded_cipher_len, open_envelope}
use gmcrypto_envelope_lite.Envelope.Cbc.Sound.{Authorised, Parts, cbc_open_envelope_iff}

-- Padding a plaintext below 2^63 bytes to the next block stays within the bound that is computed from
-- a limit it is within, also where that computation saturates.
pub padded_cipher_len-guard :
    (n limit : ℕ) → n ≤ limit → n < 2 ^ 63 → (n / 16 + 1) * 16 ≤ padded_cipher_len limit
unfolding padded_cipher_len
padded_cipher_len-guard n limit h small = ground arith

module _ (core : Core) (config : ClientConfig) (keys : KeyMaterial core)
    (context : AuthenticationContext) where
  -- What a successful `seal` has drawn and computed.
  pub record Sealed (p : Bytes) (envelope : SecureEnvelope) : Type 0 where
    pub input : Bytes
    pub session_key : Bytes
    pub wrapped : Bytes
    pub signature : Bytes
    pub r₀ : core.Rng
    pub r₁ : core.Rng
    pub r₂ : core.Rng
    pub r₃ : core.Rng
    pub authenticated : authentication_input config.authentication_mode context p ≡ ok input
    pub drawn : core.fill session_key_bytes r₀ ≡ (some session_key, r₁)
    pub wrapping : core.sm2_encrypt keys.remote_encryption session_key r₁ ≡ (some wrapped, r₂)
    pub signing :
        core.sign_with_id keys.local_signing config.local_signer_id input r₂ ≡ (some signature, r₃)
    pub result : envelope ≡ record {
      cipher = core.base64_encode (core.cbc_encrypt session_key config.iv p);
      wrapped_session_key = core.base64_encode wrapped;
      signature = core.base64_encode signature;
    }

  sealed_value :
      {v w : SecureEnvelope} {s t : core.Rng}
      → ◌≡◌ {A = Fallible SecureEnvelope × core.Rng} (ok v, s) (ok w, t)
      → w ≡ v
  sealed_value e = ground arith

  pub seal-Sealed :
      (p : Bytes) (envelope : SecureEnvelope) (r s : core.Rng)
      → seal core config keys p context r ≡ (ok envelope, s)
      → Sealed p envelope
  unfolding seal generate_session_key
  seal-Sealed p envelope r s e =
      let b₀ =
        >>=-Bound (lift (authentication_input config.authentication_mode context p)) _ r envelope s
          e in
      let l =
        lift-eq-ok (authentication_input config.authentication_mode context p) r b₀.state b₀.value
          b₀.first in
      let b₁ =
        >>=-Bound (draw (core.fill session_key_bytes) encryption) _ b₀.state envelope s b₀.rest in
      let b₂ =
        >>=-Bound (draw (core.sm2_encrypt keys.remote_encryption b₁.value) encryption) _ b₁.state
          envelope s b₁.rest in
      let b₃ =
        >>=-Bound
          (draw (core.sign_with_id keys.local_signing config.local_signer_id b₀.value) encryption) _
          b₂.state envelope s b₂.rest in
      record {
        input = b₀.value;
        session_key = b₁.value;
        wrapped = b₂.value;
        signature = b₃.value;
        r₀ = b₀.state;
        r₁ = b₁.state;
        r₂ = b₂.state;
        r₃ = b₃.state;
        authenticated = l.0;
        drawn =
            draw-eq-ok (core.fill session_key_bytes) encryption b₀.state b₁.state b₁.value b₁.first;
        wrapping =
            draw-eq-ok (core.sm2_encrypt keys.remote_encryption b₁.value) encryption b₁.state
              b₂.state b₂.value b₂.first;
        signing =
            draw-eq-ok (core.sign_with_id keys.local_signing config.local_signer_id b₀.value)
              encryption b₂.state b₃.state b₃.value b₃.first;
        result = sealed_value b₃.rest;
      }

module _ (core : Core) (sender : ClientConfig) (sender_keys : KeyMaterial core)
    (receiver : ClientConfig) (receiver_keys : KeyMaterial core)
    (peers : Peers core sender sender_keys receiver receiver_keys) (cbc : Cbc core)
    (same_iv : sender.iv ≡ receiver.iv) (context : AuthenticationContext) (p : Bytes)
    (within : length p ≤ receiver.max_plaintext_bytes) (addressable : length p < 2 ^ 63) where
  Sealed-Parts :
      (envelope : SecureEnvelope) (s : Sealed core sender sender_keys context p envelope)
      → Parts core receiver receiver_keys context envelope
          (core.cbc_encrypt s.session_key sender.iv p)
          s.signature
          s.session_key
  Sealed-Parts envelope s =
      let guard =
        padded_cipher_len-guard (length p) receiver.max_plaintext_bytes within addressable in
      let padded = cbc.padded s.session_key sender.iv p in
      let key = peers.fills.full session_key_bytes s.r₀ s.r₁ s.drawn in
      let wrap = peers.wraps.unwrap s.session_key s.r₁ s.r₂ s.wrapping in
      let sign = peers.signs.verify sender.local_signer_id s.input s.r₂ s.r₃ s.signing in
      let c = core.cbc_encrypt s.session_key sender.iv p in
      rw s.result (record {
        cipher_size =
            let bound =
              base64_len-guard (length c) (padded_cipher_len receiver.max_plaintext_bytes)
                (omega arith) (omega arith) in
            let size = peers.base64.len-encode c in omega arith;
        wrapped_size = encoded_short core s.wrapped peers.base64 (omega arith);
        signature_size = encoded_short core s.signature peers.base64 (omega arith);
        cipher_bytes = peers.base64.decode-encode c;
        cipher_length = omega arith;
        wrapped = s.wrapped;
        wrapped_bytes = peers.base64.decode-encode s.wrapped;
        signature_bytes = peers.base64.decode-encode s.signature;
        key_bytes = wrap.0;
        key_length = key;
      })

  Sealed-Authorised :
      (envelope : SecureEnvelope) (s : Sealed core sender sender_keys context p envelope)
      → Authorised core receiver receiver_keys context
          (core.cbc_encrypt s.session_key sender.iv p)
          s.signature
          s.session_key
          p
  Sealed-Authorised envelope s = record {
    decrypted = rw same_iv (cbc.undo s.session_key receiver.iv p);
    within = within;
    transcript = s.input;
    input = subst (λ m. authentication_input m context p ≡ ok s.input) peers.mode s.authenticated;
    verified =
        subst
          (λ id.
            core.verify_with_id receiver_keys.remote_verification id s.input s.signature ≡ true)
          peers.signer (peers.signs.verify sender.local_signer_id s.input s.r₂ s.r₃ s.signing).0;
  }

  -- What one peer seals in CBC mode the other opens to the same plaintext: with the same mode, the
  -- same IV, the expected signer and matching keys, for every plaintext within the receiver's
  -- limit, under the documented behaviour of the primitives.
  pub cbc_open_envelope-seal :
      (envelope : SecureEnvelope) (r s : core.Rng) (calls : ℕ)
      → seal core sender sender_keys p context r ≡ (ok envelope, s)
      → (open_envelope core receiver receiver_keys envelope context calls).0 ≡ ok p
  cbc_open_envelope-seal envelope r s calls e =
      let sealed = seal-Sealed core sender sender_keys context p envelope r s e in
      (cbc_open_envelope_iff core receiver receiver_keys context envelope p calls).1 (record {
        cipher = core.cbc_encrypt sealed.session_key sender.iv p;
        signature = sealed.signature;
        session_key = sealed.session_key;
        parts = Sealed-Parts envelope sealed;
        authorised = Sealed-Authorised envelope sealed;
      })
