-- ===== src/Envelope/Cbc/Sound.antt =====
-- What a CBC `open` (src/envelope_crypto/cbc.rs) that succeeds or fails has done.
use gmcrypto_envelope_lite.Base.{
  ℕ, ◌≤◌, ◌≡◌, ◌↔◌, inl, inr, ap, ◌∙◌, subst, le→ltb, eq→==, arith, true, some, ok, err, length,
  ltb, Result-cases, Option-cases, if◌then◌else◌,
}
use gmcrypto_envelope_lite.Bytes.{Bytes}
use gmcrypto_envelope_lite.Text.{len}
use gmcrypto_envelope_lite.Error.{Error, invalid_envelope, message_too_large}
use gmcrypto_envelope_lite.Auth.Types.{AuthenticationContext}
use gmcrypto_envelope_lite.Auth.Mode.{authentication_input}
use gmcrypto_envelope_lite.Config.Types.{ClientConfig}
use gmcrypto_envelope_lite.Core.{Core}
use gmcrypto_envelope_lite.Keys.Types.{KeyMaterial}
use gmcrypto_envelope_lite.Message.Types.{SecureEnvelope}
use gmcrypto_envelope_lite.Envelope.Shared.{
  base64_len, unwrap_session_key, decode_base64, max_auxiliary_base64_bytes, session_key_bytes,
}
use gmcrypto_envelope_lite.Envelope.Cbc.Open.{
  padded_cipher_len, verify_transcript, open_parts, open_body, open_envelope,
}

module _ (core : Core) (config : ClientConfig) (keys : KeyMaterial core)
    (context : AuthenticationContext) where
  -- What authorises a plaintext: the padding is right, the length is within the limit, and the
  -- remote key verifies the signature over the transcript of just this plaintext.
  pub record Authorised (cipher signature session_key p : Bytes) : Type 0 where
    pub decrypted : core.cbc_decrypt session_key config.iv cipher ≡ some p
    pub within : length p ≤ config.max_plaintext_bytes
    pub transcript : Bytes
    pub input : authentication_input config.authentication_mode context p ≡ ok transcript
    pub verified :
        core.verify_with_id keys.remote_verification config.expected_remote_signer_id transcript
          signature
        ≡ true

  open_body_sound :
      (cipher signature session_key p : Bytes) (calls : ℕ)
      → (open_body core config keys context (cipher, signature, session_key) calls).0 ≡ ok p
      → Authorised cipher signature session_key p
  unfolding open_body verify_transcript
  open_body_sound cipher signature session_key p calls e =
      elim (Option-cases (core.cbc_decrypt session_key config.iv cipher)) [
        | inl d ↦ let bad = rw d at e in cc
        | inr (q, d) ↦
            elim (Result-cases (authentication_input config.authentication_mode context q)) [
              | inr (x, f) ↦ let bad = rw (d, f) at e in ground arith
              | inl (t, f) ↦
                  let good = rw (d, f) at e in
                  let parts : (q ≡ p)
                      × (length q ≤ config.max_plaintext_bytes)
                      × (core.verify_with_id keys.remote_verification
                            config.expected_remote_signer_id t signature
                          ≡ true) =
                    ground arith in
                  subst (Authorised cipher signature session_key) parts.0 (record {
                    decrypted = d;
                    within = parts.1;
                    transcript = t;
                    input = f;
                    verified = parts.2;
                  })
            ]
      ]

  open_body_complete :
      (cipher signature session_key p : Bytes) (calls : ℕ)
      → Authorised cipher signature session_key p
      → (open_body core config keys context (cipher, signature, session_key) calls).0 ≡ ok p
  unfolding open_body verify_transcript
  open_body_complete cipher signature session_key p calls a =
      let within = a.within in rw (a.decrypted, a.input, a.verified) (ground arith)

  -- What the early checks establish.
  pub record Parts (envelope : SecureEnvelope) (cipher signature session_key : Bytes) : Type 0 where
    pub cipher_size :
        len envelope.cipher ≤ base64_len (padded_cipher_len config.max_plaintext_bytes)
    pub wrapped_size : len envelope.wrapped_session_key ≤ max_auxiliary_base64_bytes
    pub signature_size : len envelope.signature ≤ max_auxiliary_base64_bytes
    pub cipher_bytes : core.base64_decode envelope.cipher ≡ some cipher
    pub cipher_length : length cipher ≤ padded_cipher_len config.max_plaintext_bytes
    pub wrapped : Bytes
    pub wrapped_bytes : core.base64_decode envelope.wrapped_session_key ≡ some wrapped
    pub signature_bytes : core.base64_decode envelope.signature ≡ some signature
    pub key_bytes : core.sm2_decrypt keys.local_decryption wrapped ≡ some session_key
    pub key_length : length session_key ≡ session_key_bytes

  open_parts_sound :
      (envelope : SecureEnvelope) (cipher signature session_key : Bytes)
      → open_parts core config keys envelope ≡ ok (cipher, signature, session_key)
      → Parts envelope cipher signature session_key
  unfolding open_parts decode_base64 unwrap_session_key
  open_parts_sound envelope cipher signature session_key e =
      elim (Option-cases (core.base64_decode envelope.wrapped_session_key)) [
        | inl d ↦ absurd (ground arith)
        | inr (w, d) ↦ record {
          cipher_size = ground arith;
          wrapped_size = ground arith;
          signature_size = ground arith;
          cipher_bytes = ground arith;
          cipher_length = ground arith;
          wrapped = w;
          wrapped_bytes = d;
          signature_bytes = ground arith;
          key_bytes = ground arith;
          key_length = ground arith;
        }
      ]

  open_parts_complete :
      (envelope : SecureEnvelope) (cipher signature session_key : Bytes)
      → Parts envelope cipher signature session_key
      → open_parts core config keys envelope ≡ ok (cipher, signature, session_key)
  unfolding open_parts decode_base64 unwrap_session_key
  open_parts_complete envelope cipher signature session_key h = rw (
    le→ltb _ _ h.cipher_size,
    le→ltb _ _ h.wrapped_size,
    le→ltb _ _ h.signature_size,
    h.cipher_bytes,
    le→ltb _ _ h.cipher_length,
    h.wrapped_bytes,
    h.signature_bytes,
    h.key_bytes,
    eq→== _ _ h.key_length,
  )

  -- Everything that a successful opening has checked.
  pub record Opened (envelope : SecureEnvelope) (p : Bytes) : Type 0 where
    pub cipher : Bytes
    pub signature : Bytes
    pub session_key : Bytes
    pub parts : Parts envelope cipher signature session_key
    pub authorised : Authorised cipher signature session_key p

  -- `open` returns a plaintext exactly when every size is in bounds, all three fields are Base64,
  -- the session key unwraps to 16 bytes, the padding is right, the plaintext is within the limit,
  -- and the signature over the transcript of this plaintext verifies.
  pub cbc_open_envelope_iff :
      (envelope : SecureEnvelope) (p : Bytes) (calls : ℕ)
      → ((open_envelope core config keys envelope context calls).0 ≡ ok p) ↔ Opened envelope p
  unfolding open_envelope
  cbc_open_envelope_iff envelope p calls = (
    λ e. elim (Result-cases (open_parts core config keys envelope)) [
      | inr (x, d) ↦ let bad = rw d at e in absurd (cc bad)
      | inl ((c, s, k), d) ↦ record {
        cipher = c;
        signature = s;
        session_key = k;
        parts = open_parts_sound envelope c s k d;
        authorised = open_body_sound c s k p calls (rw d at e);
      }
    ],
    λ o.
        rw (open_parts_complete envelope o.cipher o.signature o.session_key o.parts)
          (open_body_complete o.cipher o.signature o.session_key p calls o.authorised),
  )

  open_body_errors :
      (parts : Bytes × Bytes × Bytes) (calls : ℕ) (e : Error)
      → (open_body core config keys context parts calls).0 ≡ err e
      → e ≡ invalid_envelope
  unfolding open_body verify_transcript
  open_body_errors (c, s, k) calls e h = ground arith

  open_parts_errors :
      (envelope : SecureEnvelope) (e : Error)
      → open_parts core config keys envelope ≡ err e
      → (e ≡ (
          if ltb (base64_len (padded_cipher_len config.max_plaintext_bytes)) (len envelope.cipher)
          then message_too_large config.max_plaintext_bytes
          else invalid_envelope))
  unfolding open_parts decode_base64 unwrap_session_key
  open_parts_errors envelope e h = ground arith

  -- A failing `open` says only one thing beside the size of the encoded cipher: the error is
  -- `MessageTooLarge` with the limit exactly when that size is above the bound, and otherwise
  -- always `InvalidEnvelope`.
  pub cbc_open_envelope_errors :
      (envelope : SecureEnvelope) (calls : ℕ) (e : Error)
      → (open_envelope core config keys envelope context calls).0 ≡ err e
      → (e ≡ (
          if ltb (base64_len (padded_cipher_len config.max_plaintext_bytes)) (len envelope.cipher)
          then message_too_large config.max_plaintext_bytes
          else invalid_envelope))
  unfolding open_envelope
  cbc_open_envelope_errors envelope calls e h =
      elim (Result-cases (open_parts core config keys envelope)) [
        | inr (x, d) ↦ open_parts_errors envelope e (d ∙ ap err (cc (rw d at h)))
        | inl ((c, s, k), d) ↦
            rw (le→ltb _ _ (open_parts_sound envelope c s k d).cipher_size)
              (open_body_errors (c, s, k) calls e (rw d at h))
      ]
