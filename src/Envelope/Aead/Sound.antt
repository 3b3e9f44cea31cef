-- ===== src/Envelope/Aead/Sound.antt =====
-- What an AEAD `open` (src/envelope_crypto/aead.rs) that succeeds or fails has checked.
use gmcrypto_envelope_lite.Base.{
  ℕ, ◌+◌, ◌-◌, ◌≤◌, ◌≡◌, ◌↔◌, ◌⊎◌, inl, inr, ap, ◌∙◌, arith, true, not, ◌==◌, some, ok, err, ◌>>=◌,
  ◌>>◌, map_err, ==_iff, fail_if, length, ltb, take, drop, length-drop, subst, Bool-cases,
  Result-cases, Option-cases, le→ltb, eq→==, if◌then◌else◌,
}
use gmcrypto_envelope_lite.Bytes.{Bytes, saturating_add}
use gmcrypto_envelope_lite.Text.{len}
use gmcrypto_envelope_lite.Error.{Error, invalid_envelope, message_too_large}
use gmcrypto_envelope_lite.Auth.Types.{AuthenticationContext}
use gmcrypto_envelope_lite.Auth.Mode.{authentication_input, aead_aad}
use gmcrypto_envelope_lite.Config.Types.{ClientConfig, AeadAlgorithm}
use gmcrypto_envelope_lite.Core.{Core}
use gmcrypto_envelope_lite.Keys.Types.{KeyMaterial}
use gmcrypto_envelope_lite.Message.Types.{SecureEnvelope}
use gmcrypto_envelope_lite.Envelope.Shared.{
  base64_len, unwrap_session_key, decode_base64, max_auxiliary_base64_bytes, session_key_bytes,
}
use gmcrypto_envelope_lite.Envelope.Aead.Frame.{
  frame_version, frame_overhead_bytes, frame_header_bytes, tag_bytes, algorithm_byte, aead_decrypt,
}
use gmcrypto_envelope_lite.Envelope.Aead.Open.{
  byte_at, Frame, split_frame, decode_fields, open_frame, open_envelope,
}

-- What the frame must look like: long enough, with this version and this algorithm, and a
-- ciphertext within the limit.
pub record IsFrame (algorithm : AeadAlgorithm) (limit : ℕ) (frame : Bytes) : Type 0 where
  pub long_enough : frame_overhead_bytes ≤ length frame
  pub version : byte_at frame 0 ≡ frame_version
  pub algorithm_id : byte_at frame 1 ≡ algorithm_byte algorithm
  pub within : length frame ≤ limit + frame_overhead_bytes

-- The parts of a frame by position.
abbrev pub parts_of : Bytes → Frame
parts_of frame =
    let body = drop frame_header_bytes frame in
    record {
      header = take frame_header_bytes frame;
      ciphertext = take (length body - tag_bytes) body;
      tag = drop (length body - tag_bytes) body;
    }

-- `open` accepts a frame exactly when it is long enough, names the version and the configured
-- algorithm, and its ciphertext is within the limit; otherwise the error is `InvalidEnvelope`.
pub split_frame_lem :
    (algorithm : AeadAlgorithm) (limit : ℕ) (frame : Bytes)
    → (IsFrame algorithm limit frame × (split_frame algorithm limit frame ≡ ok (parts_of frame)))
      ⊎ ((¬ (IsFrame algorithm limit frame))
          × (split_frame algorithm limit frame ≡ err invalid_envelope))
unfolding split_frame
split_frame_lem algorithm limit frame = ground (arith, length-drop 14 frame)

module _ (core : Core) (config : ClientConfig) (keys : KeyMaterial core)
    (context : AuthenticationContext) (algorithm : AeadAlgorithm) where
  pub record Decoded (envelope : SecureEnvelope) (frame wrapped signature : Bytes) : Type 0 where
    pub cipher_size :
        len envelope.cipher
        ≤ base64_len (saturating_add config.max_plaintext_bytes frame_overhead_bytes)
    pub wrapped_size : len envelope.wrapped_session_key ≤ max_auxiliary_base64_bytes
    pub signature_size : len envelope.signature ≤ max_auxiliary_base64_bytes
    pub frame_bytes : core.base64_decode envelope.cipher ≡ some frame
    pub wrapped_bytes : core.base64_decode envelope.wrapped_session_key ≡ some wrapped
    pub signature_bytes : core.base64_decode envelope.signature ≡ some signature

  decode_fields_iff :
      (envelope : SecureEnvelope) (frame wrapped signature : Bytes)
      → (decode_fields core config envelope ≡ ok (frame, wrapped, signature))
        ↔ Decoded envelope frame wrapped signature
  unfolding decode_fields decode_base64
  decode_fields_iff envelope frame wrapped signature = ground arith

  -- What authorises a plaintext: the key unwraps to 16 bytes, the tag holds over the additional
  -- data of this header and context, and the signature over the plaintext's transcript verifies.
  pub record Authorised (frame : Frame) (wrapped signature p : Bytes) : Type 0 where
    pub session_key : Bytes
    pub key_bytes : core.sm2_decrypt keys.local_decryption wrapped ≡ some session_key
    pub key_length : length session_key ≡ session_key_bytes
    pub aad : Bytes
    pub aad_bytes : aead_aad config.authentication_mode context frame.header ≡ ok aad
    pub decrypted :
        aead_decrypt core algorithm session_key (drop 2 frame.header) aad frame.ciphertext frame.tag
        ≡ ok p
    pub transcript : Bytes
    pub input : authentication_input config.authentication_mode context p ≡ ok transcript
    pub verified :
        core.verify_with_id keys.remote_verification config.expected_remote_signer_id transcript
          signature
        ≡ true

  Authorised-intro :
      {frame : Frame} {wrapped signature p : Bytes} (k a : Bytes)
      → core.sm2_decrypt keys.local_decryption wrapped ≡ some k
      → length k ≡ session_key_bytes
      → aead_aad config.authentication_mode context frame.header ≡ ok a
      → (aead_decrypt core algorithm k (drop 2 frame.header) a frame.ciphertext frame.tag >>= λ q.
          map_err
            (λ _. invalid_envelope)
            (authentication_input config.authentication_mode context q)
          >>= λ t.
              fail_if
                (not (
                  core.verify_with_id keys.remote_verification config.expected_remote_signer_id t
                    signature))
                invalid_envelope
              >> ok q)
        ≡ ok p
      → Authorised frame wrapped signature p
  Authorised-intro {frame} {wrapped} {signature} {p} k a d n f e =
      elim (Result-cases
        (aead_decrypt core algorithm k (drop 2 frame.header) a frame.ciphertext frame.tag)) [
          | inr (x, g) ↦ absurd (cc (rw g at e))
          | inl (q, g) ↦
              elim (Result-cases (authentication_input config.authentication_mode context q)) [
                | inr (x, i) ↦ absurd (cc (rw (g, i) at e))
                | inl (t, i) ↦
                    let good = rw (g, i) at e in
                    let end : (q ≡ p)
                        × (core.verify_with_id keys.remote_verification
                              config.expected_remote_signer_id t signature
                            ≡ true) =
                      ground arith in
                    subst (Authorised frame wrapped signature) end.0 (record {
                      session_key = k;
                      key_bytes = d;
                      key_length = n;
                      aad = a;
                      aad_bytes = f;
                      decrypted = g;
                      transcript = t;
                      input = i;
                      verified = end.1;
                    })
              ]
        ]

  open_frame_sound :
      (frame : Frame) (wrapped signature p : Bytes)
      → open_frame core config keys context algorithm frame wrapped signature ≡ ok p
      → Authorised frame wrapped signature p
  unfolding open_frame unwrap_session_key
  open_frame_sound frame wrapped signature p e =
      elim (Option-cases (core.sm2_decrypt keys.local_decryption wrapped)) [
        | inl d ↦ absurd (cc (rw d at e))
        | inr (k, d) ↦ elim (Bool-cases (length k == session_key_bytes)) [
          | inr n ↦ absurd (cc (rw (d, n) at e))
          | inl n ↦ elim (Result-cases (aead_aad config.authentication_mode context frame.header)) [
            | inr (x, f) ↦ absurd (cc (rw (d, n, f) at e))
            | inl (a, f) ↦ Authorised-intro k a d ((==_iff _ _).0 n) f (rw (d, n, f) at e)
          ]
        ]
      ]

  open_frame_complete :
      (frame : Frame) (wrapped signature p : Bytes)
      → Authorised frame wrapped signature p
      → open_frame core config keys context algorithm frame wrapped signature ≡ ok p
  unfolding open_frame unwrap_session_key
  open_frame_complete frame wrapped signature p a =
      rw (a.key_bytes, eq→== _ _ a.key_length, a.aad_bytes, a.decrypted, a.input, a.verified)

  -- Everything that a successful opening has checked.
  pub record Opened (envelope : SecureEnvelope) (p : Bytes) : Type 0 where
    pub frame : Bytes
    pub wrapped : Bytes
    pub signature : Bytes
    pub decoded : Decoded envelope frame wrapped signature
    pub framed : IsFrame algorithm config.max_plaintext_bytes frame
    pub authorised : Authorised (parts_of frame) wrapped signature p

  -- `open` returns a plaintext exactly when the sizes are in bounds, the fields are Base64, the
  -- frame names the version and the configured algorithm, the session key unwraps, the tag holds
  -- over the header and the context, and the signature over this plaintext's transcript verifies.
  pub aead_open_envelope_iff :
      (envelope : SecureEnvelope) (p : Bytes)
      → (open_envelope core config keys envelope context algorithm ≡ ok p) ↔ Opened envelope p
  unfolding open_envelope
  aead_open_envelope_iff envelope p = (
    λ e. elim (Result-cases (decode_fields core config envelope)) [
      | inr (x, d) ↦ absurd (cc (rw d at e))
      | inl ((f, w, s), d) ↦ elim (split_frame_lem algorithm config.max_plaintext_bytes f) [
        | inr (bad, q) ↦ absurd (cc (rw (d, q) at e))
        | inl (good, q) ↦ record {
          frame = f;
          wrapped = w;
          signature = s;
          decoded = (decode_fields_iff envelope f w s).0 d;
          framed = good;
          authorised = open_frame_sound (parts_of f) w s p (rw (d, q) at e);
        }
      ]
    ],
    λ o.
        rw ((decode_fields_iff envelope o.frame o.wrapped o.signature).1 o.decoded)
          (elim (split_frame_lem algorithm config.max_plaintext_bytes o.frame) [
            | inr (bad, q) ↦ absurd (bad o.framed)
            | inl (good, q) ↦
                rw q (open_frame_complete (parts_of o.frame) o.wrapped o.signature p o.authorised)
          ]),
  )

  decode_fields_errors :
      (envelope : SecureEnvelope) (e : Error)
      → decode_fields core config envelope ≡ err e
      → e ≡ (
          if ltb
            (base64_len (saturating_add config.max_plaintext_bytes frame_overhead_bytes))
            (len envelope.cipher)
          then message_too_large config.max_plaintext_bytes
          else invalid_envelope)
  unfolding decode_fields decode_base64
  decode_fields_errors envelope e h = ground arith

  open_frame_errors :
      (frame : Frame) (wrapped signature : Bytes) (e : Error)
      → open_frame core config keys context algorithm frame wrapped signature ≡ err e
      → e ≡ invalid_envelope
  unfolding open_frame unwrap_session_key aead_decrypt
  open_frame_errors frame wrapped signature e h = ground arith

  -- A failing `open` tells nothing but the size of the encoded cipher: the error is
  -- `MessageTooLarge` with the limit when that size is above the bound, and otherwise always
  -- `InvalidEnvelope`.
  pub aead_open_envelope_errors :
      (envelope : SecureEnvelope) (e : Error)
      → open_envelope core config keys envelope context algorithm ≡ err e
      → e ≡ (
          if ltb
            (base64_len (saturating_add config.max_plaintext_bytes frame_overhead_bytes))
            (len envelope.cipher)
          then message_too_large config.max_plaintext_bytes
          else invalid_envelope)
  unfolding open_envelope
  aead_open_envelope_errors envelope e h =
      elim (Result-cases (decode_fields core config envelope)) [
        | inr (x, d) ↦ decode_fields_errors envelope e (d ∙ ap err (cc (rw d at h)))
        | inl ((f, w, s), d) ↦
            rw (le→ltb _ _ ((decode_fields_iff envelope f w s).0 d).cipher_size)
              (elim (split_frame_lem algorithm config.max_plaintext_bytes f) [
                | inr (bad, q) ↦ cc (rw (d, q) at h)
                | inl (good, q) ↦ open_frame_errors (parts_of f) w s e (rw (d, q) at h)
              ])
      ]
