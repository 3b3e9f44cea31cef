-- ===== src/Envelope/Aead/Open.antt =====
-- `open` of src/envelope_crypto/aead.rs.
use gmcrypto_envelope_lite.Base.{
  ℕ, zero, suc, ◌-◌, not, ◌||◌, ◌==◌, ltb, [], ◌∷◌, ok, ◌>>=◌, ◌>>◌, fail_if, map_err, length, take,
  drop,
}
use gmcrypto_envelope_lite.Bytes.{Bytes, saturating_add}
use gmcrypto_envelope_lite.Text.{len}
use gmcrypto_envelope_lite.Error.{Fallible, invalid_envelope, message_too_large}
use gmcrypto_envelope_lite.Auth.Types.{AuthenticationContext}
use gmcrypto_envelope_lite.Auth.Mode.{authentication_input, aead_aad}
use gmcrypto_envelope_lite.Config.Types.{ClientConfig, AeadAlgorithm}
use gmcrypto_envelope_lite.Core.{Core}
use gmcrypto_envelope_lite.Keys.Types.{KeyMaterial}
use gmcrypto_envelope_lite.Message.Types.{SecureEnvelope}
use gmcrypto_envelope_lite.Envelope.Shared.{
  max_auxiliary_base64_bytes, base64_len, unwrap_session_key, decode_base64,
}
use gmcrypto_envelope_lite.Envelope.Aead.Frame.{
  frame_version, frame_header_bytes, tag_bytes, frame_overhead_bytes, algorithm_byte, aead_decrypt,
}

-- `frame[i]`; the frame is long enough wherever it is read.
abbrev pub byte_at : Bytes → ℕ → ℕ
byte_at [] i = 0
byte_at (b ∷ bs) zero = b
byte_at (b ∷ bs) (suc i) = byte_at bs i

-- A frame taken apart.
pub record Frame : Type 0 where
  pub header : Bytes
  pub ciphertext : Bytes
  pub tag : Bytes

-- From the first length test on the frame to the copy of the tag.
unfoldable pub split_frame : AeadAlgorithm → ℕ → Bytes → Fallible Frame
split_frame algorithm plaintext_limit frame = do
  fail_if (ltb (length frame) frame_overhead_bytes) invalid_envelope
  fail_if
      (not (byte_at frame 0 == frame_version) || not (byte_at frame 1 == algorithm_byte algorithm))
      invalid_envelope
  let body = drop frame_header_bytes frame
  let ciphertext_len = length body - tag_bytes
  fail_if (ltb plaintext_limit ciphertext_len) invalid_envelope
  ok (record {
    header = take frame_header_bytes frame;
    ciphertext = take ciphertext_len body;
    tag = drop ciphertext_len body;
  })

module _ (core : Core) where
  -- The checks and the decoding at the start of `open`: the frame, the wrapped key, the signature.
  unfoldable pub decode_fields : ClientConfig → SecureEnvelope → Fallible (Bytes × Bytes × Bytes)
  decode_fields config envelope = do
    let plaintext_limit = config.max_plaintext_bytes
    let max_frame_bytes = saturating_add plaintext_limit frame_overhead_bytes
    fail_if (ltb (base64_len max_frame_bytes) (len envelope.cipher))
        (message_too_large plaintext_limit)
    fail_if
        (ltb max_auxiliary_base64_bytes (len envelope.wrapped_session_key)
          || ltb max_auxiliary_base64_bytes (len envelope.signature))
        invalid_envelope
    frame ← decode_base64 core envelope.cipher
    wrapped ← decode_base64 core envelope.wrapped_session_key
    signature ← decode_base64 core envelope.signature
    ok (frame, wrapped, signature)

  -- From the session key to the plaintext.
  unfoldable pub open_frame :
      ClientConfig
      → KeyMaterial core
      → AuthenticationContext
      → AeadAlgorithm
      → Frame
      → Bytes
      → Bytes
      → Fallible Bytes
  open_frame config keys context algorithm frame wrapped signature = do
    session_key ← unwrap_session_key core keys wrapped
    aad ← map_err (λ _. invalid_envelope) (aead_aad config.authentication_mode context frame.header)
    plaintext ←
        aead_decrypt core algorithm session_key (drop 2 frame.header) aad frame.ciphertext frame.tag
    input ←
        map_err (λ _. invalid_envelope)
          (authentication_input config.authentication_mode context plaintext)
    fail_if
        (not (
          core.verify_with_id keys.remote_verification config.expected_remote_signer_id input
            signature))
        invalid_envelope
    ok plaintext

  unfoldable pub open_envelope :
      ClientConfig
      → KeyMaterial core
      → SecureEnvelope
      → AuthenticationContext
      → AeadAlgorithm
      → Fallible Bytes
  open_envelope config keys envelope context algorithm = do
    fields ← decode_fields config envelope
    frame ← split_frame algorithm config.max_plaintext_bytes fields.0
    open_frame config keys context algorithm frame fields.1 fields.2
