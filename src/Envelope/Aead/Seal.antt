-- ===== src/Envelope/Aead/Seal.antt =====
-- `seal` of src/envelope_crypto/aead.rs.
use gmcrypto_envelope_lite.Base.{◌++◌, ◌∷◌, ok_or, length}
use gmcrypto_envelope_lite.Bytes.{Bytes, checked_add}
use gmcrypto_envelope_lite.Error.{encryption}
use gmcrypto_envelope_lite.Auth.Types.{AuthenticationContext}
use gmcrypto_envelope_lite.Auth.Mode.{authentication_input, aead_aad}
use gmcrypto_envelope_lite.Config.Types.{ClientConfig, AeadAlgorithm}
use gmcrypto_envelope_lite.Core.{Core}
use gmcrypto_envelope_lite.Keys.Types.{KeyMaterial}
use gmcrypto_envelope_lite.Message.Types.{SecureEnvelope}
use gmcrypto_envelope_lite.Envelope.Action.{Action, ◌>>=◌, pure, lift, draw}
use gmcrypto_envelope_lite.Envelope.Shared.{generate_session_key}
use gmcrypto_envelope_lite.Envelope.Aead.Frame.{
  frame_version, nonce_bytes, frame_overhead_bytes, algorithm_byte, aead_encrypt,
}

-- The version, the algorithm and the nonce.
unfoldable pub frame_header : AeadAlgorithm → Bytes → Bytes
frame_header algorithm nonce = frame_version ∷ algorithm_byte algorithm ∷ nonce

module _ (core : Core) where
  unfoldable pub seal :
      ClientConfig
      → KeyMaterial core
      → Bytes
      → AuthenticationContext
      → AeadAlgorithm
      → Action core.Rng SecureEnvelope
  seal config keys plaintext context algorithm = do
    input ← lift (authentication_input config.authentication_mode context plaintext)
    session_key ← generate_session_key core
    nonce ← draw (core.fill nonce_bytes) encryption
    let header = frame_header algorithm nonce
    aad ← lift (aead_aad config.authentication_mode context header)
    encrypted ← lift (aead_encrypt core algorithm session_key nonce aad plaintext)
    frame_len ← lift (ok_or (checked_add frame_overhead_bytes (length encrypted.0)) encryption)
    let frame = (header ++ encrypted.0) ++ encrypted.1
    wrapped ← draw (core.sm2_encrypt keys.remote_encryption session_key) encryption
    signature ← draw (core.sign_with_id keys.local_signing config.local_signer_id input) encryption
    pure (record {
      cipher = core.base64_encode frame;
      wrapped_session_key = core.base64_encode wrapped;
      signature = core.base64_encode signature;
    })
