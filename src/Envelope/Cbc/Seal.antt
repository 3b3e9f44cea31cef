-- ===== src/Envelope/Cbc/Seal.antt =====
-- `seal` of src/envelope_crypto/cbc.rs.
use gmcrypto_envelope_lite.Bytes.{Bytes}
use gmcrypto_envelope_lite.Error.{encryption}
use gmcrypto_envelope_lite.Auth.Types.{AuthenticationContext}
use gmcrypto_envelope_lite.Auth.Mode.{authentication_input}
use gmcrypto_envelope_lite.Config.Types.{ClientConfig}
use gmcrypto_envelope_lite.Core.{Core}
use gmcrypto_envelope_lite.Keys.Types.{KeyMaterial}
use gmcrypto_envelope_lite.Message.Types.{SecureEnvelope}
use gmcrypto_envelope_lite.Envelope.Action.{Action, ◌>>=◌, pure, lift, draw}
use gmcrypto_envelope_lite.Envelope.Shared.{generate_session_key}

module _ (core : Core) where
  unfoldable pub seal :
      ClientConfig
      → KeyMaterial core
      → Bytes
      → AuthenticationContext
      → Action core.Rng SecureEnvelope
  seal config keys plaintext context = do
    input ← lift (authentication_input config.authentication_mode context plaintext)
    session_key ← generate_session_key core
    let cipher = core.cbc_encrypt session_key config.iv plaintext
    wrapped ← draw (core.sm2_encrypt keys.remote_encryption session_key) encryption
    signature ← draw (core.sign_with_id keys.local_signing config.local_signer_id input) encryption
    pure (record {
      cipher = core.base64_encode cipher;
      wrapped_session_key = core.base64_encode wrapped;
      signature = core.base64_encode signature;
    })
