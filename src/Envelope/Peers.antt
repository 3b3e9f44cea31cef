-- ===== src/Envelope/Peers.antt =====
-- Two ends of one connection, as the sender and the receiver of an envelope, and what sealing has
-- drawn and computed in every mode of src/envelope_crypto.
use gmcrypto_envelope_lite.Base.{◌≤◌, ◌≡◌, arith, length}
use gmcrypto_envelope_lite.Bytes.{Bytes}
use gmcrypto_envelope_lite.Text.{len}
use gmcrypto_envelope_lite.Config.Types.{ClientConfig}
use gmcrypto_envelope_lite.Core.{Core}
use gmcrypto_envelope_lite.Core.Laws.{Base64, Fills, Wraps, Signs}
use gmcrypto_envelope_lite.Keys.Types.{KeyMaterial}
use gmcrypto_envelope_lite.Envelope.Shared.{max_auxiliary_base64_bytes}

-- The receiver expects the sender's mode and signer identifier and holds the other halves of the
-- sender's keys.
pub record Peers (core : Core) (sender : ClientConfig) (sender_keys : KeyMaterial core)
    (receiver : ClientConfig) (receiver_keys : KeyMaterial core) : Type 0 where
  pub mode : sender.authentication_mode ≡ receiver.authentication_mode
  pub signer : sender.local_signer_id ≡ receiver.expected_remote_signer_id
  pub wraps : Wraps core sender_keys.remote_encryption receiver_keys.local_decryption
  pub signs : Signs core sender_keys.local_signing receiver_keys.remote_verification
  pub base64 : Base64 core
  pub fills : Fills core

-- The encoding of a short byte string is within the limit of the auxiliary fields.
pub encoded_short :
    (core : Core) (b : Bytes)
    → Base64 core
    → length b ≤ 144
    → len (core.base64_encode b) ≤ max_auxiliary_base64_bytes
encoded_short core b base64 h = let e = base64.len-encode b in omega arith
