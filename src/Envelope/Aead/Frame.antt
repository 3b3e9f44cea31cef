-- ===== src/Envelope/Aead/Frame.antt =====
-- The constants of src/envelope_crypto/aead.rs and its two primitives, with the tag kept apart.
-- A `[u8; TAG_BYTES]` is a byte string.
use gmcrypto_envelope_lite.Base.{
  ℕ, ◌+◌, ◌-◌, Option, some, none, ◌++◌, ◌>>=◌, ok_or, length, take, drop, ltb, if◌then◌else◌,
}
use gmcrypto_envelope_lite.Bytes.{Bytes}
use gmcrypto_envelope_lite.Error.{Fallible, encryption, invalid_envelope}
use gmcrypto_envelope_lite.Config.Types.{AeadAlgorithm, sm4_gcm, sm4_ccm}
use gmcrypto_envelope_lite.Core.{Core}

abbrev pub frame_version : ℕ
frame_version = 0x01

abbrev pub algorithm_sm4_gcm : ℕ
algorithm_sm4_gcm = 0x01

abbrev pub algorithm_sm4_ccm : ℕ
algorithm_sm4_ccm = 0x02

abbrev pub frame_header_bytes : ℕ
frame_header_bytes = 14

abbrev pub nonce_bytes : ℕ
nonce_bytes = 12

abbrev pub tag_bytes : ℕ
tag_bytes = 16

abbrev pub frame_overhead_bytes : ℕ
frame_overhead_bytes = frame_header_bytes + tag_bytes

unfoldable pub algorithm_byte : AeadAlgorithm → ℕ
algorithm_byte sm4_gcm = algorithm_sm4_gcm
algorithm_byte sm4_ccm = algorithm_sm4_ccm

unfoldable pub split_ciphertext_and_tag : Bytes → Option (Bytes × Bytes)
split_ciphertext_and_tag joined =
    let cut = length joined - tag_bytes in
    if ltb (length joined) tag_bytes then none else some (take cut joined, drop cut joined)

module _ (core : Core) where
  unfoldable pub aead_encrypt :
      AeadAlgorithm → Bytes → Bytes → Bytes → Bytes → Fallible (Bytes × Bytes)
  aead_encrypt sm4_gcm session_key nonce aad plaintext =
      ok_or (core.gcm_encrypt session_key nonce aad plaintext) encryption
  aead_encrypt sm4_ccm session_key nonce aad plaintext = do
    joined ← ok_or (core.ccm_encrypt session_key nonce aad plaintext tag_bytes) encryption
    ok_or (split_ciphertext_and_tag joined) encryption

  unfoldable pub aead_decrypt :
      AeadAlgorithm → Bytes → Bytes → Bytes → Bytes → Bytes → Fallible Bytes
  aead_decrypt sm4_gcm session_key nonce aad ciphertext tag =
      ok_or (core.gcm_decrypt session_key nonce aad ciphertext tag) invalid_envelope
  aead_decrypt sm4_ccm session_key nonce aad ciphertext tag =
      ok_or (core.ccm_decrypt session_key nonce aad (ciphertext ++ tag) tag_bytes) invalid_envelope
