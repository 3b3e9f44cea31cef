-- ===== src/Envelope/Cbc/Open.antt =====
-- `open` of src/envelope_crypto/cbc.rs. `VERIFY_CALLS`, the tally of verifications that the source
-- keeps in test builds, is the state that `open_envelope` threads.
use gmcrypto_envelope_lite.Base.{
  ℕ, ◌+◌, ◌-◌, ◌/◌, ◌^◌, Bool, ◌&&◌, ◌||◌, some, [], ok, err, is_ok, ok_value_or, is_some, ◌>>=◌,
  ◌>>◌, fail_if, length, leb, ltb, ◌==◌, if◌then◌else◌,
}
use gmcrypto_envelope_lite.Bytes.{Bytes, usize_max, checked_add, checked_mul, ◌and_then◌}
use gmcrypto_envelope_lite.Text.{len}
use gmcrypto_envelope_lite.Error.{Fallible, invalid_envelope, message_too_large}
use gmcrypto_envelope_lite.Auth.Types.{AuthenticationContext}
use gmcrypto_envelope_lite.Auth.Mode.{authentication_input}
use gmcrypto_envelope_lite.Config.Types.{ClientConfig}
use gmcrypto_envelope_lite.Core.{Core}
use gmcrypto_envelope_lite.Keys.Types.{KeyMaterial}
use gmcrypto_envelope_lite.Message.Types.{SecureEnvelope}
use gmcrypto_envelope_lite.Envelope.Action.{Action, continue}
use gmcrypto_envelope_lite.Envelope.Shared.{
  max_auxiliary_base64_bytes, unwrap_or, base64_len, unwrap_session_key, decode_base64,
}

abbrev pub sm4_block_bytes : ℕ
sm4_block_bytes = 16

unfoldable pub padded_cipher_len : ℕ → ℕ
padded_cipher_len plaintext_limit =
    unwrap_or
      (some (plaintext_limit / sm4_block_bytes)
        and_then (λ blocks. checked_add blocks 1)
        and_then (λ blocks. checked_mul blocks sm4_block_bytes))
      usize_max

-- `u32::MAX`
abbrev pub u32_max : ℕ
u32_max = 2 ^ 32 - 1

-- `record_verify_call`
unfoldable pub record_verify_call : ℕ → ℕ
record_verify_call calls = if calls == u32_max then calls else calls + 1

module _ (core : Core) where
  unfoldable pub verify_transcript : KeyMaterial core → ClientConfig → Bytes → Bytes → ℕ → Bool × ℕ
  verify_transcript keys config transcript signature calls = (
    core.verify_with_id keys.remote_verification config.expected_remote_signer_id transcript
        signature,
    record_verify_call calls,
  )

  -- The checks of `open` that return early, up to the session key: the cipher, the signature and
  -- the key.
  unfoldable pub open_parts :
      ClientConfig → KeyMaterial core → SecureEnvelope → Fallible (Bytes × Bytes × Bytes)
  open_parts config keys envelope = do
    let plaintext_limit = config.max_plaintext_bytes
    let max_cipher_bytes = padded_cipher_len plaintext_limit
    fail_if (ltb (base64_len max_cipher_bytes) (len envelope.cipher))
        (message_too_large plaintext_limit)
    fail_if
        (ltb max_auxiliary_base64_bytes (len envelope.wrapped_session_key)
          || ltb max_auxiliary_base64_bytes (len envelope.signature))
        invalid_envelope
    cipher ← decode_base64 core envelope.cipher
    fail_if (ltb max_cipher_bytes (length cipher)) invalid_envelope
    wrapped ← decode_base64 core envelope.wrapped_session_key
    signature ← decode_base64 core envelope.signature
    session_key ← unwrap_session_key core keys wrapped
    ok (cipher, signature, session_key)

  -- The rest of `open`, which always verifies.
  unfoldable pub open_body :
      ClientConfig
      → KeyMaterial core
      → AuthenticationContext
      → Bytes × Bytes × Bytes
      → ℕ
      → Fallible Bytes × ℕ
  open_body config keys context (cipher, signature, session_key) calls =
      let decrypted = core.cbc_decrypt session_key config.iv cipher in
      let padding_ok = is_some decrypted in
      let plaintext = unwrap_or decrypted cipher in
      let length_ok = leb (length plaintext) config.max_plaintext_bytes in
      let input = authentication_input config.authentication_mode context plaintext in
      let input_ok = is_ok input in
      let (verified, calls') =
        verify_transcript keys config (ok_value_or input []) signature calls in
      (
        if padding_ok && length_ok && input_ok && verified
            then ok plaintext
            else err invalid_envelope,
        calls',
      )

  unfoldable pub open_envelope :
      ClientConfig → KeyMaterial core → SecureEnvelope → AuthenticationContext → Action ℕ Bytes
  open_envelope config keys envelope context =
      continue (open_parts config keys envelope) (open_body config keys context)
