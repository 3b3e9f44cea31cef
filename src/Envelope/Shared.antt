-- ===== src/Envelope/Shared.antt =====
-- The helpers of src/envelope_crypto/mod.rs that every mode shares.
use mathlib.Core.Option
use gmcrypto_envelope_lite.Base.{
  ℕ, ◌+◌, ◌*◌, ◌/◌, ◌^◌, ◌≤◌, ◌<◌, ◌≡◌, arith, ◌==◌, not, Option, some, none, ok, ◌>>=◌, ◌>>◌,
  fail_if, ok_or, length,
}
use gmcrypto_envelope_lite.Bytes.{Bytes, usize_max, checked_add, checked_mul, ◌and_then◌}
use gmcrypto_envelope_lite.Text.{Text}
use gmcrypto_envelope_lite.Error.{Fallible, encryption, invalid_envelope}
use gmcrypto_envelope_lite.Core.{Core}
use gmcrypto_envelope_lite.Keys.Types.{KeyMaterial}
use gmcrypto_envelope_lite.Envelope.Action.{Action, draw}

abbrev pub session_key_bytes : ℕ
session_key_bytes = 16

abbrev pub max_auxiliary_base64_bytes : ℕ
max_auxiliary_base64_bytes = 16 * 1024

-- `Option::unwrap_or`
abbrev pub unwrap_or : {A : Type 0} → Option A → A → A
unwrap_or none d = d
unwrap_or (some a) d = a

unfoldable pub base64_len : ℕ → ℕ
base64_len binary_len =
    unwrap_or
      (Option.map (λ bytes. bytes / 3) (checked_add binary_len 2)
        and_then (λ groups. checked_mul groups 4))
      usize_max

module _ (core : Core) where
  unfoldable pub generate_session_key : Action core.Rng Bytes
  generate_session_key = draw (core.fill session_key_bytes) encryption

  unfoldable pub unwrap_session_key : KeyMaterial core → Bytes → Fallible Bytes
  unwrap_session_key keys wrapped_session_key = do
    unwrapped ← ok_or (core.sm2_decrypt keys.local_decryption wrapped_session_key) invalid_envelope
    fail_if (not (length unwrapped == session_key_bytes)) invalid_envelope
    ok unwrapped

  unfoldable pub decode_base64 : Text → Fallible Bytes
  decode_base64 value = ok_or (core.base64_decode value) invalid_envelope

-- Below half the range of `usize` nothing overflows, and the result is the Base64 length.
pub base64_len_lem : (n : ℕ) → n < 2 ^ 63 + 64 → base64_len n ≡ (n + 2) / 3 * 4
unfolding base64_len
base64_len_lem n h = ground arith

-- The Base64 length of `a` bytes, where `a` is at most `b` and below 2^63 + 64, passes the limit that
-- is computed from `b`, also where that computation saturates.
pub base64_len-guard : (a b : ℕ) → a ≤ b → a < 2 ^ 63 + 64 → (a + 2) / 3 * 4 ≤ base64_len b
unfolding base64_len
base64_len-guard a b h small = ground arith
