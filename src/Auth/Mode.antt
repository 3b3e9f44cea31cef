-- ===== src/Auth/Mode.antt =====
-- The methods of `AuthenticationMode` in src/auth.rs, and `push_field`. `Zeroizing` only clears
-- memory on drop, and a vector's capacity is not observable, so neither is kept.
use gmcrypto_envelope_lite.Base.{
  ℕ, ◌*◌, [], ◌∷◌, ◌++◌, length, is_empty, ok, err, ◌>>=◌, ◌>>◌, fail_if, ok_or, ltb, not,
}
use gmcrypto_envelope_lite.Text.{codes}
use gmcrypto_envelope_lite.Bytes.{Bytes, word_bound, checked_add, ◌and_then◌, to_be_bytes}
use gmcrypto_envelope_lite.Error.{Error, Fallible, configuration}
use gmcrypto_envelope_lite.Auth.Types.{
  AuthenticationMode, legacy_plaintext, ContextKind, legacy, bound, AuthenticationContext,
}

abbrev pub transcript_version : ℕ
transcript_version = 1

abbrev pub transcript_length_bytes : ℕ
transcript_length_bytes = 3 * 8

abbrev pub aead_aad_label : Bytes
aead_aad_label = codes "gmcrypto-envelope-lite/aead-aad/v1"

unfoldable pub push_field : Bytes → Bytes → Fallible Bytes
push_field target value = do
  fail_if (not (ltb (length value) word_bound)) Error.authentication_context
  ok ((target ++ to_be_bytes (length value)) ++ value)

-- `AuthenticationMode::context_bound`
unfoldable pub context_bound : Bytes → Fallible AuthenticationMode
context_bound domain_separator = do
  fail_if (is_empty domain_separator) (configuration "domain_separator")
  ok (AuthenticationMode.context_bound domain_separator)

unfoldable pub validate : AuthenticationMode → Fallible (Unit {0})
validate legacy_plaintext = ok tt
validate (AuthenticationMode.context_bound domain_separator) =
    fail_if (is_empty domain_separator) (configuration "domain_separator")

-- The match of `authentication_input` on the mode and the kind of the context.
unfoldable pub input_for : AuthenticationMode → ContextKind → Bytes → Fallible Bytes
input_for legacy_plaintext legacy plaintext = ok plaintext
input_for (AuthenticationMode.context_bound domain_separator) (bound context) plaintext = do
  ok_or
      (checked_add 1 transcript_length_bytes
        and_then (λ n. checked_add n (length domain_separator))
        and_then (λ n. checked_add n (length context))
        and_then (λ n. checked_add n (length plaintext)))
      Error.authentication_context
  input ← push_field (transcript_version ∷ []) domain_separator
  input' ← push_field input context
  push_field input' plaintext
input_for _ _ plaintext = err Error.authentication_context

unfoldable pub authentication_input :
    AuthenticationMode → AuthenticationContext → Bytes → Fallible Bytes
authentication_input mode context plaintext = do
  validate mode
  input_for mode context.kind plaintext

-- The match of `aead_aad` on the mode and the kind of the context.
unfoldable pub bound_fields : AuthenticationMode → ContextKind → Fallible (Bytes × Bytes)
bound_fields legacy_plaintext legacy = ok ([], [])
bound_fields (AuthenticationMode.context_bound domain_separator) (bound context) =
    ok (domain_separator, context)
bound_fields _ _ = err Error.authentication_context

unfoldable pub aad_of : Bytes → Bytes → Bytes → Fallible Bytes
aad_of frame_header domain_separator protocol_context = do
  ok_or
      (checked_add (4 * 8) (length aead_aad_label)
        and_then (λ n. checked_add n (length frame_header))
        and_then (λ n. checked_add n (length domain_separator))
        and_then (λ n. checked_add n (length protocol_context)))
      Error.authentication_context
  aad ← push_field [] aead_aad_label
  aad' ← push_field aad frame_header
  aad'' ← push_field aad' domain_separator
  push_field aad'' protocol_context

unfoldable pub aead_aad : AuthenticationMode → AuthenticationContext → Bytes → Fallible Bytes
aead_aad mode context frame_header = do
  validate mode
  fields ← bound_fields mode context.kind
  aad_of frame_header fields.0 fields.1
