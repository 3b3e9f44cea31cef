-- ===== src/Message/Metadata.antt =====
-- `validate_context_value`, `RequestMetadata` and `ProtocolRequestContext` of src/message.rs. The
-- clock's answer is an argument: `none` is a time before the epoch.
use gmcrypto_envelope_lite.Base.{
  ℕ, ◌+◌, ◌-◌, ◌/◌, ◌%◌, ◌||◌, Option, [], ◌∷◌, ok, is_empty, fail_if, ok_or, ltb, if◌then◌else◌,
  ◌>>=◌, ◌>>◌,
}
use gmcrypto_envelope_lite.Text.{Text, trim, contains_line_break}
use gmcrypto_envelope_lite.Bytes.{Bytes}
use gmcrypto_envelope_lite.Error.{Fallible, invalid_header, encryption, serialization}
use gmcrypto_envelope_lite.Core.{Core}
use gmcrypto_envelope_lite.Envelope.Action
use gmcrypto_envelope_lite.Envelope.Action.{Action, lift, draw}
use gmcrypto_envelope_lite.Message.Types.{RequestMetadata, ProtocolRequestContext}
use gmcrypto_envelope_lite.Message.Time.{Duration, format_utc_timestamp}

unfoldable pub validate_context_value : Text → Fallible Text
validate_context_value value = do
  fail_if (is_empty (trim value) || contains_line_break value) invalid_header
  ok value

-- `RequestMetadata::new`
unfoldable pub new : Text → Text → Fallible RequestMetadata
new request_id request_time = do
  id ← validate_context_value request_id
  time ← validate_context_value request_time
  ok (record { request_id = id; request_time = time })

abbrev hex_digit : ℕ → ℕ
hex_digit n = if ltb n 10 then b'0' + n else b'a' + (n - 10)

-- `{byte:02x}` of every byte
unfoldable pub hex : Bytes → Text
hex [] = []
hex (b ∷ bs) = hex_digit (b / 16) ∷ hex_digit (b % 16) ∷ hex bs

-- What `generate` does with the random bytes and the clock.
unfoldable pub stamped : Bytes → Option Duration → Fallible RequestMetadata
stamped random now = do
  since_epoch ← ok_or now serialization
  request_time ← format_utc_timestamp since_epoch
  new (hex random) request_time

-- `RequestMetadata::generate`
unfoldable pub generate : (core : Core) → Option Duration → Action core.Rng RequestMetadata
generate core now =
    Action.◌>>=◌ (draw (core.fill 16) encryption) (λ random. lift (stamped random now))

-- `ProtocolRequestContext::new`
unfoldable pub new_protocol : Text → RequestMetadata → Fallible ProtocolRequestContext
new_protocol operation metadata = do
  operation' ← validate_context_value operation
  ok (record { operation = operation'; metadata = metadata })
