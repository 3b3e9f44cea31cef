-- ===== src/Adapter/Context.antt =====
-- The version-1 context encodings of src/adapter.rs.
use gmcrypto_envelope_lite.Base.{
  ℕ, not, ◌||◌, ltb, beq, is_empty, [], ◌∷◌, ◌++◌, ok, ◌>>=◌, ◌>>◌, fail_if, map_err,
}
use gmcrypto_envelope_lite.Bytes.{Bytes, word_bound, to_be_bytes}
use gmcrypto_envelope_lite.Text.{Text, trim, utf8, len}
use gmcrypto_envelope_lite.Error.{AdapterResult, adapter_error, invalid_field}
use gmcrypto_envelope_lite.Auth.Types.{AuthenticationContext}
use gmcrypto_envelope_lite.Auth.Context

abbrev pub header_context_version : ℕ
header_context_version = 0x01

abbrev pub header_context_request : ℕ
header_context_request = 0x01

abbrev pub header_context_response : ℕ
header_context_response = 0x02

unfoldable pub require_exact_trim : Text → AdapterResult Text
require_exact_trim value = do
  fail_if (is_empty (trim value) || not (beq value (trim value))) (adapter_error invalid_field)
  ok value

unfoldable pub push_length_prefixed : Bytes → Text → AdapterResult Bytes
push_length_prefixed buffer value = do
  fail_if (not (ltb (len value) word_bound)) (adapter_error invalid_field)
  ok ((buffer ++ to_be_bytes (len value)) ++ utf8 value)

unfoldable pub bound_context : Bytes → AdapterResult AuthenticationContext
bound_context bytes = map_err (λ _. adapter_error invalid_field) (Context.context_bound bytes)

unfoldable pub encode_request_context : Text → Text → AdapterResult AuthenticationContext
encode_request_context operation request_id = do
  operation' ← require_exact_trim operation
  request_id' ← require_exact_trim request_id
  bytes ← push_length_prefixed (header_context_version ∷ header_context_request ∷ []) operation'
  bytes' ← push_length_prefixed bytes request_id'
  bound_context bytes'

unfoldable pub encode_response_context : Text → AdapterResult AuthenticationContext
encode_response_context request_id = do
  request_id' ← require_exact_trim request_id
  bytes ← push_length_prefixed (header_context_version ∷ header_context_response ∷ []) request_id'
  bound_context bytes
