-- ===== src/Error.antt =====
-- src/error.rs: the redacted error types. Names of fields and operations are static strings.
use gmcrypto_envelope_lite.Base.{ℕ, String, Result}
use gmcrypto_envelope_lite.Text.{Text}

pub data AdapterErrorKind : Type 0 where
  invalid_mapping missing_field duplicate_field invalid_field : AdapterErrorKind

pub record AdapterError : Type 0 where
  pub kind : AdapterErrorKind

-- `AdapterError::new`, and `adapter_error` of src/adapter.rs
abbrev pub adapter_error : AdapterErrorKind → AdapterError
adapter_error k = record { kind = k }

abbrev pub AdapterResult {ℓ} : Type ℓ → Type ℓ
AdapterResult A = Result AdapterError A

pub data KeyKind : Type 0 where
  local_private peer_public : KeyKind

-- `io` carries the operation, the path, and the number that the system gave the error.
pub data Error : Type 0 where
  configuration : String → Error
  key_material : KeyKind → Error
  message_too_large : ℕ → Error
  serialization encryption authentication_context invalid_header header_conflict : Error
  protocol_adapter invalid_envelope : Error
  io : String → Text → ℕ → Error

-- `Result` of the crate: the fallible result with `Error`.
abbrev pub Fallible {ℓ} : Type ℓ → Type ℓ
Fallible A = Result Error A
