-- ===== src/Auth/Types.antt =====
-- The two enums and the wrapper struct of src/auth.rs.
use gmcrypto_envelope_lite.Bytes.{Bytes}

pub data AuthenticationMode : Type 0 where
  legacy_plaintext : AuthenticationMode
  context_bound : Bytes → AuthenticationMode

pub data ContextKind : Type 0 where
  legacy : ContextKind
  bound : Bytes → ContextKind

pub record AuthenticationContext : Type 0 where
  pub kind : ContextKind
