-- ===== src/Auth/Context.antt =====
-- The constructors of `AuthenticationContext` in src/auth.rs.
use gmcrypto_envelope_lite.Base.{is_empty, ok, ◌>>◌, fail_if}
use gmcrypto_envelope_lite.Bytes.{Bytes}
use gmcrypto_envelope_lite.Error.{Error, Fallible}
use gmcrypto_envelope_lite.Auth.Types.{ContextKind, bound, AuthenticationContext}

-- `AuthenticationContext::legacy`
abbrev pub legacy : AuthenticationContext
legacy = record { kind = ContextKind.legacy }

-- `AuthenticationContext::context_bound`
unfoldable pub context_bound : Bytes → Fallible AuthenticationContext
context_bound bytes = do
  fail_if (is_empty bytes) Error.authentication_context
  ok (record { kind = bound bytes })
