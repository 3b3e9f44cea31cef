-- ===== src/Config/Builder.antt =====
-- `ClientConfigBuilder` of src/client_config.rs: its setters and `build`.
use gmcrypto_envelope_lite.Base.{
  ℕ, ◌&&◌, ◌||◌, ◌==◌, Bool, true, false, Option, some, none, ok, err, ◌>>=◌, ◌>>◌, fail_if, ok_or,
  ltb, [], ◌∷◌,
}
use gmcrypto_envelope_lite.Text.{Text}
use gmcrypto_envelope_lite.Bytes.{Bytes}
use gmcrypto_envelope_lite.Error.{Fallible, configuration}
use gmcrypto_envelope_lite.Auth.Types.{AuthenticationMode}
use gmcrypto_envelope_lite.Auth.Mode.{validate}
use gmcrypto_envelope_lite.Config.Types.{
  default_max_plaintext_bytes, sm4_ccm_max_plaintext_bytes, sm4_ccm_default_max_plaintext_bytes,
  ClientIdentity, sm4_gcm, sm4_ccm, EnvelopeMode, legacy_cbc, aead, ClientConfig,
  ClientConfigBuilder, required_header_value, required_signer_id,
}

-- `ClientConfigBuilder::default`
abbrev pub builder : ClientConfigBuilder
builder = record {
  local_identity_id = none;
  api_version = none;
  local_certificate_id = none;
  expected_remote_signing_certificate_id = none;
  remote_encryption_certificate_id = none;
  local_signer_id = none;
  expected_remote_signer_id = none;
  authentication_mode = none;
  iv = none;
  envelope_mode = none;
  max_plaintext_bytes = none;
}

unfoldable pub local_identity_id : Text → ClientConfigBuilder → ClientConfigBuilder
local_identity_id value b = record b { local_identity_id = some value }

unfoldable pub api_version : Text → ClientConfigBuilder → ClientConfigBuilder
api_version value b = record b { api_version = some value }

unfoldable pub local_certificate_id : Text → ClientConfigBuilder → ClientConfigBuilder
local_certificate_id value b = record b { local_certificate_id = some value }

unfoldable pub expected_remote_signing_certificate_id :
    Text → ClientConfigBuilder → ClientConfigBuilder
expected_remote_signing_certificate_id value b = record b {
  expected_remote_signing_certificate_id = some value;
}

unfoldable pub remote_encryption_certificate_id : Text → ClientConfigBuilder → ClientConfigBuilder
remote_encryption_certificate_id value b = record b {
  remote_encryption_certificate_id = some value;
}

unfoldable pub local_signer_id : Bytes → ClientConfigBuilder → ClientConfigBuilder
local_signer_id value b = record b { local_signer_id = some value }

unfoldable pub expected_remote_signer_id : Bytes → ClientConfigBuilder → ClientConfigBuilder
expected_remote_signer_id value b = record b { expected_remote_signer_id = some value }

unfoldable pub authentication_mode : AuthenticationMode → ClientConfigBuilder → ClientConfigBuilder
authentication_mode value b = record b { authentication_mode = some value }

unfoldable pub iv : Bytes → ClientConfigBuilder → ClientConfigBuilder
iv value b = record b { iv = some value }

unfoldable pub envelope_mode : EnvelopeMode → ClientConfigBuilder → ClientConfigBuilder
envelope_mode value b = record b { envelope_mode = some value }

unfoldable pub max_plaintext_bytes : ℕ → ClientConfigBuilder → ClientConfigBuilder
max_plaintext_bytes value b = record b { max_plaintext_bytes = some value }

unfoldable pub build_identity : ClientConfigBuilder → Fallible ClientIdentity
build_identity b = do
  identity ← required_header_value b.local_identity_id "local_identity_id"
  version ← required_header_value b.api_version "api_version"
  certificate ← required_header_value b.local_certificate_id "local_certificate_id"
  signing ←
      required_header_value b.expected_remote_signing_certificate_id
        "expected_remote_signing_certificate_id"
  encryption ←
      required_header_value b.remote_encryption_certificate_id "remote_encryption_certificate_id"
  ok (record {
    local_identity_id = identity;
    api_version = version;
    local_certificate_id = certificate;
    expected_remote_signing_certificate_id = signing;
    remote_encryption_certificate_id = encryption;
  })

-- The filler that an AEAD configuration stores.
abbrev pub zero_iv : Bytes
zero_iv = 0 ∷ 0 ∷ 0 ∷ 0 ∷ 0 ∷ 0 ∷ 0 ∷ 0 ∷ 0 ∷ 0 ∷ 0 ∷ 0 ∷ 0 ∷ 0 ∷ 0 ∷ 0 ∷ []

-- The IV that `build` stores for the mode.
unfoldable pub build_iv : EnvelopeMode → Option Bytes → Fallible Bytes
build_iv legacy_cbc given = ok_or given (configuration "iv")
build_iv (aead _) none = ok zero_iv
build_iv (aead _) (some _) = err (configuration "iv")

abbrev pub is_ccm : EnvelopeMode → Bool
is_ccm (aead sm4_ccm) = true
is_ccm (aead sm4_gcm) = false
is_ccm legacy_cbc = false

-- `Option::unwrap_or` with the default limit of the mode.
abbrev pub limit_or_default : EnvelopeMode → Option ℕ → ℕ
limit_or_default mode (some limit) = limit
limit_or_default (aead sm4_ccm) none = sm4_ccm_default_max_plaintext_bytes
limit_or_default (aead sm4_gcm) none = default_max_plaintext_bytes
limit_or_default legacy_cbc none = default_max_plaintext_bytes

unfoldable pub build_limit : EnvelopeMode → Option ℕ → Fallible ℕ
build_limit mode given = do
  let max = limit_or_default mode given
  fail_if (max == 0 || (is_ccm mode && ltb sm4_ccm_max_plaintext_bytes max))
      (configuration "max_plaintext_bytes")
  ok max

unfoldable pub build : ClientConfigBuilder → Fallible ClientConfig
build b = do
  identity ← build_identity b
  local_id ← required_signer_id b.local_signer_id "local_signer_id"
  remote_id ← required_signer_id b.expected_remote_signer_id "expected_remote_signer_id"
  mode ← ok_or b.envelope_mode (configuration "envelope_mode")
  stored_iv ← build_iv mode b.iv
  authentication ← ok_or b.authentication_mode (configuration "authentication_mode")
  validate authentication
  limit ← build_limit mode b.max_plaintext_bytes
  ok (record {
    identity = identity;
    local_signer_id = local_id;
    expected_remote_signer_id = remote_id;
    authentication_mode = authentication;
    iv = stored_iv;
    envelope_mode = mode;
    max_plaintext_bytes = limit;
  })
