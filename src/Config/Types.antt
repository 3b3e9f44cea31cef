-- ===== src/Config/Types.antt =====
-- The structs and enums of src/client_config.rs, and `ClientIdentity::new`. A `[u8; 16]` is a byte
-- string; nothing here depends on its length.
use gmcrypto_envelope_lite.Base.{
  ℕ, ◌*◌, ◌-◌, ◌/◌, ◌^◌, ◌||◌, String, Option, is_empty, ok, ◌>>=◌, ◌>>◌, fail_if, ok_or, length,
  ltb,
}
use gmcrypto_envelope_lite.Text.{Text, trim, contains_line_break}
use gmcrypto_envelope_lite.Bytes.{Bytes}
use gmcrypto_envelope_lite.Error.{Fallible, configuration}
use gmcrypto_envelope_lite.Auth.Types.{AuthenticationMode}

abbrev pub default_max_plaintext_bytes : ℕ
default_max_plaintext_bytes = 16 * 1024 * 1024

abbrev pub sm4_ccm_max_plaintext_bytes : ℕ
sm4_ccm_max_plaintext_bytes = 2 ^ 24 - 1

abbrev pub sm4_ccm_default_max_plaintext_bytes : ℕ
sm4_ccm_default_max_plaintext_bytes = 64 * 1024

-- `u16::MAX as usize / 8`
abbrev pub max_signer_id_bytes : ℕ
max_signer_id_bytes = 65535 / 8

pub record ClientIdentity : Type 0 where
  pub local_identity_id : Text
  pub api_version : Text
  pub local_certificate_id : Text
  pub expected_remote_signing_certificate_id : Text
  pub remote_encryption_certificate_id : Text

pub data AeadAlgorithm : Type 0 where
  sm4_gcm sm4_ccm : AeadAlgorithm

pub data EnvelopeMode : Type 0 where
  legacy_cbc : EnvelopeMode
  aead : AeadAlgorithm → EnvelopeMode

pub record ClientConfig : Type 0 where
  pub identity : ClientIdentity
  pub local_signer_id : Bytes
  pub expected_remote_signer_id : Bytes
  pub authentication_mode : AuthenticationMode
  pub iv : Bytes
  pub envelope_mode : EnvelopeMode
  pub max_plaintext_bytes : ℕ

pub record ClientConfigBuilder : Type 0 where
  pub local_identity_id : Option Text
  pub api_version : Option Text
  pub local_certificate_id : Option Text
  pub expected_remote_signing_certificate_id : Option Text
  pub remote_encryption_certificate_id : Option Text
  pub local_signer_id : Option Bytes
  pub expected_remote_signer_id : Option Bytes
  pub authentication_mode : Option AuthenticationMode
  pub iv : Option Bytes
  pub envelope_mode : Option EnvelopeMode
  pub max_plaintext_bytes : Option ℕ

unfoldable pub validate_header_value : Text → String → Fallible Text
validate_header_value value field = do
  fail_if (is_empty (trim value) || contains_line_break value) (configuration field)
  ok value

unfoldable pub required_header_value : Option Text → String → Fallible Text
required_header_value value field = do
  text ← ok_or value (configuration field)
  validate_header_value text field

unfoldable pub required_signer_id : Option Bytes → String → Fallible Bytes
required_signer_id value field = do
  id ← ok_or value (configuration field)
  fail_if (is_empty id || ltb max_signer_id_bytes (length id)) (configuration field)
  ok id

-- `ClientIdentity::new`
unfoldable pub new_identity : Text → Text → Text → Text → Text → Fallible ClientIdentity
new_identity identity version certificate signing encryption = do
  identity' ← validate_header_value identity "local_identity_id"
  version' ← validate_header_value version "api_version"
  certificate' ← validate_header_value certificate "local_certificate_id"
  signing' ← validate_header_value signing "expected_remote_signing_certificate_id"
  encryption' ← validate_header_value encryption "remote_encryption_certificate_id"
  ok (record {
    local_identity_id = identity';
    api_version = version';
    local_certificate_id = certificate';
    expected_remote_signing_certificate_id = signing';
    remote_encryption_certificate_id = encryption';
  })
