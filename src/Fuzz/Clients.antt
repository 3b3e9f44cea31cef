-- ===== src/Fuzz/Clients.antt =====
-- The clients of fuzz/fuzz_targets/support.rs: their configurations, their one key pair and their
-- adapters. What `expect` is called on may be `none`, a panic. That a static is made only once is not
-- kept: making it again gives the same client.
use gmcrypto_envelope_lite.Base.{ℕ, ◌+◌, ◌*◌, ◌/◌, Option, some, ◌>>=◌, [], ◌∷◌, ◌++◌, replicate}
use gmcrypto_envelope_lite.Bytes.{Bytes, ◌and_then◌}
use gmcrypto_envelope_lite.Text.{Text, codes}
use gmcrypto_envelope_lite.Error.{Fallible, AdapterResult}
use gmcrypto_envelope_lite.Auth.Types.{AuthenticationMode, legacy_plaintext}
use gmcrypto_envelope_lite.Auth.Mode.{context_bound}
use gmcrypto_envelope_lite.Config.Types.{
  AeadAlgorithm, ClientConfig, ClientConfigBuilder, EnvelopeMode, legacy_cbc, aead,
}
use gmcrypto_envelope_lite.Config.Builder.{
  builder, local_identity_id, api_version, local_certificate_id,
  expected_remote_signing_certificate_id, remote_encryption_certificate_id, local_signer_id,
  expected_remote_signer_id, authentication_mode, envelope_mode, iv, max_plaintext_bytes, build,
}
use gmcrypto_envelope_lite.Core.{Core}
use gmcrypto_envelope_lite.Keys.Types.{KeyMaterial}
use gmcrypto_envelope_lite.Keys.Loaders
use gmcrypto_envelope_lite.Keys.Roles
use gmcrypto_envelope_lite.Adapter.Types.{HeaderSchema}
use gmcrypto_envelope_lite.Adapter.Mapping.{header_protocol_adapter}
use gmcrypto_envelope_lite.Client.Calls
use gmcrypto_envelope_lite.Client.Calls.{SecureClient}
use gmcrypto_envelope_lite.Fuzz.Outcomes.{expect}
use gmcrypto_envelope_lite.Fuzz.Schemas.{schema, context_schema}

abbrev pub test_password : Bytes
test_password = codes "public-fuzz-password"

abbrev pub auxiliary_limit : ℕ
auxiliary_limit = 16 * 1024

abbrev pub fuzz_max_plaintext_bytes : ℕ
fuzz_max_plaintext_bytes = 64

abbrev pub aead_frame_overhead_bytes : ℕ
aead_frame_overhead_bytes = 30

-- `div_ceil`
abbrev div_ceil_3 : ℕ → ℕ
div_ceil_3 n = (n + 2) / 3

abbrev pub aead_cipher_limit : ℕ
aead_cipher_limit = div_ceil_3 (fuzz_max_plaintext_bytes + aead_frame_overhead_bytes) * 4

abbrev pub padded_cipher_bytes : ℕ
padded_cipher_bytes = (fuzz_max_plaintext_bytes / 16 + 1) * 16

abbrev pub cipher_limit : ℕ
cipher_limit = div_ceil_3 padded_cipher_bytes * 4

abbrev pub valid_plaintext : Bytes
valid_plaintext = codes "fuzz envelope"

abbrev pub expected_certificate : Text
expected_certificate = codes "fuzz-certificate"

abbrev pub context_domain_separator : Bytes
context_domain_separator = codes "fuzz/domain-separator/v1"

abbrev pub default_protocol_context : Bytes
default_protocol_context = codes "operation=fuzz"

-- The setters that all three configurations call.
unfoldable pub fuzz_builder : AuthenticationMode → EnvelopeMode → ClientConfigBuilder
unfolding local_identity_id api_version local_certificate_id expected_remote_signing_certificate_id
    remote_encryption_certificate_id local_signer_id expected_remote_signer_id authentication_mode
    envelope_mode max_plaintext_bytes
fuzz_builder authentication mode =
    let b0 = local_identity_id (codes "fuzz-identity") builder in
    let b1 = api_version (codes "fuzz-v1") b0 in
    let b2 = local_certificate_id expected_certificate b1 in
    let b3 = expected_remote_signing_certificate_id expected_certificate b2 in
    let b4 = remote_encryption_certificate_id (codes "fuzz-encryption-certificate") b3 in
    let b5 = local_signer_id (codes "fuzz-signer") b4 in
    let b6 = expected_remote_signer_id (codes "fuzz-signer") b5 in
    let b7 = authentication_mode authentication b6 in
    let b8 = envelope_mode mode b7 in max_plaintext_bytes fuzz_max_plaintext_bytes b8

abbrev pub fuzz_iv : Bytes
fuzz_iv = codes "0123456789abcdef"

-- The configurations of `client`, `context_client` and `aead_client_with`.
unfoldable pub client_config : Fallible ClientConfig
unfolding fuzz_builder iv
client_config = build (iv fuzz_iv (fuzz_builder legacy_plaintext legacy_cbc))

unfoldable pub context_config : Fallible ClientConfig
unfolding fuzz_builder iv
context_config = do
  mode ← context_bound context_domain_separator
  build (iv fuzz_iv (fuzz_builder mode legacy_cbc))

unfoldable pub aead_config : AeadAlgorithm → Fallible ClientConfig
unfolding fuzz_builder
aead_config algorithm = build (fuzz_builder legacy_plaintext (aead algorithm))

-- What the fuzz targets call of `gmcrypto_core` beyond the crate: `Sm2PrivateKey::from_bytes_be` and
-- `public_key`, `pkcs8::encrypt(key, password, salt, iterations, iv)` and `spki::encode`.
pub record KeyTools (core : Core) : Type 0 where
  pub from_bytes_be : Bytes → Option core.Sm2PrivateKey
  pub public_key : core.Sm2PrivateKey → core.Sm2PublicKey
  pub pkcs8_encrypt : core.Sm2PrivateKey → Bytes → Bytes → ℕ → Bytes → Option Bytes
  pub spki_encode : core.Sm2PublicKey → Bytes

abbrev pub test_scalar : Bytes
test_scalar = replicate 31 0 ++ 7 ∷ []

module _ (core : Core) (tools : KeyTools core) where
  -- The key pair in both roles, by way of its encoded forms.
  unfoldable pub fuzz_keys : Option (KeyMaterial core)
  fuzz_keys = tools.from_bytes_be test_scalar and_then λ private.
      (tools.pkcs8_encrypt private test_password (replicate 16 7) 1 (replicate 16 8)
        and_then λ encrypted.
            (expect (Loaders.from_encrypted_der core encrypted test_password) and_then λ local.
            (expect (Loaders.from_der core (tools.spki_encode (tools.public_key private)))
              and_then λ remote. some (Roles.shared core local remote))))

  -- A client from what its parts were made by.
  unfoldable pub fuzz_client :
      Fallible ClientConfig → AdapterResult HeaderSchema → Option (SecureClient core)
  fuzz_client configured made = expect configured and_then λ config.
      (fuzz_keys and_then λ keys.
      (expect made and_then λ s. expect (Calls.new core config keys (header_protocol_adapter s))))

  -- `client`
  abbrev pub client : Option (SecureClient core)
  client = fuzz_client client_config schema

  abbrev pub context_client : Option (SecureClient core)
  context_client = fuzz_client context_config context_schema

  abbrev pub aead_client_with : AeadAlgorithm → Option (SecureClient core)
  aead_client_with algorithm = fuzz_client (aead_config algorithm) schema
