-- ===== src/Fuzz/Laws.antt =====
-- The documented behaviour that the fuzz targets rely on, and that their fixed clients are made.
use gmcrypto_envelope_lite.Base.{ℕ, arith, ◌≡◌, ◌≢◌, ◌≤◌, refl, ok, true, some, replicate}
use gmcrypto_envelope_lite.Bytes.{Bytes}
use gmcrypto_envelope_lite.Text.{codes, trim, contains_line_break}
use gmcrypto_envelope_lite.Auth.Types.{AuthenticationMode, legacy_plaintext}
use gmcrypto_envelope_lite.Auth.Mode.{context_bound, validate}
use gmcrypto_envelope_lite.Config.Types.{
  AeadAlgorithm, sm4_gcm, sm4_ccm, ClientConfig, EnvelopeMode, legacy_cbc, aead,
  required_header_value, required_signer_id, validate_header_value,
}
use gmcrypto_envelope_lite.Config.Builder
use gmcrypto_envelope_lite.Config.Builder.{zero_iv}
use gmcrypto_envelope_lite.Core.{Core}
use gmcrypto_envelope_lite.Core.Laws.{Base64, Fills, Cbc, Aead, Wraps, Signs, Available}
use gmcrypto_envelope_lite.Keys.Types.{KeyMaterial, spki}
use gmcrypto_envelope_lite.Keys.Loaders
use gmcrypto_envelope_lite.Adapter.Types.{HeaderAuthentication, body, legacy}
use gmcrypto_envelope_lite.Adapter.Types as AdapterTypes
use gmcrypto_envelope_lite.Adapter.Mapping.{header_protocol_adapter}
use gmcrypto_envelope_lite.Client.Calls.{SecureClient}
use gmcrypto_envelope_lite.Client.Calls
use gmcrypto_envelope_lite.Fuzz.Built.{fuzz_schema, schema-ok, context_schema-ok}
use gmcrypto_envelope_lite.Fuzz.Clients.{
  KeyTools, test_scalar, test_password, fuzz_keys, fuzz_client, client, context_client,
  aead_client_with, fuzz_builder, fuzz_iv, client_config, context_config, aead_config,
  expected_certificate, context_domain_separator, fuzz_max_plaintext_bytes,
}

-- What the encodings of keys and the key pairs promise: the test scalar is a private key, encrypting
-- and encoding keys is undone by decrypting and decoding, and the two keys of a pair belong together.
pub record Lawful (core : Core) (tools : KeyTools core) : Type 0 where
  pub scalar : (k : core.Sm2PrivateKey) × (tools.from_bytes_be test_scalar ≡ some k)
  pub pkcs8 :
      (k : core.Sm2PrivateKey) (password salt iv : Bytes) (n : ℕ)
      → 1 ≤ n
      → (der : Bytes) × (tools.pkcs8_encrypt k password salt n iv ≡ some der)
        × (core.pkcs8_decrypt der password ≡ some k)
  pub spki : (p : core.Sm2PublicKey) → core.spki_decode (tools.spki_encode p) ≡ some p
  pub wraps : (k : core.Sm2PrivateKey) → Wraps core (tools.public_key k) k
  pub signs : (k : core.Sm2PrivateKey) → Signs core k (tools.public_key k)
  pub base64 : Base64 core
  pub fills : Fills core
  pub cbc : Cbc core
  pub aead : Aead core
  pub available : Available core

-- A forgery: a signature that was made over one message verifies over another.
pub record Forged (core : Core) (tools : KeyTools core) : Type 0 where
  pub key : core.Sm2PrivateKey
  pub id : Bytes
  pub signed : Bytes
  pub other : Bytes
  pub differ : other ≢ signed
  pub signature : Bytes
  pub before : core.Rng
  pub after : core.Rng
  pub made : core.sign_with_id key id signed before ≡ (some signature, after)
  pub verifies : core.verify_with_id (tools.public_key key) id other signature ≡ true

-- The configuration that a target's builder makes.
abbrev pub fuzz_config : AuthenticationMode → EnvelopeMode → Bytes → ClientConfig
fuzz_config authentication mode iv = record {
  identity = record {
    local_identity_id = codes "fuzz-identity";
    api_version = codes "fuzz-v1";
    local_certificate_id = expected_certificate;
    expected_remote_signing_certificate_id = expected_certificate;
    remote_encryption_certificate_id = codes "fuzz-encryption-certificate";
  };
  local_signer_id = codes "fuzz-signer";
  expected_remote_signer_id = codes "fuzz-signer";
  authentication_mode = authentication;
  iv = iv;
  envelope_mode = mode;
  max_plaintext_bytes = fuzz_max_plaintext_bytes;
}

pub client_config-ok : client_config ≡ ok (fuzz_config legacy_plaintext legacy_cbc fuzz_iv)
unfolding client_config fuzz_builder Builder.build Builder.build_identity required_header_value
    validate_header_value trim contains_line_break required_signer_id Builder.build_iv validate
    Builder.build_limit
client_config-ok = refl

pub context_config-ok :
    context_config
    ≡ ok
        (fuzz_config (AuthenticationMode.context_bound context_domain_separator) legacy_cbc fuzz_iv)
unfolding context_config fuzz_builder Builder.build context_bound Builder.build_identity
    required_header_value validate_header_value trim contains_line_break required_signer_id
    Builder.build_iv validate Builder.build_limit
context_config-ok = refl

pub aead_config-ok :
    (a : AeadAlgorithm) → aead_config a ≡ ok (fuzz_config legacy_plaintext (aead a) zero_iv)
unfolding aead_config fuzz_builder Builder.build Builder.build_identity required_header_value
    validate_header_value trim contains_line_break required_signer_id Builder.build_iv validate
    Builder.build_limit
aead_config-ok sm4_gcm = refl
aead_config-ok sm4_ccm = refl

module _ (core : Core) (tools : KeyTools core) (lawful : Lawful core tools) where
  -- The one private key of the targets.
  abbrev pub fuzz_key : core.Sm2PrivateKey
  fuzz_key = lawful.scalar.0

  abbrev pub fuzz_material : KeyMaterial core
  fuzz_material = record {
    local_signing = fuzz_key;
    local_decryption = fuzz_key;
    remote_verification = tools.public_key fuzz_key;
    remote_encryption = tools.public_key fuzz_key;
    remote_verification_source = spki;
    remote_encryption_source = spki;
    shared_roles = true;
  }

  fuzz_keys-some : fuzz_keys core tools ≡ some fuzz_material
  unfolding fuzz_keys Loaders.from_encrypted_der Loaders.from_der
  fuzz_keys-some =
      let (der, encrypted, decrypted) =
        lawful.pkcs8 fuzz_key test_password (replicate 16 7) (replicate 16 8) 1 (omega arith) in
      rw (lawful.scalar.1, encrypted, decrypted, lawful.spki (tools.public_key fuzz_key)) refl

  abbrev pub fuzz_client_of :
      AuthenticationMode → EnvelopeMode → Bytes → HeaderAuthentication → SecureClient core
  fuzz_client_of authentication mode iv kind = record {
    config = fuzz_config authentication mode iv;
    keys = fuzz_material;
    adapter = header_protocol_adapter (fuzz_schema body kind);
  }

  pub client-some :
      client core tools ≡ some (fuzz_client_of legacy_plaintext legacy_cbc fuzz_iv legacy)
  unfolding fuzz_client Calls.new header_protocol_adapter
  client-some = rw (client_config-ok, fuzz_keys-some, schema-ok) refl

  pub context_client-some :
      context_client core tools
      ≡ some (
          fuzz_client_of
            (AuthenticationMode.context_bound context_domain_separator)
            legacy_cbc
            fuzz_iv
            AdapterTypes.context_bound)
  unfolding fuzz_client Calls.new header_protocol_adapter
  context_client-some = rw (context_config-ok, fuzz_keys-some, context_schema-ok) refl

  pub aead_client_with-some :
      (a : AeadAlgorithm)
      → aead_client_with core tools a
        ≡ some (fuzz_client_of legacy_plaintext (aead a) zero_iv legacy)
  unfolding fuzz_client Calls.new header_protocol_adapter
  aead_client_with-some a = rw (aead_config-ok a, fuzz_keys-some, schema-ok) refl
