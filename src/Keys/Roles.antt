-- ===== src/Keys/Roles.antt =====
-- `KeyMaterial` of src/keys.rs: the four roles, and the loaders for shared roles.
use gmcrypto_envelope_lite.Base.{
  ℕ, Bool, true, false, ◌||◌, ◌≡◌, ◌≢◌, ◌↔◌, arith, beq, beq_iff, Result, ok, fail_if, map_err,
  ◌>>=◌, ◌>>◌,
}
use gmcrypto_envelope_lite.Bytes.{Bytes}
use gmcrypto_envelope_lite.Text.{Text}
use gmcrypto_envelope_lite.Error.{Fallible, configuration, io}
use gmcrypto_envelope_lite.Core.{Core}
use gmcrypto_envelope_lite.Keys.Types.{PrivateKey, PublicKey, KeyMaterial}
use gmcrypto_envelope_lite.Keys.Loaders

module _ (core : Core) where
  abbrev pub private_roles_overlap : core.Sm2PrivateKey → core.Sm2PrivateKey → Bool
  private_roles_overlap left right = beq (core.to_bytes_be left) (core.to_bytes_be right)

  abbrev pub public_roles_overlap : core.Sm2PublicKey → core.Sm2PublicKey → Bool
  public_roles_overlap left right =
      beq (core.to_sec1_uncompressed left) (core.to_sec1_uncompressed right)

  -- `KeyMaterial::new`
  unfoldable pub new :
      PrivateKey core
      → PrivateKey core
      → PublicKey core
      → PublicKey core
      → Fallible (KeyMaterial core)
  new local_signing local_decryption remote_verification remote_encryption = do
    fail_if
        (private_roles_overlap local_signing.inner local_decryption.inner
          || public_roles_overlap remote_verification.inner remote_encryption.inner)
        (configuration "key_roles")
    ok (record {
      local_signing = local_signing.inner;
      local_decryption = local_decryption.inner;
      remote_verification = remote_verification.inner;
      remote_encryption = remote_encryption.inner;
      remote_verification_source = remote_verification.source;
      remote_encryption_source = remote_encryption.source;
      shared_roles = false;
    })

  -- `KeyMaterial::shared`
  abbrev pub shared : PrivateKey core → PublicKey core → KeyMaterial core
  shared local remote = record {
    local_signing = local.inner;
    local_decryption = local.inner;
    remote_verification = remote.inner;
    remote_encryption = remote.inner;
    remote_verification_source = remote.source;
    remote_encryption_source = remote.source;
    shared_roles = true;
  }

  unfoldable pub shared_from_pem : Bytes → Bytes → Bytes → Fallible (KeyMaterial core)
  shared_from_pem private_pem password peer_pem = do
    local ← Loaders.from_encrypted_pem core private_pem password
    remote ← Loaders.from_pem core peer_pem
    ok (shared local remote)

  unfoldable pub shared_from_der : Bytes → Bytes → Bytes → Fallible (KeyMaterial core)
  shared_from_der private_der password peer_der = do
    local ← Loaders.from_encrypted_der core private_der password
    remote ← Loaders.from_der core peer_der
    ok (shared local remote)

  unfoldable pub shared_from_files :
      (Text → Result ℕ Bytes) → Text → Bytes → Text → Fallible (KeyMaterial core)
  shared_from_files read private_path password peer_path = do
    private ← map_err (io "read private key" private_path) (read private_path)
    peer ← map_err (io "read peer key" peer_path) (read peer_path)
    local ← Loaders.private_from_bytes core private password
    remote ← Loaders.public_from_bytes core peer
    ok (shared local remote)

  -- Four keys are accepted exactly when the two local keys and the two remote keys differ in their
  -- encodings; each key then has the role it was given for, and the roles are not shared.
  pub key_material_new_iff :
      (signing decryption : PrivateKey core) (verification encryption : PublicKey core)
      (m : KeyMaterial core)
      → (new signing decryption verification encryption ≡ ok m) ↔ (
          (core.to_bytes_be signing.inner ≢ core.to_bytes_be decryption.inner)
          × (core.to_sec1_uncompressed verification.inner
              ≢ core.to_sec1_uncompressed encryption.inner)
          × (m ≡ record {
            local_signing = signing.inner;
            local_decryption = decryption.inner;
            remote_verification = verification.inner;
            remote_encryption = encryption.inner;
            remote_verification_source = verification.source;
            remote_encryption_source = encryption.source;
            shared_roles = false;
          }))
  unfolding new
  key_material_new_iff signing decryption verification encryption m = ground (
    arith,
    beq_iff (core.to_bytes_be signing.inner) (core.to_bytes_be decryption.inner),
    beq_iff (core.to_sec1_uncompressed verification.inner)
        (core.to_sec1_uncompressed encryption.inner),
  )
