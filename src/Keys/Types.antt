-- ===== src/Keys/Types.antt =====
-- The structs and enums of src/keys.rs.
use gmcrypto_envelope_lite.Base.{Bool}
use gmcrypto_envelope_lite.Core.{Core}

pub data PeerKeySource : Type 0 where
  spki certificate : PeerKeySource

pub record PrivateKey (core : Core) : Type 0 where
  pub inner : core.Sm2PrivateKey

pub record PublicKey (core : Core) : Type 0 where
  pub inner : core.Sm2PublicKey
  pub source : PeerKeySource

pub record KeyMaterial (core : Core) : Type 0 where
  pub local_signing : core.Sm2PrivateKey
  pub local_decryption : core.Sm2PrivateKey
  pub remote_verification : core.Sm2PublicKey
  pub remote_encryption : core.Sm2PublicKey
  pub remote_verification_source : PeerKeySource
  pub remote_encryption_source : PeerKeySource
  pub shared_roles : Bool
