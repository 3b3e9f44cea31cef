-- ===== src/Core.antt =====
-- The interface of what the crate calls and does not implement: `gmcrypto_core` (SM2, SM4, PKCS#8,
-- SPKI, X.509, PEM), `getrandom` and `base64`. An operation that fails is `none`; one that draws
-- randomness takes the state of the source and returns the next.
pub mod Laws
use gmcrypto_envelope_lite.Base.{ℕ, Bool, Option}
use gmcrypto_envelope_lite.Bytes.{Bytes}
use gmcrypto_envelope_lite.Text.{Text}

pub record Core : Type 1 where
  pub Sm2PrivateKey : Type 0
  pub Sm2PublicKey : Type 0
  pub Certificate : Type 0
  pub Rng : Type 0
  -- `Sm2PrivateKey::to_bytes_be`, `Sm2PublicKey::to_sec1_uncompressed`
  pub to_bytes_be : Sm2PrivateKey → Bytes
  pub to_sec1_uncompressed : Sm2PublicKey → Bytes
  -- `pem::decode(text, label)`, `pkcs8::decrypt(der, password)`, `spki::decode`
  pub pem_decode : Text → Text → Option Bytes
  pub pkcs8_decrypt : Bytes → Bytes → Option Sm2PrivateKey
  pub spki_decode : Bytes → Option Sm2PublicKey
  -- `x509::Certificate::from_der`, `subject_public_key`
  pub certificate_from_der : Bytes → Option Certificate
  pub subject_public_key : Certificate → Sm2PublicKey
  -- `sm2::encrypt`, `decrypt`, `sign_with_id(key, id, message)`, `verify_with_id(key, id, message, signature)`
  pub sm2_encrypt : Sm2PublicKey → Bytes → Rng → Option Bytes × Rng
  pub sm2_decrypt : Sm2PrivateKey → Bytes → Option Bytes
  pub sign_with_id : Sm2PrivateKey → Bytes → Bytes → Rng → Option Bytes × Rng
  pub verify_with_id : Sm2PublicKey → Bytes → Bytes → Bytes → Bool
  -- `sm4::mode_cbc`: key, IV, data
  pub cbc_encrypt : Bytes → Bytes → Bytes → Bytes
  pub cbc_decrypt : Bytes → Bytes → Bytes → Option Bytes
  -- `sm4::mode_gcm`: key, nonce, additional data, data, and the tag where it is apart
  pub gcm_encrypt : Bytes → Bytes → Bytes → Bytes → Option (Bytes × Bytes)
  pub gcm_decrypt : Bytes → Bytes → Bytes → Bytes → Bytes → Option Bytes
  -- `sm4::mode_ccm`: key, nonce, additional data, data with the tag behind it, tag length
  pub ccm_encrypt : Bytes → Bytes → Bytes → Bytes → ℕ → Option Bytes
  pub ccm_decrypt : Bytes → Bytes → Bytes → Bytes → ℕ → Option Bytes
  -- `getrandom::fill` of a buffer of this length
  pub fill : ℕ → Rng → Option Bytes × Rng
  -- `base64::engine::general_purpose::STANDARD`
  pub base64_encode : Bytes → Text
  pub base64_decode : Text → Option Bytes
