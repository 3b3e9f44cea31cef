-- ===== src/Core/Laws.antt =====
-- Documented behaviour of the external operations, as hypotheses of the theorems that need it.
use gmcrypto_envelope_lite.Base.{ℕ, ◌+◌, ◌-◌, ◌*◌, ◌/◌, ◌^◌, ◌≤◌, ◌<◌, ◌≡◌, true, some, length}
use gmcrypto_envelope_lite.Bytes.{Bytes}
use gmcrypto_envelope_lite.Text.{len}
use gmcrypto_envelope_lite.Core.{Core}

-- Base64 with padding: decoding undoes encoding, and three bytes become at most four
-- characters.
pub record Base64 (core : Core) : Type 0 where
  pub decode-encode : (b : Bytes) → core.base64_decode (core.base64_encode b) ≡ some b
  pub len-encode : (b : Bytes) → len (core.base64_encode b) ≤ (length b + 2) / 3 * 4

-- A random fill returns a buffer of the length that was asked for.
pub record Fills (core : Core) : Type 0 where
  pub full : (n : ℕ) (r s : core.Rng) {b : Bytes} → core.fill n r ≡ (some b, s) → length b ≡ n

-- CBC with PKCS#7 padding: one to sixteen bytes of padding, taken off again.
pub record Cbc (core : Core) : Type 0 where
  pub undo : (key iv p : Bytes) → core.cbc_decrypt key iv (core.cbc_encrypt key iv p) ≡ some p
  pub padded : (key iv p : Bytes) → length (core.cbc_encrypt key iv p) ≡ (length p / 16 + 1) * 16

-- GCM keeps the length and gives a tag of 16 bytes; CCM puts the tag behind the data.
pub record Aead (core : Core) : Type 0 where
  pub gcm_undo :
      (key nonce aad p : Bytes) {c t : Bytes}
      → core.gcm_encrypt key nonce aad p ≡ some (c, t)
      → (core.gcm_decrypt key nonce aad c t ≡ some p) × (length c ≡ length p) × (length t ≡ 16)
  pub ccm_undo :
      (key nonce aad p : Bytes) (n : ℕ) {j : Bytes}
      → core.ccm_encrypt key nonce aad p n ≡ some j
      → (core.ccm_decrypt key nonce aad j n ≡ some p) × (length j ≡ length p + n)

-- An SM2 key pair for encryption: what the public key wraps, the private key unwraps, and the DER
-- form adds at most 128 bytes.
pub record Wraps (core : Core) (public : core.Sm2PublicKey) (private : core.Sm2PrivateKey)
    : Type 0 where
  pub unwrap :
      (m : Bytes) (r s : core.Rng) {w : Bytes}
      → core.sm2_encrypt public m r ≡ (some w, s)
      → (core.sm2_decrypt private w ≡ some m) × (length w ≤ length m + 128)

-- An SM2 key pair for signatures: what the private key signs under an identifier, the public key
-- verifies under it. A DER signature has at most 128 bytes.
pub record Signs (core : Core) (private : core.Sm2PrivateKey) (public : core.Sm2PublicKey)
    : Type 0 where
  pub verify :
      (id m : Bytes) (r s : core.Rng) {sig : Bytes}
      → core.sign_with_id private id m r ≡ (some sig, s)
      → (core.verify_with_id public id m sig ≡ true) × (length sig ≤ 128)

-- What the operations accept they do not refuse: a fill at any size, SM2 encryption of a session key
-- of 16 bytes, a signature under an identifier of at most 8191 bytes (its length in bits is a 16-bit
-- field), GCM and CCM with a key of 16 and a nonce of 12 bytes up to the payload that their counters
-- allow.
pub record Available (core : Core) : Type 0 where
  pub fills : (n : ℕ) (r : core.Rng) → (b : Bytes) × (s : core.Rng) × (core.fill n r ≡ (some b, s))
  pub wraps :
      (key : core.Sm2PublicKey) (m : Bytes) (r : core.Rng)
      → length m ≡ 16
      → (w : Bytes) × (s : core.Rng) × (core.sm2_encrypt key m r ≡ (some w, s))
  pub signs :
      (key : core.Sm2PrivateKey) (id m : Bytes) (r : core.Rng)
      → length id ≤ 8191
      → (sig : Bytes) × (s : core.Rng) × (core.sign_with_id key id m r ≡ (some sig, s))
  pub gcm :
      (key nonce aad p : Bytes)
      → length key ≡ 16
      → length nonce ≡ 12
      → length p < 2 ^ 36 - 31
      → (c : Bytes) × (t : Bytes) × (core.gcm_encrypt key nonce aad p ≡ some (c, t))
  pub ccm :
      (key nonce aad p : Bytes)
      → length key ≡ 16
      → length nonce ≡ 12
      → length p < 2 ^ 24
      → (j : Bytes) × (core.ccm_encrypt key nonce aad p 16 ≡ some j)
