-- ===== src/Keys/Loaders.antt =====
-- The loaders of `PrivateKey` and `PublicKey` (src/keys.rs). The file system is an argument: `read`
-- answers a path with the file's bytes or with the number of the system's error.
use gmcrypto_envelope_lite.Base.{
  ℕ, Bool, Option, some, none, Result, ok, err, ok_or, map_err, ◌>>=◌, if◌then◌else◌,
}
use gmcrypto_envelope_lite.Bytes.{Bytes}
use gmcrypto_envelope_lite.Text.{Text, codes}
use gmcrypto_envelope_lite.Text.Decode.{from_utf8, starts_with, contains}
use gmcrypto_envelope_lite.Error.{Error, Fallible, key_material, local_private, peer_public, io}
use gmcrypto_envelope_lite.Core.{Core}
use gmcrypto_envelope_lite.Keys.Types.{PrivateKey, PublicKey, spki, certificate}

abbrev pub private_key_error : Error
private_key_error = key_material local_private

abbrev pub public_key_error : Error
public_key_error = key_material peer_public

unfoldable pub is_pem : Bytes → Bool
is_pem input = starts_with input (codes "-----BEGIN ")

module _ (core : Core) where
  unfoldable pub from_encrypted_der : Bytes → Bytes → Fallible (PrivateKey core)
  from_encrypted_der private_der password = do
    inner ← ok_or (core.pkcs8_decrypt private_der password) private_key_error
    ok (record { inner = inner })

  unfoldable pub from_encrypted_pem : Bytes → Bytes → Fallible (PrivateKey core)
  from_encrypted_pem private_pem password = do
    private_text ← ok_or (from_utf8 private_pem) private_key_error
    private_der ←
        ok_or (core.pem_decode private_text (codes "ENCRYPTED PRIVATE KEY")) private_key_error
    from_encrypted_der private_der password

  -- The choice between PEM and DER by the first bytes.
  unfoldable pub private_from_bytes : Bytes → Bytes → Fallible (PrivateKey core)
  private_from_bytes private password =
      if is_pem private
      then from_encrypted_pem private password
      else from_encrypted_der private password

  unfoldable pub from_encrypted_file :
      (Text → Result ℕ Bytes) → Text → Bytes → Fallible (PrivateKey core)
  from_encrypted_file read path password = do
    private ← map_err (io "read private key" path) (read path)
    private_from_bytes private password

  unfoldable pub from_spki_der : Bytes → Fallible (PublicKey core)
  from_spki_der public_der = do
    inner ← ok_or (core.spki_decode public_der) public_key_error
    ok (record { inner = inner; source = spki })

  unfoldable pub from_certificate_der : Bytes → Fallible (PublicKey core)
  from_certificate_der certificate_der = do
    parsed ← ok_or (core.certificate_from_der certificate_der) public_key_error
    ok (record { inner = core.subject_public_key parsed; source = certificate })

  unfoldable pub from_pem : Bytes → Fallible (PublicKey core)
  from_pem public_pem = do
    public_text ← ok_or (from_utf8 public_pem) public_key_error
    (if contains public_text (codes "-----BEGIN PUBLIC KEY-----")
        then (ok_or (core.pem_decode public_text (codes "PUBLIC KEY")) public_key_error
            >>= from_spki_der)
        else if contains public_text (codes "-----BEGIN CERTIFICATE-----")
        then (ok_or (core.pem_decode public_text (codes "CERTIFICATE")) public_key_error
            >>= from_certificate_der)
        else err public_key_error)

  abbrev from_certificate : Option core.Certificate → Fallible (PublicKey core)
  from_certificate none = err public_key_error
  from_certificate (some parsed) =
      ok (record { inner = core.subject_public_key parsed; source = certificate })

  abbrev spki_or_certificate : Option core.Sm2PublicKey → Bytes → Fallible (PublicKey core)
  spki_or_certificate (some inner) public_der = ok (record { inner = inner; source = spki })
  spki_or_certificate none public_der = from_certificate (core.certificate_from_der public_der)

  unfoldable pub from_der : Bytes → Fallible (PublicKey core)
  from_der public_der = spki_or_certificate (core.spki_decode public_der) public_der

  unfoldable pub public_from_bytes : Bytes → Fallible (PublicKey core)
  public_from_bytes public = if is_pem public then from_pem public else from_der public

  unfoldable pub from_file : (Text → Result ℕ Bytes) → Text → Fallible (PublicKey core)
  from_file read path = do
    public ← map_err (io "read peer key" path) (read path)
    public_from_bytes public
