-- ===== src/Envelope/Dispatch.antt =====
-- `seal` and `open` of src/envelope_crypto/mod.rs, which choose the payload mode by configuration.
use gmcrypto_envelope_lite.Base.{ℕ, ltb, length, err, if◌then◌else◌}
use gmcrypto_envelope_lite.Bytes.{Bytes}
use gmcrypto_envelope_lite.Error.{message_too_large}
use gmcrypto_envelope_lite.Auth.Types.{AuthenticationContext}
use gmcrypto_envelope_lite.Config.Types.{ClientConfig, EnvelopeMode, legacy_cbc, aead}
use gmcrypto_envelope_lite.Core.{Core}
use gmcrypto_envelope_lite.Keys.Types.{KeyMaterial}
use gmcrypto_envelope_lite.Message.Types.{SecureEnvelope}
use gmcrypto_envelope_lite.Envelope.Action.{Action, lift}
use gmcrypto_envelope_lite.Envelope.Cbc.Seal
use gmcrypto_envelope_lite.Envelope.Cbc.Open
use gmcrypto_envelope_lite.Envelope.Aead.Seal as AeadSeal
use gmcrypto_envelope_lite.Envelope.Aead.Open as AeadOpen

module _ (core : Core) where
  unfoldable pub seal_in :
      EnvelopeMode
      → ClientConfig
      → KeyMaterial core
      → Bytes
      → AuthenticationContext
      → Action core.Rng SecureEnvelope
  seal_in (aead algorithm) config keys plaintext context =
      AeadSeal.seal core config keys plaintext context algorithm
  seal_in legacy_cbc config keys plaintext context = Seal.seal core config keys plaintext context

  unfoldable pub seal :
      ClientConfig
      → KeyMaterial core
      → Bytes
      → AuthenticationContext
      → Action core.Rng SecureEnvelope
  seal config keys plaintext context =
      if ltb config.max_plaintext_bytes (length plaintext)
      then lift (err (message_too_large config.max_plaintext_bytes))
      else seal_in config.envelope_mode config keys plaintext context

  unfoldable pub open_in :
      EnvelopeMode
      → ClientConfig
      → KeyMaterial core
      → SecureEnvelope
      → AuthenticationContext
      → Action ℕ Bytes
  open_in (aead algorithm) config keys envelope context =
      lift (AeadOpen.open_envelope core config keys envelope context algorithm)
  open_in legacy_cbc config keys envelope context =
      Open.open_envelope core config keys envelope context

  -- The tally of verifications is that of the CBC mode's test builds.
  unfoldable pub open_envelope :
      ClientConfig → KeyMaterial core → SecureEnvelope → AuthenticationContext → Action ℕ Bytes
  open_envelope config keys envelope context =
      open_in config.envelope_mode config keys envelope context
