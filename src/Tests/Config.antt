-- ===== src/Tests/Config.antt =====
-- The theorems on configurations and on the bounds that are computed from their limits.
use gmcrypto_envelope_lite.Base.{
  ◌≡◌, ◌≤◌, ◌↔◌, ◌⊎◌, ◌+◌, ◌-◌, ◌*◌, ◌/◌, ◌^◌, arith, ok, err, some, [], ◌∷◌, replicate,
}
use gmcrypto_envelope_lite.Error.{invalid_envelope}
use gmcrypto_envelope_lite.Config.Types.{ClientConfigBuilder, legacy_cbc, sm4_gcm}
use gmcrypto_envelope_lite.Config.Builder
use gmcrypto_envelope_lite.Config.Accepted
use gmcrypto_envelope_lite.Envelope.Shared
use gmcrypto_envelope_lite.Envelope.Aead.Open.{split_frame}
use gmcrypto_envelope_lite.Envelope.Aead.Sound
use gmcrypto_envelope_lite.Tests.Ends.{config, identity, mode}

abbrev given : ClientConfigBuilder
given = record {
  local_identity_id = some identity.local_identity_id;
  api_version = some identity.api_version;
  local_certificate_id = some identity.local_certificate_id;
  expected_remote_signing_certificate_id = some identity.expected_remote_signing_certificate_id;
  remote_encryption_certificate_id = some identity.remote_encryption_certificate_id;
  local_signer_id = some (1 ∷ 2 ∷ []);
  expected_remote_signer_id = some (1 ∷ 2 ∷ []);
  authentication_mode = some mode;
  iv = some (replicate 16 5);
  envelope_mode = some legacy_cbc;
  max_plaintext_bytes = some 100;
}

build_iff_example :
    (Builder.build given ≡ ok (config legacy_cbc)) ↔ Accepted.Accepts given (config legacy_cbc)
build_iff_example = Accepted.build_iff given (config legacy_cbc)

base64_len-guard_example : (2 ^ 63 + 2) / 3 * 4 ≤ Shared.base64_len (2 ^ 64 - 1)
base64_len-guard_example = Shared.base64_len-guard (2 ^ 63) (2 ^ 64 - 1) (omega arith) (omega arith)

split_frame_lem_example :
    (Sound.IsFrame sm4_gcm 100 (1 ∷ 1 ∷ replicate 30 0)
      × (split_frame sm4_gcm 100 (1 ∷ 1 ∷ replicate 30 0)
          ≡ ok (Sound.parts_of (1 ∷ 1 ∷ replicate 30 0))))
    ⊎ ((¬ (Sound.IsFrame sm4_gcm 100 (1 ∷ 1 ∷ replicate 30 0)))
        × (split_frame sm4_gcm 100 (1 ∷ 1 ∷ replicate 30 0) ≡ err invalid_envelope))
split_frame_lem_example = Sound.split_frame_lem sm4_gcm 100 (1 ∷ 1 ∷ replicate 30 0)
