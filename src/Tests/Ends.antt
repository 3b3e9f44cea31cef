-- ===== src/Tests/Ends.antt =====
-- Two ends of a toy connection with matching keys, in each payload mode, for the tests.
use gmcrypto_envelope_lite.Base.{refl, [], ◌∷◌, replicate, true}
use gmcrypto_envelope_lite.Bytes.{Bytes}
use gmcrypto_envelope_lite.Text.{codes}
use gmcrypto_envelope_lite.Auth.Types.{
  AuthenticationMode, AuthenticationContext, context_bound, bound,
}
use gmcrypto_envelope_lite.Config.Types.{ClientConfig, ClientIdentity, EnvelopeMode}
use gmcrypto_envelope_lite.Keys.Types.{KeyMaterial, spki}
use gmcrypto_envelope_lite.Envelope.Peers.{Peers}
use gmcrypto_envelope_lite.Tests.Toy.{toy, base64_lem, fills_lem, wraps_lem, signs_lem}

abbrev pub domain : Bytes
domain = 100 ∷ 111 ∷ []

abbrev pub mode : AuthenticationMode
mode = context_bound domain

abbrev pub context : AuthenticationContext
context = record { kind = bound (9 ∷ 9 ∷ []) }

abbrev pub identity : ClientIdentity
identity = record {
  local_identity_id = codes "app";
  api_version = codes "1";
  local_certificate_id = codes "a";
  expected_remote_signing_certificate_id = codes "b";
  remote_encryption_certificate_id = codes "c";
}

abbrev pub config : EnvelopeMode → ClientConfig
config m = record {
  identity = identity;
  local_signer_id = 1 ∷ 2 ∷ [];
  expected_remote_signer_id = 1 ∷ 2 ∷ [];
  authentication_mode = mode;
  iv = replicate 16 5;
  envelope_mode = m;
  max_plaintext_bytes = 100;
}

abbrev pub keys : KeyMaterial toy
keys = record {
  local_signing = 7;
  local_decryption = 8;
  remote_verification = 7;
  remote_encryption = 8;
  remote_verification_source = spki;
  remote_encryption_source = spki;
  shared_roles = true;
}

pub peers : (m n : EnvelopeMode) → Peers toy (config m) keys (config n) keys
peers m n = record {
  mode = refl;
  signer = refl;
  wraps = wraps_lem 8;
  signs = signs_lem 7;
  base64 = base64_lem;
  fills = fills_lem;
}

abbrev pub plaintext : Bytes
plaintext = 3 ∷ 1 ∷ 4 ∷ []
