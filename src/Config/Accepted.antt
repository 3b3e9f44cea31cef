-- ===== src/Config/Accepted.antt =====
-- Exactly which builders `ClientConfigBuilder::build` (src/client_config.rs) accepts.
use gmcrypto_envelope_lite.Base.{
  ℕ, replicate, ◌≤◌, ◌-◌, ◌^◌, ◌≡◌, ◌↔◌, false, Option, some, none, arith, ok, is_empty, length, [],
  ◌∷◌, String,
}
use gmcrypto_envelope_lite.Text.{Text, trim, contains_line_break}
use gmcrypto_envelope_lite.Bytes.{Bytes}
use gmcrypto_envelope_lite.Auth.Types.{AuthenticationMode, legacy_plaintext, context_bound}
use gmcrypto_envelope_lite.Auth.Mode.{validate}
use gmcrypto_envelope_lite.Config.Types.{
  ClientIdentity, sm4_gcm, sm4_ccm, EnvelopeMode, legacy_cbc, aead, ClientConfig,
  ClientConfigBuilder, validate_header_value, required_header_value, required_signer_id,
}
use gmcrypto_envelope_lite.Config.Builder.{build_identity, build_iv, build_limit, build}

-- Not blank, and on one line.
pub record IsHeaderText (t : Text) : Type 0 where
  pub solid : is_empty (trim t) ≡ false
  pub one_line : contains_line_break t ≡ false

pub record IsSignerId (id : Bytes) : Type 0 where
  pub given : 1 ≤ length id
  pub short : length id ≤ 8191

abbrev pub IsMode : AuthenticationMode → Type 0
IsMode legacy_plaintext = Unit
IsMode (context_bound d) = 1 ≤ length d

pub record IsIdentity (i : ClientIdentity) : Type 0 where
  pub local_identity_id : IsHeaderText i.local_identity_id
  pub api_version : IsHeaderText i.api_version
  pub local_certificate_id : IsHeaderText i.local_certificate_id
  pub expected_remote_signing_certificate_id : IsHeaderText i.expected_remote_signing_certificate_id
  pub remote_encryption_certificate_id : IsHeaderText i.remote_encryption_certificate_id

-- An IV is given under CBC and stored; under an AEAD none is given, and sixteen zero bytes are stored.
abbrev pub IvFits : EnvelopeMode → Option Bytes → Bytes → Type 0
IvFits legacy_cbc given stored = given ≡ some stored
IvFits (aead _) given stored = (given ≡ none) × (stored ≡ replicate 16 0)

-- The limit is positive, and under CCM not above what its length field holds.
abbrev pub LimitFits : EnvelopeMode → ℕ → Type 0
LimitFits (aead sm4_ccm) n = (1 ≤ n) × (n ≤ 2 ^ 24 - 1)
LimitFits (aead sm4_gcm) n = 1 ≤ n
LimitFits legacy_cbc n = 1 ≤ n

-- The limit is the one that was given; where none was, 64 KiB under CCM and 16 MiB otherwise.
abbrev pub LimitGiven : EnvelopeMode → Option ℕ → ℕ → Type 0
LimitGiven mode (some limit) n = n ≡ limit
LimitGiven (aead sm4_ccm) none n = n ≡ 65536
LimitGiven (aead sm4_gcm) none n = n ≡ 16777216
LimitGiven legacy_cbc none n = n ≡ 16777216

required_header_value_iff :
    (o : Option Text) (f : String) (t : Text)
    → (required_header_value o f ≡ ok t) ↔ ((o ≡ some t) × IsHeaderText t)
unfolding required_header_value validate_header_value
required_header_value_iff o f t = ground arith

required_signer_id_iff :
    (o : Option Bytes) (f : String) (id : Bytes)
    → (required_signer_id o f ≡ ok id) ↔ ((o ≡ some id) × IsSignerId id)
unfolding required_signer_id
required_signer_id_iff none f id = ground arith
required_signer_id_iff (some []) f id = ground arith
required_signer_id_iff (some (x ∷ xs)) f id = ground arith

build_iv_iff :
    (m : EnvelopeMode) (o : Option Bytes) (b : Bytes) → (build_iv m o ≡ ok b) ↔ IvFits m o b
unfolding build_iv
build_iv_iff legacy_cbc o b = ground arith
build_iv_iff (aead a) o b = ground arith

build_limit_iff :
    (m : EnvelopeMode) (o : Option ℕ) (n : ℕ)
    → (build_limit m o ≡ ok n) ↔ (LimitGiven m o n × LimitFits m n)
unfolding build_limit
build_limit_iff legacy_cbc none n = ground arith
build_limit_iff legacy_cbc (some limit) n = ground arith
build_limit_iff (aead sm4_gcm) none n = ground arith
build_limit_iff (aead sm4_gcm) (some limit) n = ground arith
build_limit_iff (aead sm4_ccm) none n = ground arith
build_limit_iff (aead sm4_ccm) (some limit) n = ground arith

validate_iff : (m : AuthenticationMode) → (validate m ≡ ok tt) ↔ IsMode m
unfolding validate
validate_iff legacy_plaintext = ground arith
validate_iff (context_bound []) = ground arith
validate_iff (context_bound (x ∷ d)) = ground arith

-- What the builder must hold for the configuration to come out.
pub record Accepts (b : ClientConfigBuilder) (c : ClientConfig) : Type 0 where
  pub local_identity_id : b.local_identity_id ≡ some c.identity.local_identity_id
  pub api_version : b.api_version ≡ some c.identity.api_version
  pub local_certificate_id : b.local_certificate_id ≡ some c.identity.local_certificate_id
  pub signing_id :
      b.expected_remote_signing_certificate_id
      ≡ some c.identity.expected_remote_signing_certificate_id
  pub encryption_id :
      b.remote_encryption_certificate_id ≡ some c.identity.remote_encryption_certificate_id
  pub identity : IsIdentity c.identity
  pub local_signer_id : b.local_signer_id ≡ some c.local_signer_id
  pub local_signer : IsSignerId c.local_signer_id
  pub remote_signer_id : b.expected_remote_signer_id ≡ some c.expected_remote_signer_id
  pub remote_signer : IsSignerId c.expected_remote_signer_id
  pub envelope_mode : b.envelope_mode ≡ some c.envelope_mode
  pub iv : IvFits c.envelope_mode b.iv c.iv
  pub authentication_mode : b.authentication_mode ≡ some c.authentication_mode
  pub mode : IsMode c.authentication_mode
  pub limit : LimitGiven c.envelope_mode b.max_plaintext_bytes c.max_plaintext_bytes
  pub in_limit : LimitFits c.envelope_mode c.max_plaintext_bytes

build_identity_iff :
    (b : ClientConfigBuilder) (i : ClientIdentity)
    → (build_identity b ≡ ok i) ↔ (
        (b.local_identity_id ≡ some i.local_identity_id)
        × (b.api_version ≡ some i.api_version)
        × (b.local_certificate_id ≡ some i.local_certificate_id)
        × (b.expected_remote_signing_certificate_id ≡ some i.expected_remote_signing_certificate_id)
        × (b.remote_encryption_certificate_id ≡ some i.remote_encryption_certificate_id)
        × IsIdentity i)
unfolding build_identity
build_identity_iff b i = (
  λ e. ground (
    arith,
    required_header_value_iff b.local_identity_id "local_identity_id" i.local_identity_id,
    required_header_value_iff b.api_version "api_version" i.api_version,
    required_header_value_iff b.local_certificate_id "local_certificate_id" i.local_certificate_id,
    required_header_value_iff b.expected_remote_signing_certificate_id
        "expected_remote_signing_certificate_id" i.expected_remote_signing_certificate_id,
    required_header_value_iff b.remote_encryption_certificate_id "remote_encryption_certificate_id"
        i.remote_encryption_certificate_id,
  ),
  λ h. rw (
    (required_header_value_iff _ _ i.local_identity_id).1 (h.0, h.5.local_identity_id),
    (required_header_value_iff _ _ i.api_version).1 (h.1, h.5.api_version),
    (required_header_value_iff _ _ i.local_certificate_id).1 (h.2, h.5.local_certificate_id),
    (required_header_value_iff _ _ i.expected_remote_signing_certificate_id).1
        (h.3, h.5.expected_remote_signing_certificate_id),
    (required_header_value_iff _ _ i.remote_encryption_certificate_id).1
        (h.4, h.5.remote_encryption_certificate_id),
  ),
)

-- `build` returns a configuration exactly when every required field is given and well formed, the
-- IV is given exactly under CBC, and the plaintext limit is positive and under CCM below 2^24; the
-- configuration then holds what was given, and where no limit was, 64 KiB under CCM and 16 MiB
-- otherwise.
pub build_iff : (b : ClientConfigBuilder) (c : ClientConfig) → (build b ≡ ok c) ↔ Accepts b c
unfolding build
build_iff b c = (
  λ e. ground (
    arith,
    build_identity_iff b c.identity,
    required_signer_id_iff b.local_signer_id "local_signer_id" c.local_signer_id,
    required_signer_id_iff b.expected_remote_signer_id "expected_remote_signer_id"
        c.expected_remote_signer_id,
    build_iv_iff c.envelope_mode b.iv c.iv,
    validate_iff c.authentication_mode,
    build_limit_iff c.envelope_mode b.max_plaintext_bytes c.max_plaintext_bytes,
  ),
  λ h. rw (
    (build_identity_iff b c.identity).1 (
      h.local_identity_id, h.api_version, h.local_certificate_id, h.signing_id, h.encryption_id,
      h.identity,
    ),
    (required_signer_id_iff b.local_signer_id "local_signer_id" c.local_signer_id).1
        (h.local_signer_id, h.local_signer),
    (required_signer_id_iff b.expected_remote_signer_id "expected_remote_signer_id"
          c.expected_remote_signer_id).1
        (h.remote_signer_id, h.remote_signer),
    h.envelope_mode,
    (build_iv_iff c.envelope_mode b.iv c.iv).1 h.iv,
    h.authentication_mode,
    (validate_iff c.authentication_mode).1 h.mode,
    (build_limit_iff c.envelope_mode b.max_plaintext_bytes c.max_plaintext_bytes).1
        (h.limit, h.in_limit),
  ),
)
