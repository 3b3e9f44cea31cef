-- ===== src/Envelope/Complete.antt =====
-- When `seal` of src/envelope_crypto/mod.rs, cbc.rs and aead.rs succeeds, and that a message then
-- arrives.
use gmcrypto_envelope_lite.Base.{
  ℕ, ◌+◌, ◌-◌, ◌≤◌, ◌<◌, ◌^◌, ◌≡◌, ◌∙◌, refl, arith, ok, length, [], ◌∷◌, ◌++◌, take, drop,
  length-take, lt→ltb, le→ltb,
}
use gmcrypto_envelope_lite.Bytes.{Bytes, word_bound}
use gmcrypto_envelope_lite.Auth.Types.{
  AuthenticationMode, legacy_plaintext, context_bound, ContextKind, legacy, bound,
  AuthenticationContext,
}
use gmcrypto_envelope_lite.Auth.Mode.{authentication_input, aead_aad_label}
use gmcrypto_envelope_lite.Auth.Transcript.{
  framed, bound_transcript, aad_bytes, transcript, aad_layout, authentication_input_lem,
  aead_aad_lem,
}
use gmcrypto_envelope_lite.Config.Types.{
  ClientConfig, EnvelopeMode, legacy_cbc, aead, sm4_gcm, sm4_ccm, AeadAlgorithm,
  max_signer_id_bytes,
}
use gmcrypto_envelope_lite.Config.Accepted.{LimitFits}
use gmcrypto_envelope_lite.Core.{Core}
use gmcrypto_envelope_lite.Core.Laws.{Fills, Available, Aead, Cbc}
use gmcrypto_envelope_lite.Error.{Fallible}
use gmcrypto_envelope_lite.Keys.Types.{KeyMaterial}
use gmcrypto_envelope_lite.Message.Types.{SecureEnvelope}
use gmcrypto_envelope_lite.Envelope.Shared.{generate_session_key, session_key_bytes}
use gmcrypto_envelope_lite.Envelope.Cbc.Seal as CbcSeal
use gmcrypto_envelope_lite.Envelope.Aead.Frame.{
  aead_encrypt, split_ciphertext_and_tag, tag_bytes, nonce_bytes, frame_overhead_bytes,
}
use gmcrypto_envelope_lite.Envelope.Aead.Seal as AeadSeal
use gmcrypto_envelope_lite.Envelope.Aead.Seal.{frame_header}
use gmcrypto_envelope_lite.Envelope.Dispatch.{seal_in, seal, open_envelope}
use gmcrypto_envelope_lite.Envelope.Contract.{open_envelope-seal}
use gmcrypto_envelope_lite.Envelope.Peers.{Peers}

-- A context of the kind that the mode asks for, with a domain, both below 2^62 bytes.
abbrev pub Agrees : AuthenticationMode → ContextKind → Type 0
Agrees legacy_plaintext legacy = Unit
Agrees legacy_plaintext (bound c) = ⊥
Agrees (context_bound d) legacy = ⊥
Agrees (context_bound d) (bound c) = (1 ≤ length d) × (length d < 2 ^ 62) × (length c < 2 ^ 62)

transcript-Agrees :
    (mode : AuthenticationMode) (kind : ContextKind) (p : Bytes)
    → Agrees mode kind
    → length p < 2 ^ 36
    → (input : Bytes) × (transcript mode kind p ≡ ok input)
transcript-Agrees legacy_plaintext legacy p a small = (p, refl)
transcript-Agrees legacy_plaintext (bound c) p a small = absurd a
transcript-Agrees (context_bound []) legacy p a small = absurd a
transcript-Agrees (context_bound (x ∷ d)) legacy p a small = absurd a
transcript-Agrees (context_bound []) (bound c) p a small = absurd (omega arith)
transcript-Agrees (context_bound (x ∷ d)) (bound c) p a small =
    let fits = lt→ltb (25 + length (x ∷ d) + length c + length p) word_bound (omega arith) in
    (bound_transcript (x ∷ d) c p, rw fits refl)

aad_bytes-eq-ok :
    (h d c : Bytes)
    → length h ≤ 14
    → length d < 2 ^ 62
    → length c < 2 ^ 62
    → (aad : Bytes) × (aad_bytes h d c ≡ ok aad)
aad_bytes-eq-ok h d c small hd hc =
    let fits = lt→ltb (66 + length h + length d + length c) word_bound (omega arith) in
    (framed aead_aad_label ++ (framed h ++ (framed d ++ framed c)), rw fits refl)

aad_layout-Agrees :
    (mode : AuthenticationMode) (kind : ContextKind) (h : Bytes)
    → Agrees mode kind
    → length h ≤ 14
    → (aad : Bytes) × (aad_layout mode kind h ≡ ok aad)
aad_layout-Agrees legacy_plaintext legacy h a small =
    aad_bytes-eq-ok h [] [] small (omega arith) (omega arith)
aad_layout-Agrees legacy_plaintext (bound c) h a small = absurd a
aad_layout-Agrees (context_bound []) legacy h a small = absurd a
aad_layout-Agrees (context_bound (x ∷ d)) legacy h a small = absurd a
aad_layout-Agrees (context_bound []) (bound c) h a small = absurd (omega arith)
aad_layout-Agrees (context_bound (x ∷ d)) (bound c) h a small =
    aad_bytes-eq-ok h (x ∷ d) c small a.1 a.2

-- What a configuration, a context and a plaintext must be for `seal` to succeed.
pub record Admits (config : ClientConfig) (context : AuthenticationContext) (p : Bytes)
    : Type 0 where
  pub signer : length config.local_signer_id ≤ max_signer_id_bytes
  pub limit : LimitFits config.envelope_mode config.max_plaintext_bytes
  pub within : length p ≤ config.max_plaintext_bytes
  pub small : length p < 2 ^ 36 - 31
  pub agrees : Agrees config.authentication_mode context.kind

module _ (core : Core) (available : Available core) (fills : Fills core) (aead_laws : Aead core)
    (config : ClientConfig) (keys : KeyMaterial core) (context : AuthenticationContext) (p : Bytes)
    (admits : Admits config context p) where
  -- What a call from this state of the random source returns and leaves behind.
  Seals : (core.Rng → Fallible SecureEnvelope × core.Rng) → core.Rng → Type 0
  Seals run r = (envelope : SecureEnvelope) × (s : core.Rng) × (run r ≡ (ok envelope, s))

  authenticated :
      (input : Bytes) × (authentication_input config.authentication_mode context p ≡ ok input)
  authenticated =
      let t =
        transcript-Agrees config.authentication_mode context.kind p admits.agrees
          (let s = admits.small in omega arith) in
      (t.0, authentication_input_lem config.authentication_mode context p ∙ t.1)

  cbc_seal-Seals : (r : core.Rng) → Seals (CbcSeal.seal core config keys p context) r
  unfolding Seals CbcSeal.seal generate_session_key
  cbc_seal-Seals r =
      let (input, signed) = authenticated in
      let (key, r₁, filled) = available.fills session_key_bytes r in
      let (wrapped, r₂, wrapping) =
        available.wraps keys.remote_encryption key r₁ (fills.full session_key_bytes r r₁ filled) in
      let (signature, r₃, signing) =
        available.signs keys.local_signing config.local_signer_id input r₂ admits.signer in
      (
        record {
          cipher = core.base64_encode (core.cbc_encrypt key config.iv p);
          wrapped_session_key = core.base64_encode wrapped;
          signature = core.base64_encode signature;
        },
        r₃,
        rw (signed, filled, wrapping, signing) refl,
      )

  aead_encrypt-Available :
      (algorithm : AeadAlgorithm) (key nonce aad : Bytes)
      → LimitFits (aead algorithm) config.max_plaintext_bytes
      → length key ≡ 16
      → length nonce ≡ 12
      → (parts : Bytes × Bytes) × (aead_encrypt core algorithm key nonce aad p ≡ ok parts)
        × (length parts.0 ≡ length p)
  unfolding aead_encrypt split_ciphertext_and_tag
  aead_encrypt-Available sm4_gcm key nonce aad limit hk hn =
      let (c, t, e) = available.gcm key nonce aad p hk hn admits.small in
      ((c, t), rw e refl, (aead_laws.gcm_undo key nonce aad p e).1)
  aead_encrypt-Available sm4_ccm key nonce aad limit hk hn =
      let w = admits.within in
      let (j, e) = available.ccm key nonce aad p hk hn (omega arith) in
      let size = (aead_laws.ccm_undo key nonce aad p tag_bytes e).1 in
      let long = le→ltb (length j) tag_bytes (omega arith) in
      (
        (take (length j - tag_bytes) j, drop (length j - tag_bytes) j),
        rw (e, long) refl,
        omega (arith, length-take (length j - tag_bytes) j (omega arith)),
      )

  aead_seal-Seals :
      (algorithm : AeadAlgorithm) (r : core.Rng)
      → LimitFits (aead algorithm) config.max_plaintext_bytes
      → Seals (AeadSeal.seal core config keys p context algorithm) r
  unfolding Seals AeadSeal.seal generate_session_key
  aead_seal-Seals algorithm r limit =
      let (input, signed) = authenticated in
      let (key, r₁, filled) = available.fills session_key_bytes r in
      let (nonce, r₂, filled') = available.fills nonce_bytes r₁ in
      let hk = fills.full session_key_bytes r r₁ filled in
      let hn = fills.full nonce_bytes r₁ r₂ filled' in
      let (aad, layout) =
        aad_layout-Agrees config.authentication_mode context.kind (frame_header algorithm nonce)
          admits.agrees (unfold frame_header in omega arith) in
      let bound =
        aead_aad_lem config.authentication_mode context (frame_header algorithm nonce) ∙ layout in
      let (parts, encrypted, size) = aead_encrypt-Available algorithm key nonce aad limit hk hn in
      let small = admits.small in
      let fits = lt→ltb (frame_overhead_bytes + length parts.0) word_bound (omega arith) in
      let (wrapped, r₃, wrapping) = available.wraps keys.remote_encryption key r₂ hk in
      let (signature, r₄, signing) =
        available.signs keys.local_signing config.local_signer_id input r₃ admits.signer in
      (
        record {
          cipher = core.base64_encode ((frame_header algorithm nonce ++ parts.0) ++ parts.1);
          wrapped_session_key = core.base64_encode wrapped;
          signature = core.base64_encode signature;
        },
        r₄,
        rw (signed, filled, filled', bound, encrypted, fits, wrapping, signing) refl,
      )

  seal_in-Seals :
      (mode : EnvelopeMode) (r : core.Rng)
      → LimitFits mode config.max_plaintext_bytes
      → Seals (seal_in core mode config keys p context) r
  unfolding seal_in
  seal_in-Seals legacy_cbc r limit = cbc_seal-Seals r
  seal_in-Seals (aead algorithm) r limit = aead_seal-Seals algorithm r limit

  -- With external operations that do not refuse what they accept, `seal` returns an envelope from
  -- every state of the random source and in every payload mode, for a plaintext within the limit and
  -- a context of the kind that the configuration asks for.
  pub seal_total :
      (r : core.Rng)
      → (envelope : SecureEnvelope) × (s : core.Rng) × (seal core config keys p context r
          ≡ (ok envelope, s))
  unfolding seal Seals
  seal_total r =
      rw (le→ltb config.max_plaintext_bytes (length p) admits.within)
        (seal_in-Seals config.envelope_mode r admits.limit)

module _ (core : Core) (available : Available core) (sender : ClientConfig)
    (sender_keys : KeyMaterial core) (receiver : ClientConfig) (receiver_keys : KeyMaterial core)
    (peers : Peers core sender sender_keys receiver receiver_keys) (cbc : Cbc core)
    (aead_laws : Aead core) (same_iv : sender.iv ≡ receiver.iv)
    (same_mode : sender.envelope_mode ≡ receiver.envelope_mode) (context : AuthenticationContext)
    (p : Bytes) (admits : Admits sender context p)
    (within : length p ≤ receiver.max_plaintext_bytes) where
  -- A message arrives: between two ends with matching keys, modes and IV, and with external operations
  -- that are available and behave as documented, `seal` returns an envelope for a plaintext below
  -- 2^36 - 31 bytes within the limits of both, under a context of the kind that the authentication
  -- mode takes, and the receiver opens it to the bytes that were sealed.
  pub delivers :
      (r : core.Rng) (calls : ℕ)
      → (envelope : SecureEnvelope) × (s : core.Rng) × (seal core sender sender_keys p context r
          ≡ (ok envelope, s))
        × ((open_envelope core receiver receiver_keys envelope context calls).0 ≡ ok p)
  delivers r calls =
      let (envelope, s, sealed) =
        seal_total core available peers.fills aead_laws sender sender_keys context p admits r in
      let small = admits.small in
      (
        envelope,
        s,
        sealed,
        open_envelope-seal core sender sender_keys receiver receiver_keys peers cbc aead_laws
            same_iv context p within (omega arith) envelope r s calls same_mode sealed,
      )
