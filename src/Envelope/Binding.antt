-- ===== src/Envelope/Binding.antt =====
-- What an envelope is bound to: the algorithm that sealed it and the context that was signed.
use gmcrypto_envelope_lite.Base.{
  ℕ, ◌≡◌, ◌≢◌, refl, sym, ap, ◌∙◌, subst, arith, ok, true, some, ◌++◌,
}
use gmcrypto_envelope_lite.Bytes.{Bytes}
use gmcrypto_envelope_lite.Auth.Types.{AuthenticationContext, context_bound, bound}
use gmcrypto_envelope_lite.Auth.Mode.{authentication_input}
use gmcrypto_envelope_lite.Auth.Unambiguous.{authentication_input-inj}
use gmcrypto_envelope_lite.Config.Types.{ClientConfig, AeadAlgorithm, sm4_gcm, sm4_ccm}
use gmcrypto_envelope_lite.Core.{Core}
use gmcrypto_envelope_lite.Core.Laws.{Base64}
use gmcrypto_envelope_lite.Keys.Types.{KeyMaterial}
use gmcrypto_envelope_lite.Message.Types.{SecureEnvelope}
use gmcrypto_envelope_lite.Envelope.Contract.{open_envelope-Verified}
use gmcrypto_envelope_lite.Envelope.Dispatch.{open_envelope}
use gmcrypto_envelope_lite.Envelope.Aead.Frame.{algorithm_byte}
use gmcrypto_envelope_lite.Envelope.Aead.Seal as AeadSeal
use gmcrypto_envelope_lite.Envelope.Aead.Open as AeadOpen
use gmcrypto_envelope_lite.Envelope.Aead.Sealed.{seal-Sealed}
use gmcrypto_envelope_lite.Envelope.Aead.Sound as AeadSound

algorithm_byte-inj : (a b : AeadAlgorithm) → algorithm_byte a ≡ algorithm_byte b → a ≡ b
unfolding algorithm_byte
algorithm_byte-inj sm4_gcm sm4_gcm e = refl
algorithm_byte-inj sm4_gcm sm4_ccm e = absurd (omega arith)
algorithm_byte-inj sm4_ccm sm4_gcm e = absurd (omega arith)
algorithm_byte-inj sm4_ccm sm4_ccm e = refl

module _ (core : Core) (base64 : Base64 core) where
  -- Where Base64 decoding undoes encoding, an envelope that one AEAD algorithm has sealed never opens
  -- under the other, whatever the keys and contexts are: there is no negotiation and no fallback.
  pub seal_pins_algorithm :
      (sender receiver : ClientConfig) (sender_keys receiver_keys : KeyMaterial core)
      (context other : AuthenticationContext) (a b : AeadAlgorithm) (p q : Bytes)
      (envelope : SecureEnvelope) (r s : core.Rng)
      → a ≢ b
      → AeadSeal.seal core sender sender_keys p context a r ≡ (ok envelope, s)
      → AeadOpen.open_envelope core receiver receiver_keys envelope other b ≢ ok q
  seal_pins_algorithm sender receiver sender_keys receiver_keys context other a b p q envelope r s
        ne e opened =
      let made = seal-Sealed core sender sender_keys context a p envelope r s e in
      let o =
        (AeadSound.aead_open_envelope_iff core receiver receiver_keys other b envelope q).0
          opened in
      let f = (AeadSeal.frame_header a made.nonce ++ made.ciphertext) ++ made.tag in
      let same : some f ≡ some o.frame =
        sym (base64.decode-encode f)
        ∙ ap (λ (v : SecureEnvelope). core.base64_decode v.cipher) (sym made.result)
        ∙ o.decoded.frame_bytes in
      let frames : f ≡ o.frame = cc same in
      let first : algorithm_byte a ≡ AeadOpen.byte_at f 1 = unfold AeadSeal.frame_header in refl in
      ne (
        algorithm_byte-inj a b
          (first ∙ ap (λ (x : Bytes). AeadOpen.byte_at x 1) frames ∙ o.framed.algorithm_id))

module _ (core : Core) (config : ClientConfig) (keys : KeyMaterial core) where
  -- Opening under a context-bound mode with another protocol context, or to another plaintext, than
  -- those that were signed takes a signature that verifies over a transcript which was not signed.
  pub open_envelope_binds :
      (d signed_context c signed_plaintext p t : Bytes) (envelope : SecureEnvelope) (calls : ℕ)
      → config.authentication_mode ≡ context_bound d
      → authentication_input
          (context_bound d)
          (record { kind = bound signed_context })
          signed_plaintext
        ≡ ok t
      → (open_envelope core config keys envelope (record { kind = bound c }) calls).0 ≡ ok p
      → ¬ ((c ≡ signed_context) × (p ≡ signed_plaintext))
      → (u : Bytes) × (sig : Bytes) × (u ≢ t)
        × (core.base64_decode envelope.signature ≡ some sig)
        × (core.verify_with_id keys.remote_verification config.expected_remote_signer_id u sig
            ≡ true)
  open_envelope_binds d c₀ c p₀ p t envelope calls mode signed opened differ =
      let v =
        open_envelope-Verified core config keys (record { kind = bound c }) envelope p calls
          opened in
      let input : authentication_input (context_bound d) (record { kind = bound c }) p
          ≡ ok v.transcript =
        subst (λ m. authentication_input m (record { kind = bound c }) p ≡ ok v.transcript) mode
          v.input in
      (
        v.transcript,
        v.signature,
        λ same.
            let i = authentication_input-inj d d c c₀ p p₀ {t = t} (input ∙ ap ok same) signed in
            differ (i.1, i.2),
        v.signature_bytes,
        v.verified,
      )
