-- ===== src/Fuzz/ContextSound.antt =====
-- The context-bound target of fuzz/fuzz_targets: what is sealed under a bound context opens under it,
-- and under another one only by a forgery.
use gmcrypto_envelope_lite.Base.{
  ◌<◌, ◌≤◌, ◌^◌, ◌≡◌, ◌≢◌, refl, sym, ap, subst, ◌∙◌, arith, ok, true, some, length, Bool-cases,
  ltb, inl, inr,
}
use gmcrypto_envelope_lite.Bytes.{Bytes}
use gmcrypto_envelope_lite.Auth.Types.{AuthenticationContext, context_bound, bound}
use gmcrypto_envelope_lite.Auth.Context.{legacy}
use gmcrypto_envelope_lite.Auth.Transcript.{authentication_input_lem}
use gmcrypto_envelope_lite.Auth.Unambiguous.{authentication_input-inj}
use gmcrypto_envelope_lite.Config.Types.{ClientConfig, legacy_cbc}
use gmcrypto_envelope_lite.Core.{Core}
use gmcrypto_envelope_lite.Message.Types.{SecureEnvelope}
use gmcrypto_envelope_lite.Envelope.Complete.{delivers}
use gmcrypto_envelope_lite.Envelope.Peers.{Peers}
use gmcrypto_envelope_lite.Envelope.Contract.{open_envelope-Verified}
use gmcrypto_envelope_lite.Envelope.Cbc.RoundTrip.{Sealed, seal-Sealed}
use gmcrypto_envelope_lite.Envelope.Dispatch.{seal, seal_in, open_envelope}
use gmcrypto_envelope_lite.Fuzz.Clients.{KeyTools, context_domain_separator, fuzz_iv}
use gmcrypto_envelope_lite.Fuzz.Laws.{Lawful, Forged, fuzz_config, fuzz_material, fuzz_key}

-- The configuration of the target's client.
abbrev pub config : ClientConfig
config = fuzz_config (context_bound context_domain_separator) legacy_cbc fuzz_iv

abbrev pub bound_to : Bytes → AuthenticationContext
bound_to c = record { kind = bound c }

module _ (core : Core) (tools : KeyTools core) (lawful : Lawful core tools) where
  both_ends :
      Peers core config (fuzz_material core tools lawful) config (fuzz_material core tools lawful)
  both_ends = record {
    mode = refl;
    signer = refl;
    wraps = lawful.wraps (fuzz_key core tools lawful);
    signs = lawful.signs (fuzz_key core tools lawful);
    base64 = lawful.base64;
    fills = lawful.fills;
  }

  pub round_trips :
      (c p : Bytes) (r : core.Rng)
      → length p ≤ 64
      → length c < 2 ^ 62
      → (envelope : SecureEnvelope) × (s : core.Rng) × (seal core config
            (fuzz_material core tools lawful)
            p
            (bound_to c)
            r
          ≡ (ok envelope, s))
        × ((open_envelope core config (fuzz_material core tools lawful) envelope (bound_to c) 0).0
            ≡ ok p)
  round_trips c p r hp hc =
      delivers core lawful.available config (fuzz_material core tools lawful) config
        (fuzz_material core tools lawful) both_ends lawful.cbc lawful.aead refl refl (bound_to c) p
        (record {
          signer = omega arith;
          limit = omega arith;
          within = hp;
          small = omega arith;
          agrees = (omega arith, omega arith, hc);
        })
        hp r 0

  -- Without a bound context nothing opens.
  pub legacy_refused :
      (envelope : SecureEnvelope) (p : Bytes)
      → (open_envelope core config (fuzz_material core tools lawful) envelope legacy 0).0 ≢ ok p
  legacy_refused envelope p opened =
      let v =
        open_envelope-Verified core config (fuzz_material core tools lawful) legacy envelope p 0
          opened in
      cc (sym (authentication_input_lem config.authentication_mode legacy p) ∙ v.input)

  dispatched-Sealed :
      (c p : Bytes) (envelope : SecureEnvelope) (r s : core.Rng)
      → seal core config (fuzz_material core tools lawful) p (bound_to c) r ≡ (ok envelope, s)
      → Sealed core config (fuzz_material core tools lawful) (bound_to c) p envelope
  unfolding seal seal_in
  dispatched-Sealed c p envelope r s e = elim (Bool-cases (ltb 64 (length p))) [
    | inl big ↦ let bad = rw big at e in absurd (ground arith)
    | inr fits ↦
        seal-Sealed core config (fuzz_material core tools lawful) (bound_to c) p envelope r s
          (rw fits at e)
  ]

  -- What was sealed opens under another bound context only by a forgery.
  pub other_context-Forged :
      (c d p q : Bytes) (envelope : SecureEnvelope) (r s : core.Rng)
      → c ≢ d
      → seal core config (fuzz_material core tools lawful) p (bound_to c) r ≡ (ok envelope, s)
      → (open_envelope core config (fuzz_material core tools lawful) envelope (bound_to d) 0).0
        ≡ ok q
      → Forged core tools
  other_context-Forged c d p q envelope r s differ sealed opened =
      let made = dispatched-Sealed c p envelope r s sealed in
      let v =
        open_envelope-Verified core config (fuzz_material core tools lawful) (bound_to d) envelope q
          0 opened in
      let same : some v.signature ≡ some made.signature =
        sym v.signature_bytes
        ∙ ap (λ (w : SecureEnvelope). core.base64_decode w.signature) made.result
        ∙ lawful.base64.decode-encode made.signature in
      let signature : v.signature ≡ made.signature = cc same in
      let verifies =
        subst
          (λ sig.
            core.verify_with_id (tools.public_key (fuzz_key core tools lawful))
              config.local_signer_id v.transcript sig
            ≡ true)
          signature v.verified in
      record {
        key = fuzz_key core tools lawful;
        id = config.local_signer_id;
        signed = made.input;
        other = v.transcript;
        differ = λ message.
            differ
              (authentication_input-inj context_domain_separator context_domain_separator c d p q
                made.authenticated (v.input ∙ ap ok message)).1;
        signature = made.signature;
        before = made.r₂;
        after = made.r₃;
        made = made.signing;
        verifies = verifies;
      }
