-- ===== src/Fuzz/ContextTarget.antt =====
-- What the target context_envelope.rs of fuzz/fuzz_targets does on any input.
use gmcrypto_envelope_lite.Base.{
  ◌<◌, ◌≤◌, ◌^◌, ◌≡◌, ◌≢◌, ◌⊎◌, inl, inr, Option, Result-cases, refl, ap, arith, ok, err, false,
  some, [], ◌∷◌, ◌++◌, is_empty, beq_refl, length, length-append, length-take, min,
}
use gmcrypto_envelope_lite.Bytes.{Bytes, ◌and_then◌}
use gmcrypto_envelope_lite.Error.{Fallible}
use gmcrypto_envelope_lite.Auth.Types.{AuthenticationContext, bound}
use gmcrypto_envelope_lite.Auth.Context.{legacy, context_bound}
use gmcrypto_envelope_lite.Core.{Core}
use gmcrypto_envelope_lite.Message.Types.{SecureEnvelope}
use gmcrypto_envelope_lite.Envelope.Contract.{seal_oversize}
use gmcrypto_envelope_lite.Envelope.Dispatch.{seal, open_envelope}
use gmcrypto_envelope_lite.Fuzz.Scenario.{
  ContextScenario, round_trip, mismatched_context, legacy_marker, oversize_plaintext, accepted,
  rejected, context_scenario, context_expected,
}
use gmcrypto_envelope_lite.Fuzz.Framing.{fields, at}
use gmcrypto_envelope_lite.Fuzz.Bounds.{framed-short}
use gmcrypto_envelope_lite.Fuzz.Clients.{KeyTools, context_client}
use gmcrypto_envelope_lite.Fuzz.Laws.{Lawful, Forged, fuzz_material, context_client-some}
use gmcrypto_envelope_lite.Fuzz.Context.{
  plaintext_of, sealing_bytes, opening_context, opened_outcome, run_client, context_outcome,
  assert_declared, context_target,
}
use gmcrypto_envelope_lite.Fuzz.ContextSound.{
  config, bound_to, round_trips, legacy_refused, other_context-Forged,
}

-- A nonempty context is bound.
context_bound-ok :
    (b : Bytes) → is_empty b ≡ false → context_bound b ≡ ok (record { kind = bound b })
unfolding context_bound
context_bound-ok b h = rw h refl

sealing_bytes-nonempty : (raw : Bytes) → is_empty (sealing_bytes raw) ≡ false
sealing_bytes-nonempty [] = refl
sealing_bytes-nonempty (x ∷ raw) = refl

sealing_bytes-short : (raw : Bytes) → length raw < 2 ^ 62 → length (sealing_bytes raw) < 2 ^ 62
sealing_bytes-short [] h = omega arith
sealing_bytes-short (x ∷ raw) h = h

longer : (b : Bytes) → b ≢ (b ++ b'!' ∷ [])
longer b e =
    let l = length-append b (b'!' ∷ []) in
    let same : length b ≡ length (b ++ b'!' ∷ []) = ap length e in absurd (omega arith)

longer-nonempty : (b : Bytes) → is_empty (b ++ b'!' ∷ []) ≡ false
longer-nonempty [] = refl
longer-nonempty (x ∷ b) = refl

-- A call that never returns bytes is refused.
refused-outcome :
    (r : Fallible Bytes) (p : Bytes) → ((q : Bytes) → r ≢ ok q) → opened_outcome r p ≡ some rejected
refused-outcome (ok q) p never = absurd (never q refl)
refused-outcome (err e) p never = refl

taken : (raw : Bytes) → length (plaintext_of round_trip raw) ≤ 64
taken raw = let l = length-take (min (length raw) 64) raw (omega arith) in omega arith

module _ (core : Core) (tools : KeyTools core) (lawful : Lawful core tools) where
  -- The assertion holds, or opening under another context is a forgery.
  abbrev Passes : ContextScenario → Option (Unit {0}) → Type 0
  Passes scenario asserted =
      (asserted ≡ some tt) ⊎ ((scenario ≡ mismatched_context) × Forged core tools)

  abbrev opens : SecureEnvelope → AuthenticationContext → Fallible Bytes
  opens envelope context =
      (open_envelope core config (fuzz_material core tools lawful) envelope context 0).0

  -- The outcome of a run that seals, by how the envelope opens.
  after_seal-accepted :
      (envelope : SecureEnvelope) (context : AuthenticationContext) (p : Bytes)
      → opens envelope context ≡ ok p
      → opened_outcome (opens envelope context) p ≡ some accepted
  after_seal-accepted envelope context p e = rw e (rw (beq_refl p) refl)

  -- What is done with a plaintext within the limit, where the client is made and seals.
  declared :
      (scenario : ContextScenario) (c p : Bytes) (r s : core.Rng) (envelope : SecureEnvelope)
      → is_empty c ≡ false
      → scenario ≢ oversize_plaintext
      → seal core config (fuzz_material core tools lawful) p (bound_to c) r ≡ (ok envelope, s)
      → opens envelope (bound_to c) ≡ ok p
      → Passes scenario (
          assert_declared core tools
            (opening_context scenario c (bound_to c) and_then λ opening.
              opened_outcome (opens envelope opening) p)
            (context_expected scenario))
  unfolding context_expected opening_context
  declared round_trip c p r s envelope h ordinary sealed opened =
      inl (rw (after_seal-accepted envelope (bound_to c) p opened) refl)
  declared ContextScenario.generic c p r s envelope h ordinary sealed opened =
      inl (rw (after_seal-accepted envelope (bound_to c) p opened) refl)
  declared oversize_plaintext c p r s envelope h ordinary sealed opened = absurd (ordinary refl)
  declared legacy_marker c p r s envelope h ordinary sealed opened = inl (
      rw
        (refused-outcome (opens envelope legacy) p
          (λ q. legacy_refused core tools lawful envelope q))
        refl)
  declared mismatched_context c p r s envelope h ordinary sealed opened =
      let other = c ++ b'!' ∷ [] in
      elim (Result-cases (opens envelope (bound_to other))) [
        | inl (q, e) ↦ inr (
          refl,
          other_context-Forged core tools lawful c other p q envelope r s (longer c) sealed e,
        )
        | inr (x, e) ↦ inl (rw (context_bound-ok other (longer-nonempty c)) (rw e refl))
      ]

  within_limit :
      (scenario : ContextScenario) (c p : Bytes) (r : core.Rng)
      → is_empty c ≡ false
      → length p ≤ 64
      → length c < 2 ^ 62
      → scenario ≢ oversize_plaintext
      → Passes scenario (
          assert_declared core tools
            (run_client core tools scenario p c (bound_to c) (context_client core tools) r).0
            (context_expected scenario))
  within_limit scenario c p r h hp hc ordinary =
      let (envelope, s, sealed, opened) = round_trips core tools lawful c p r hp hc in
      rw (context_client-some core tools lawful)
        (rw sealed (declared scenario c p r s envelope h ordinary sealed opened))

  oversize :
      (c p : Bytes) (r : core.Rng)
      → 64 < length p
      → assert_declared core tools
          (run_client core tools oversize_plaintext p c
            (bound_to c)
            (context_client core tools)
            r).0
          (context_expected oversize_plaintext)
        ≡ some tt
  unfolding context_expected
  oversize c p r big =
      rw (context_client-some core tools lawful)
        (rw (seal_oversize core config (fuzz_material core tools lawful) (bound_to c) p r big) refl)

  by_scenario :
      (scenario : ContextScenario) (c raw : Bytes) (r : core.Rng)
      → is_empty c ≡ false
      → length c < 2 ^ 62
      → Passes scenario (
          assert_declared core tools
            (run_client core tools scenario
              (plaintext_of scenario raw)
              c
              (bound_to c)
              (context_client core tools)
              r).0
            (context_expected scenario))
  by_scenario round_trip c raw r h hc =
      within_limit round_trip c (plaintext_of round_trip raw) r h (taken raw) hc (λ e. cc)
  by_scenario ContextScenario.generic c raw r h hc =
      within_limit ContextScenario.generic c (plaintext_of round_trip raw) r h (taken raw) hc
        (λ e. cc)
  by_scenario legacy_marker c raw r h hc =
      within_limit legacy_marker c (plaintext_of round_trip raw) r h (taken raw) hc (λ e. cc)
  by_scenario mismatched_context c raw r h hc =
      within_limit mismatched_context c (plaintext_of round_trip raw) r h (taken raw) hc (λ e. cc)
  by_scenario oversize_plaintext c raw r h hc =
      inl (oversize c (plaintext_of oversize_plaintext raw) r (omega arith))

  -- On an input below 2^62 bytes, and from any state of the random source, the target does not panic:
  -- what is sealed under the input's context opens there to the same bytes, and it is refused without
  -- a context and above the limit. It is refused under another context too, unless the signature that
  -- was made over one message verifies over another one, which only an input of the scenario of the
  -- mismatched context can show. The primitives behave as documented.
  pub context_target-passes :
      (input : Bytes) (r : core.Rng)
      → length input < 2 ^ 62
      → (context_target core tools input r ≡ some tt)
        ⊎ ((context_scenario input ≡ mismatched_context) × Forged core tools)
  unfolding context_target context_outcome
  context_target-passes input r h =
      let raw = at (fields input) 1 in
      let c = sealing_bytes raw in
      let short = framed-short 3 input 1 in
      rw (context_bound-ok c (sealing_bytes-nonempty raw)) (
        by_scenario (context_scenario input) c (at (fields input) 0) r (sealing_bytes-nonempty raw)
          (sealing_bytes-short raw (omega arith)))
