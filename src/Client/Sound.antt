-- ===== src/Client/Sound.antt =====
-- What a request that src/client.rs builds carries, and what a response that it opens has passed.
use gmcrypto_envelope_lite.Base.{
  ℕ, ◌≡◌, ◌↔◌, refl, sym, ap, subst, ◌∙◌, ok, true, beq, beq-eq, eq-beq, Bool-cases, inl, inr,
  Result-cases, ◌++◌, All,
}
use gmcrypto_envelope_lite.Bytes.{Bytes}
use gmcrypto_envelope_lite.Auth.Types.{AuthenticationContext}
use gmcrypto_envelope_lite.Core.{Core}
use gmcrypto_envelope_lite.Header.Valid.{IsEntry, IsValid, revalidate_iff}
use gmcrypto_envelope_lite.Header.Append.{append_checked_lem}
use gmcrypto_envelope_lite.Message.Types.{
  SecureEnvelope, RequestContext, RequestParts, ResponseParts, ParsedResponse,
}
use gmcrypto_envelope_lite.Message.Parts
use gmcrypto_envelope_lite.Envelope.Action.{>>=-Bound, lift-eq-ok}
use gmcrypto_envelope_lite.Envelope.Dispatch
use gmcrypto_envelope_lite.Envelope.Contract.{Verified, open_envelope-Verified}
use gmcrypto_envelope_lite.Client.Calls
use gmcrypto_envelope_lite.Client.Calls.{SecureClient}

module _ (core : Core) (client : SecureClient core) where
  -- `open_response` returns a plaintext exactly when the adapter parses the response, the claimed
  -- certificate is the expected one, and the parsed envelope opens to it under the parsed context.
  pub open_response_iff :
      (response : ResponseParts) (p : Bytes) (calls : ℕ)
      → ((Calls.open_response core client response calls).0 ≡ ok p) ↔ (
          (parsed : ParsedResponse) × (client.adapter.parse_response response ≡ ok parsed)
          × (parsed.remote_signing_certificate_id
              ≡ client.config.identity.expected_remote_signing_certificate_id)
          × ((Dispatch.open_envelope core client.config client.keys parsed.envelope
                parsed.authentication_context calls).0
              ≡ ok p))
  unfolding Calls.open_response
  open_response_iff response p calls =
      elim (Result-cases (client.adapter.parse_response response)) [
        | inr (e, h) ↦ (λ bad. absurd (cc (rw h at bad)), λ o. absurd (cc (sym h ∙ o.1)))
        | inl (parsed, h) ↦
            let claimed = parsed.remote_signing_certificate_id in
            let expected = client.config.identity.expected_remote_signing_certificate_id in
            (
              λ opened. elim (Bool-cases (beq claimed expected)) [
                | inl same ↦ (parsed, h, beq-eq _ _ same, rw (h, same) at opened)
                | inr other ↦ absurd (cc (rw (h, other) at opened))
              ],
              λ o.
                  let same : beq o.0.remote_signing_certificate_id expected ≡ true =
                    eq-beq _ _ o.2 in
                  rw (o.1, same) o.3,
            )
      ]

  -- Bytes that `open_response` returns come with the expected certificate and with a signature of the
  -- remote key over them and over the parsed context.
  pub open_response-Verified :
      (response : ResponseParts) (p : Bytes) (calls : ℕ)
      → (Calls.open_response core client response calls).0 ≡ ok p
      → (parsed : ParsedResponse) × (client.adapter.parse_response response ≡ ok parsed)
        × (parsed.remote_signing_certificate_id
            ≡ client.config.identity.expected_remote_signing_certificate_id)
        × Verified core client.config client.keys parsed.authentication_context parsed.envelope p
  open_response-Verified response p calls e =
      let o = (open_response_iff response p calls).0 e in
      (
        o.0,
        o.1,
        o.2,
        open_envelope-Verified core client.config client.keys o.0.authentication_context
            o.0.envelope p calls o.3,
      )

  -- What a built request is made of.
  pub record Requested (context : RequestContext) (p : Bytes) (parts : RequestParts)
      (r s : core.Rng) : Type 0 where
    pub authentication : AuthenticationContext
    pub envelope : SecureEnvelope
    pub mapped : RequestParts
    pub selected :
        client.adapter.request_authentication_context client.config.identity context.protocol
        ≡ ok authentication
    pub sealed : Dispatch.seal core client.config client.keys p authentication r ≡ (ok envelope, s)
    pub built :
        client.adapter.build_request client.config.identity context.protocol envelope ≡ ok mapped
    pub headers :
        parts.headers.entries ≡ mapped.headers.entries ++ context.additional_headers.entries
    pub body : parts.body ≡ mapped.body
    pub valid : IsValid parts.headers

  appended_lem :
      (context : RequestContext) (mapped parts : RequestParts)
      → All IsEntry mapped.headers.entries
      → IsValid context.additional_headers
      → Parts.validate mapped ≡ ok tt
      → Parts.appended (Parts.append_checked context.additional_headers mapped) ≡ ok parts
      → (parts.headers.entries ≡ mapped.headers.entries ++ context.additional_headers.entries)
        × (parts.body ≡ mapped.body)
        × IsValid parts.headers
  unfolding Parts.validate Parts.append_checked
  appended_lem context mapped parts formed h checked e =
      let distinct = (revalidate_iff mapped.headers formed).0.0 checked in
      let valid : IsValid mapped.headers = record { formed = formed; distinct = distinct } in
      elim (append_checked_lem mapped.headers context.additional_headers valid h) [
        | inl good ↦
            let done = rw good.1 at e in
            let kept : IsValid (record {
              entries = mapped.headers.entries ++ context.additional_headers.entries;
            }) =
              rw good.1 at good.2 in
            let same : record {
              headers = record {
                entries = mapped.headers.entries ++ context.additional_headers.entries;
              };
              body = mapped.body;
            }
                ≡ parts =
              cc done in
            subst
              (λ (q : RequestParts).
                (q.headers.entries ≡ mapped.headers.entries ++ context.additional_headers.entries)
                × (q.body ≡ mapped.body)
                × IsValid q.headers)
              same (refl, refl, kept)
        | inr bad ↦ absurd (cc (rw bad.1 at e))
      ]

  -- A request that `build_request` returns holds an envelope sealed over the plaintext under the
  -- context that the adapter selects, and the adapter's headers with the caller's behind them, all
  -- valid: no caller's header replaces or repeats one of the protocol. The adapter's headers are
  -- typed, and the caller's collection is valid.
  pub build_request-Requested :
      (context : RequestContext) (p : Bytes) (parts : RequestParts) (r s : core.Rng)
      → ((envelope : SecureEnvelope) (mapped : RequestParts)
          → client.adapter.build_request client.config.identity context.protocol envelope
            ≡ ok mapped
          → All IsEntry mapped.headers.entries)
      → IsValid context.additional_headers
      → Calls.build_request core client p context r ≡ (ok parts, s)
      → Requested context p parts r s
  unfolding Calls.build_request
  build_request-Requested context p parts r s typed h e =
      elim (Result-cases
        (client.adapter.request_authentication_context client.config.identity context.protocol)) [
          | inr (x, a) ↦ absurd (cc (rw a at e))
          | inl (authentication, a) ↦
              let b =
                >>=-Bound (Dispatch.seal core client.config client.keys p authentication) _ r parts
                  s (rw a at e) in
              elim (Result-cases
                (client.adapter.build_request client.config.identity context.protocol b.value)) [
                  | inr (x, m) ↦ absurd (cc (rw m at b.rest))
                  | inl (mapped, m) ↦ elim (Result-cases (Parts.validate mapped)) [
                    | inr (x, v) ↦ absurd (cc (rw (m, v) at b.rest))
                    | inl (unit, v) ↦
                        let last = lift-eq-ok _ b.state s parts (rw (m, v) at b.rest) in
                        let parts_of =
                          appended_lem context mapped parts (typed b.value mapped m) h v last.0 in
                        record {
                          authentication = authentication;
                          envelope = b.value;
                          mapped = mapped;
                          selected = a;
                          sealed = b.first ∙ ap (λ q. (ok b.value, q)) last.1;
                          built = m;
                          headers = parts_of.0;
                          body = parts_of.1;
                          valid = parts_of.2;
                        }
                  ]
                ]
        ]
