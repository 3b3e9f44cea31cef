-- ===== src/Client/Pinned.antt =====
-- The pin check of `SecureClient::new` in src/client.rs over a header adapter: what it admits, and
-- which contexts the adapter then supplies.
use gmcrypto_envelope_lite.Base.{
  subst, Result-cases, inl, inr, ◌≡◌, ◌↔◌, refl, sym, ap, ◌∙◌, ok, some,
}
use gmcrypto_envelope_lite.Auth.Types.{
  AuthenticationContext, AuthenticationMode, legacy_plaintext, ContextKind, bound,
}
use gmcrypto_envelope_lite.Auth.Types as AuthTypes
use gmcrypto_envelope_lite.Config.Types.{ClientConfig, ClientIdentity}
use gmcrypto_envelope_lite.Core.{Core}
use gmcrypto_envelope_lite.Keys.Types.{KeyMaterial}
use gmcrypto_envelope_lite.Message.Types.{ProtocolRequestContext, ResponseParts, ParsedResponse}
use gmcrypto_envelope_lite.Adapter.Types.{
  HeaderAuthentication, HeaderSchema, ProtocolAdapter, legacy, context_bound,
}
use gmcrypto_envelope_lite.Adapter.Mapping.{context_for, header_protocol_adapter, pinned_kind}
use gmcrypto_envelope_lite.Adapter.Encoding.{encode_request_context_iff}
use gmcrypto_envelope_lite.Adapter.Fields.{Values, HasContext}
use gmcrypto_envelope_lite.Adapter.Parsed.{stored, parse_response-Parses_iff}
use gmcrypto_envelope_lite.Client.Calls
use gmcrypto_envelope_lite.Client.Calls.{SecureClient, check_pin}
use gmcrypto_envelope_lite.Auth.Context as AuthContext

-- The configured mode and the schema's authentication are of one kind.
abbrev pub SameKind : AuthenticationMode → HeaderAuthentication → Type 0
SameKind legacy_plaintext legacy = Unit
SameKind (AuthTypes.context_bound d) context_bound = Unit
SameKind legacy_plaintext context_bound = ⊥
SameKind (AuthTypes.context_bound d) legacy = ⊥

-- The mode takes contexts of this kind.
abbrev pub Takes : AuthenticationMode → ContextKind → Type 0
Takes legacy_plaintext AuthTypes.legacy = Unit
Takes (AuthTypes.context_bound d) (bound c) = Unit
Takes legacy_plaintext (bound c) = ⊥
Takes (AuthTypes.context_bound d) AuthTypes.legacy = ⊥

-- A context that the adapter selects for a request, or reads in a response.
pub data Supplied (adapter : ProtocolAdapter) (context : AuthenticationContext) : Type 0 where
  for_request :
      (identity : ClientIdentity) (request : ProtocolRequestContext)
      → adapter.request_authentication_context identity request ≡ ok context
      → Supplied adapter context
  of_response :
      (response : ResponseParts) (parsed : ParsedResponse)
      → adapter.parse_response response ≡ ok parsed
      → parsed.authentication_context ≡ context
      → Supplied adapter context

-- What the schema's kind supplies, the mode of the same kind takes.
context_for-Takes :
    (mode : AuthenticationMode) (kind : HeaderAuthentication) (request : ProtocolRequestContext)
    (context : AuthenticationContext)
    → SameKind mode kind
    → context_for kind request ≡ ok context
    → Takes mode context.kind
unfolding context_for
context_for-Takes legacy_plaintext legacy request context same e =
    subst (λ c. Takes legacy_plaintext c.kind) (let e' : AuthContext.legacy ≡ context = cc e in e')
      tt
context_for-Takes (AuthTypes.context_bound d) context_bound request context same e =
    let h =
      (encode_request_context_iff request.operation request.metadata.request_id context).0 e in
    subst (λ c. Takes (AuthTypes.context_bound d) c.kind) (sym h.2) tt
context_for-Takes legacy_plaintext context_bound request context same e = absurd same
context_for-Takes (AuthTypes.context_bound d) legacy request context same e = absurd same

HasContext-Takes :
    (mode : AuthenticationMode) (kind : HeaderAuthentication) (values : Values)
    (context : AuthenticationContext)
    → SameKind mode kind
    → HasContext kind values context
    → Takes mode context.kind
HasContext-Takes legacy_plaintext legacy values context same h =
    subst (λ c. Takes legacy_plaintext c.kind) (sym h) tt
HasContext-Takes (AuthTypes.context_bound d) context_bound values context same h =
    subst (λ c. Takes (AuthTypes.context_bound d) c.kind) (sym h.2.2) tt
HasContext-Takes legacy_plaintext context_bound values context same h = absurd same
HasContext-Takes (AuthTypes.context_bound d) legacy values context same h = absurd same

Supplied-Takes :
    (mode : AuthenticationMode) (schema : HeaderSchema) (context : AuthenticationContext)
    → SameKind mode schema.authentication
    → Supplied (header_protocol_adapter schema) context
    → Takes mode context.kind
unfolding header_protocol_adapter
Supplied-Takes mode schema context same (for_request identity request e) =
    context_for-Takes mode schema.authentication request context same e
Supplied-Takes mode schema context same (of_response response parsed e f) =
    let h = (parse_response-Parses_iff schema response parsed).0 e in
    subst (λ c. Takes mode c.kind) f
      (HasContext-Takes mode schema.authentication (stored schema response)
        parsed.authentication_context same h.context_field)

check_pin-SameKind_iff :
    (mode : AuthenticationMode) (kind : HeaderAuthentication)
    → (check_pin mode (some (pinned_kind kind)) ≡ ok tt) ↔ SameKind mode kind
check_pin-SameKind_iff legacy_plaintext legacy = (λ e. tt, λ h. refl)
check_pin-SameKind_iff (AuthTypes.context_bound d) context_bound = (λ e. tt, λ h. refl)
check_pin-SameKind_iff legacy_plaintext context_bound = (λ e. cc, λ h. absurd h)
check_pin-SameKind_iff (AuthTypes.context_bound d) legacy = (λ e. cc, λ h. absurd h)

module _ (core : Core) (config : ClientConfig) (keys : KeyMaterial core)
    (schema : HeaderSchema) where
  -- A client over a header adapter is made exactly when the configured mode and the schema's
  -- authentication are of one kind, and holds what was given.
  pub new-SameKind_iff :
      (client : SecureClient core)
      → (Calls.new core config keys (header_protocol_adapter schema) ≡ ok client) ↔ (
          SameKind config.authentication_mode schema.authentication
          × (client
              ≡ record { config = config; keys = keys; adapter = header_protocol_adapter schema }))
  unfolding Calls.new header_protocol_adapter
  new-SameKind_iff client =
      let passed = check_pin-SameKind_iff config.authentication_mode schema.authentication in
      elim (Result-cases
        (check_pin config.authentication_mode (some (pinned_kind schema.authentication)))) [
          | inl (u, e) ↦ (λ made. (passed.0 e, cc (rw e at made)), λ h. rw e (ap ok (sym h.1)))
          | inr (x, e) ↦
              (λ made. absurd (cc (rw e at made)), λ h. absurd (cc (sym e ∙ passed.1 h.0)))
        ]

  -- A client over a header adapter that was made never gets from this adapter a context of the kind that
  -- its authentication mode refuses, neither for a request nor of a response.
  pub new-Takes :
      (client : SecureClient core) (context : AuthenticationContext)
      → Calls.new core config keys (header_protocol_adapter schema) ≡ ok client
      → Supplied client.adapter context
      → Takes client.config.authentication_mode context.kind
  unfolding header_protocol_adapter
  new-Takes client context made supplied =
      let h = (new-SameKind_iff client).0 made in
      subst
        (λ (c : SecureClient core).
          Supplied c.adapter context → Takes c.config.authentication_mode context.kind)
        (sym h.1) (Supplied-Takes config.authentication_mode schema context h.0) supplied
