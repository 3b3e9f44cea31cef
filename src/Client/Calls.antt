-- ===== src/Client/Calls.antt =====
-- `SecureClient` of src/client.rs. What serde_json does is an argument: `serialize` and
-- `deserialize` answer `none` where it fails.
use gmcrypto_envelope_lite.Base.{
  ℕ, Bool, true, false, not, beq, Option, some, none, Result, ok, err, fail_if, ok_or, map_err,
}
use gmcrypto_envelope_lite.Base as Base
use gmcrypto_envelope_lite.Bytes.{Bytes}
use gmcrypto_envelope_lite.Error.{Error, Fallible, AdapterResult, protocol_adapter, serialization}
use gmcrypto_envelope_lite.Auth.Types.{
  AuthenticationContext, AuthenticationMode, legacy_plaintext, context_bound,
}
use gmcrypto_envelope_lite.Config.Types.{ClientConfig}
use gmcrypto_envelope_lite.Core.{Core}
use gmcrypto_envelope_lite.Keys.Types.{KeyMaterial}
use gmcrypto_envelope_lite.Message.Types.{
  SecureEnvelope, RequestContext, RequestParts, ResponseParts,
}
use gmcrypto_envelope_lite.Message.Context
use gmcrypto_envelope_lite.Message.Parts
use gmcrypto_envelope_lite.Adapter.Types.{AdapterAuthentication, ProtocolAdapter}
use gmcrypto_envelope_lite.Envelope.Action.{Action, ◌>>=◌, ◌>>◌, lift}
use gmcrypto_envelope_lite.Envelope.Dispatch

pub record SecureClient (core : Core) : Type 0 where
  pub config : ClientConfig
  pub keys : KeyMaterial core
  pub adapter : ProtocolAdapter

abbrev pub authentication_matches_pin : AuthenticationMode → AdapterAuthentication → Bool
authentication_matches_pin legacy_plaintext AdapterAuthentication.legacy_plaintext = true
authentication_matches_pin (context_bound d) AdapterAuthentication.context_bound = true
authentication_matches_pin _ _ = false

abbrev pub check_pin : AuthenticationMode → Option AdapterAuthentication → Fallible (Unit {0})
check_pin mode none = ok tt
check_pin mode (some pinned) =
    fail_if (not (authentication_matches_pin mode pinned)) Error.authentication_context

-- `map_err(|_| Error::ProtocolAdapter)`
abbrev pub by_adapter {ℓ} : {A : Type ℓ} → AdapterResult A → Fallible A
by_adapter r = map_err (λ _. protocol_adapter) r

module _ (core : Core) where
  unfoldable pub new :
      ClientConfig → KeyMaterial core → ProtocolAdapter → Fallible (SecureClient core)
  new config keys adapter =
      Base.◌>>◌ (check_pin config.authentication_mode adapter.pinned_authentication)
        (ok (record { config = config; keys = keys; adapter = adapter }))

  -- `SecureClient::seal`
  abbrev pub seal :
      SecureClient core → Bytes → AuthenticationContext → Action core.Rng SecureEnvelope
  seal client plaintext context = Dispatch.seal core client.config client.keys plaintext context

  -- `SecureClient::open`
  abbrev pub open_sealed :
      SecureClient core → SecureEnvelope → AuthenticationContext → Action ℕ Bytes
  open_sealed client envelope context =
      Dispatch.open_envelope core client.config client.keys envelope context

  unfoldable pub build_request :
      SecureClient core → Bytes → RequestContext → Action core.Rng RequestParts
  build_request client plaintext request_context = do
    let (protocol_context, additional_headers) = Context.into_parts request_context
    authentication_context ← lift (
        by_adapter
          (client.adapter.request_authentication_context client.config.identity protocol_context))
    envelope ← seal client plaintext authentication_context
    request ←
        lift (
          by_adapter
            (client.adapter.build_request client.config.identity protocol_context envelope))
    lift (Parts.validate request)
    lift (Parts.appended (Parts.append_checked additional_headers request))

  -- `serialize_json`
  abbrev pub serialize_json : {T : Type 0} → (T → Option Bytes) → T → Fallible Bytes
  serialize_json serialize value = ok_or (serialize value) serialization

  unfoldable pub build_json_request :
      {T : Type 0}
      → (T → Option Bytes)
      → SecureClient core
      → T
      → RequestContext
      → Action core.Rng RequestParts
  build_json_request serialize client value request_context = do
    plaintext ← lift (serialize_json serialize value)
    build_request client plaintext request_context

  unfoldable pub open_response : SecureClient core → ResponseParts → Action ℕ Bytes
  open_response client response = do
    parsed ← lift (by_adapter (client.adapter.parse_response response))
    lift (
        fail_if
          (not (
            beq parsed.remote_signing_certificate_id
              client.config.identity.expected_remote_signing_certificate_id))
          protocol_adapter)
    open_sealed client parsed.envelope parsed.authentication_context

  unfoldable pub open_json_response :
      {T : Type 0} → (Bytes → Option T) → SecureClient core → ResponseParts → Action ℕ T
  open_json_response deserialize client response = do
    plaintext ← open_response client response
    lift (ok_or (deserialize plaintext) serialization)
