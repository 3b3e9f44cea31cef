-- ===== src/Client/Delivery.antt =====
-- A response that a peer seals, with the headers of the schema, opens at the client: the composition
-- of src/adapter.rs, src/client.rs and src/envelope_crypto.
use gmcrypto_envelope_lite.Base.{ℕ, ◌≡◌, ◌≤◌, ◌<◌, ◌^◌, ok, length, refl, false}
use gmcrypto_envelope_lite.Bytes.{Bytes}
use gmcrypto_envelope_lite.Text.{Text, contains_line_break}
use gmcrypto_envelope_lite.Config.Types.{ClientConfig}
use gmcrypto_envelope_lite.Core.{Core}
use gmcrypto_envelope_lite.Core.Laws.{Cbc, Aead}
use gmcrypto_envelope_lite.Keys.Types.{KeyMaterial}
use gmcrypto_envelope_lite.Message.Types.{SecureEnvelope}
use gmcrypto_envelope_lite.Adapter.Types.{HeaderSchema, HeaderSchemaBuilder}
use gmcrypto_envelope_lite.Adapter.Builder
use gmcrypto_envelope_lite.Adapter.Given.{IsPlace}
use gmcrypto_envelope_lite.Adapter.Accepted.{schema_build_iff, Accepts-distinct, Accepts-names}
use gmcrypto_envelope_lite.Adapter.Mapping.{header_protocol_adapter}
use gmcrypto_envelope_lite.Adapter.Respond.{respond, context_of, IsBindable, parse_response-respond}
use gmcrypto_envelope_lite.Envelope.Peers.{Peers}
use gmcrypto_envelope_lite.Envelope.Contract.{open_envelope-seal}
use gmcrypto_envelope_lite.Envelope.Dispatch.{seal}
use gmcrypto_envelope_lite.Client.Calls
use gmcrypto_envelope_lite.Client.Calls.{SecureClient}
use gmcrypto_envelope_lite.Adapter.Fields.{IsField}
use gmcrypto_envelope_lite.Client.Printable.{Printable, seal-AreFields}
use gmcrypto_envelope_lite.Client.Sound.{open_response_iff}

module _ (core : Core) (server : ClientConfig) (server_keys : KeyMaterial core)
    (config : ClientConfig) (keys : KeyMaterial core)
    (peers : Peers core server server_keys config keys) (cbc : Cbc core) (aead_laws : Aead core)
    (printable : Printable core) (same_iv : server.iv ≡ config.iv)
    (same_mode : server.envelope_mode ≡ config.envelope_mode) (b : HeaderSchemaBuilder)
    (schema : HeaderSchema) (built : Builder.build b ≡ ok schema)
    (place : IsPlace schema.response_cipher) where
  -- The client with the adapter of the schema.
  abbrev pub client : SecureClient core
  client = record { config = config; keys = keys; adapter = header_protocol_adapter schema }

  -- The certificate that the client expects.
  abbrev pub certificate : Text
  certificate = config.identity.expected_remote_signing_certificate_id

  -- The server seals a plaintext under the context of the request identifier and sends the envelope in
  -- the headers of a schema that `build` returned, with the certificate that the client expects: the
  -- client opens the response to the same plaintext. The two ends are peers with the same mode and IV,
  -- the external operations behave as documented, the plaintext is within the client's limit and
  -- below 2^63 bytes, Base64 texts are header values, the certificate is a header value without white
  -- space at its ends, and so is the request identifier where the schema binds responses to it.
  pub open_response-respond :
      (p : Bytes) (id : Text) (envelope : SecureEnvelope) (r s : core.Rng) (calls : ℕ)
      → length p ≤ config.max_plaintext_bytes
      → length p < 2 ^ 63
      → seal core server server_keys p (context_of schema.authentication id) r ≡ (ok envelope, s)
      → IsField certificate certificate
      → contains_line_break certificate ≡ false
      → IsBindable schema.authentication id
      → (Calls.open_response core client (respond schema envelope certificate id) calls).0 ≡ ok p
  unfolding header_protocol_adapter
  open_response-respond p id envelope r s calls within small sealed field one_line bindable =
      let accepted = (schema_build_iff b schema).0 built in
      let names = Accepts-names b schema accepted place in
      let context = context_of schema.authentication id in
      let texts =
        seal-AreFields core cbc printable server server_keys context p envelope r s sealed in
      (open_response_iff core client (respond schema envelope certificate id) p calls).1 (
        record {
          envelope = envelope;
          remote_signing_certificate_id = certificate;
          authentication_context = context;
        },
        parse_response-respond schema (Accepts-distinct b schema accepted) names envelope
            certificate id
            (record {
              signature = texts.signature;
              wrapped = texts.wrapped;
              cipher = texts.cipher;
              certificate_field = field;
              one_line = one_line;
              bindable = bindable;
            }),
        refl,
        open_envelope-seal core server server_keys config keys peers cbc aead_laws same_iv context p
            within small envelope r s calls same_mode sealed,
      )
