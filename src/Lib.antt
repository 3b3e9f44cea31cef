-- ===== src/Lib.antt =====
-- A verification library for gmcrypto-envelope-lite, a Rust crate that seals and opens SM2/SM4
-- envelopes for a transport-neutral protocol.
--
-- The parts of the program and the modules that model them:
--   src/error.rs                     Error: the error enums, and `Fallible` for `Result`.
--   src/header.rs                    Header: names, values, and the header collection as a list of
--                                    typed pairs. A `&mut self` method takes the collection and
--                                    returns the outcome with the collection after it.
--   src/auth.rs                      Auth: the modes, the contexts, the signed transcript and the
--                                    additional data of the AEAD modes.
--   src/client_config.rs             Config: the configuration and its builder.
--   src/keys.rs                      Keys: the key types, the loaders, and the four roles.
--   src/message.rs                   Message: metadata, timestamps, contexts, requests, responses.
--   src/envelope_crypto/mod.rs       Envelope.Shared and Envelope.Dispatch: helpers, and the choice
--                                    of the payload mode.
--   src/envelope_crypto/cbc.rs       Envelope.Cbc.
--   src/envelope_crypto/aead.rs      Envelope.Aead.
--   src/adapter.rs                   Adapter: header schemas, the mapping of requests and responses,
--                                    and the context encodings; the trait is a record of functions.
--   src/client.rs, src/request.rs    Client: the client and its request builder.
--   fuzz/fuzz_targets/support.rs     Fuzz: Scenario and Framing read an input, Names and Parts make
--                                    messages of it, Schemas and Clients hold the fixed schemas and
--                                    clients, Outcomes, Context and Values run the scenarios.
--   fuzz/fuzz_targets/*.rs           Fuzz.Targets (transport_parts.rs, typed_headers.rs), Fuzz.Context
--                                    (context_envelope.rs) and Fuzz.Values (encoded_envelope.rs,
--                                    aead_envelope.rs, aead_ccm_envelope.rs): the fuzz targets, with a
--                                    panic as `none`.
-- The configuration decides which of Envelope.Cbc and Envelope.Aead runs; both take the signed
-- bytes from Auth. Client calls the adapter for the context and the headers, and Envelope for the
-- payload. The fuzz targets call all of these by the public interface. In each part the
-- definitions stand in modules of their own; the other modules hold lemmas on them, among them
-- the abstract descriptions: Adapter.Table of a schema's headers, Adapter.Accepted and
-- Adapter.Named of what `build` and `parse_response` accept, Adapter.Respond of a server's
-- answer, Message.Calendar of the calendar, Envelope.Peers and Envelope.Complete of two ends and
-- what they can send, Client.Pinned of the contexts that an adapter supplies, Fuzz.Encoded of a
-- framed input. Base, Text and Bytes hold the shared helpers: results, lists, the `str` and
-- `char` operations the crate calls, and machine words. Tests holds two toy instances of the
-- external operations, the tests and the examples.
--
-- Conventions. A `String` or `&str` is the list of its Unicode scalar values (Text), with `utf8`
-- for its bytes; a byte string is a list of numbers (Bytes). `usize` and `u64` have 64 bits, and
-- checked, saturating and limited operations are written out. The random source is a state that an
-- `Action` passes on; the tally of verifications of the test builds is passed on in the same way.
-- The crate is modelled with its `aead` feature on.
--
-- External code. The operations of gmcrypto-core, getrandom and base64 are the fields of the
-- record `Core` (Core.antt). Their documented behaviour is stated in Core/Laws.antt, for the fuzz
-- targets in Fuzz/Laws.antt, and that Base64 texts are header values in Client/Printable.antt;
-- each is a hypothesis of the theorems that need it, and Tests/Toy.antt and Tests/Compact.antt show
-- that the hypotheses can hold. serde_json, the clock and the file system are arguments of the
-- functions that call them. What the fuzz targets call of gmcrypto-core beyond the crate is the
-- record `KeyTools` (Fuzz/Clients.antt). The functions of the standard library that the targets
-- use, `String::from_utf8_lossy` and `str::parse`, are defined in Fuzz/Lossy.antt.
--
-- Bounds and fuel. The printer of decimal numbers runs on 20 digits of fuel, enough for 64 bits.
-- Round trips assume a plaintext below 2^63 bytes, which holds for every allocation.
--
-- Not modelled: `Debug` and `Display` texts, zeroization, the build without the `aead` feature, the
-- harness of libfuzzer-sys, that a `OnceLock` makes its value once, the integration tests, examples
-- and scripts.
pub mod Base
pub mod Text
pub mod Bytes
pub mod Error
pub mod Header
pub mod Auth
pub mod Config
pub mod Core
pub mod Keys
pub mod Message
pub mod Envelope
pub mod Adapter
pub mod Client
pub mod Fuzz
pub mod Tests
