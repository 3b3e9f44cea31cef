-- ===== src/Envelope.antt =====
-- src/envelope_crypto: sealing and opening of envelopes, in the CBC and the two AEAD modes.
pub mod Action
pub mod Shared
pub mod Peers
pub mod Cbc
pub mod Aead
pub mod Dispatch
pub mod Complete
pub mod Contract
pub mod Binding
