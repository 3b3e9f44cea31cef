-- ===== src/Envelope/Aead.antt =====
-- src/envelope_crypto/aead.rs: the GCM and CCM payload modes.
pub mod Frame
pub mod Seal
pub mod Open
pub mod Sound
pub mod Sealed
pub mod RoundTrip
