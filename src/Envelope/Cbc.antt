-- ===== src/Envelope/Cbc.antt =====
-- src/envelope_crypto/cbc.rs: the CBC payload mode.
pub mod Seal
pub mod Open
pub mod Sound
pub mod RoundTrip
