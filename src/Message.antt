-- ===== src/Message.antt =====
-- src/message.rs: envelopes, request metadata and contexts, requests and responses.
pub mod Types
pub mod Time
pub mod Calendar
pub mod Era
pub mod Digits
pub mod Stamp
pub mod Metadata
pub mod Context
pub mod Parts
