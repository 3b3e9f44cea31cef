-- ===== src/Auth.antt =====
-- src/auth.rs: authentication modes and contexts, the signed transcript and the AEAD's additional
-- data.
pub mod Types
pub mod Mode
pub mod Context
pub mod Transcript
pub mod Unambiguous
