-- ===== src/Config.antt =====
-- src/client_config.rs with the feature `aead` enabled: the identity, the envelope modes, the
-- configuration and its builder.
pub mod Types
pub mod Builder
pub mod Accepted
