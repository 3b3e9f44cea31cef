-- ===== src/Keys.antt =====
-- src/keys.rs: keys, their loaders, and the four key roles.
pub mod Types
pub mod Loaders
pub mod Roles
