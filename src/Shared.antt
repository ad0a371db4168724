-- ===== src/Shared.antt =====
-- shared: code that several services use.
pub mod Signing
pub mod SecretBox
