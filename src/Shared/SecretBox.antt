-- ===== src/Shared/SecretBox.antt =====
-- shared/secret_box.py: the encryption of the secrets in a configuration.
-- Fernet and base64 are parameters. `none` stands for an exception; the i-th encryption of a call has
-- its own initialisation vector, so that the token is a function of i too.
mod Base
pub mod Places
pub mod Hidden
pub mod Defined
pub mod Migrated
pub mod Settled
unfoldable pub use Base.*
