-- ===== src/Web/Devices.antt =====
-- services/web/src/auth.py: the tokens of doorbell devices.
-- The table is the list of its rows; `hash_token` stands for SHA-256.
mod Base
pub mod Pairing
unfoldable pub use Base.*
