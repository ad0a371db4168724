-- ===== src/Web/Redact.antt =====
-- services/web/src/config_redact.py: the configuration as a viewer sees it.
-- In-place changes of the deep copy are functions on values; keys of a mapping are distinct in
-- Python, so that a key is the first field of its name. Keys are texts.
mod Base
mod Laws
mod Places
pub mod Stable
pub mod Hidden
unfoldable pub use Base.*
