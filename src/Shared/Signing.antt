-- ===== src/Shared/Signing.antt =====
-- shared/event_signing.py: the HMAC that authenticates what is published on the bus.
-- `json.dumps` of a canonical payload and the HMAC's digest are parameters. An event is a dict, and
-- `none` stands for an exception.
mod Base
pub mod Verified
unfoldable pub use Base.*
