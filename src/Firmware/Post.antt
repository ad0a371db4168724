-- ===== src/Firmware/Post.antt =====
-- services/doorbell-firmware/src/common.py: `post_to_host` and its retries.
-- Times are in seconds; what the host and the network answer to each attempt is a function.
mod Base
pub mod Attempts
unfoldable pub use Base.*
