-- ===== src/Clipper/Reload.antt =====
-- The reloads of the configuration, services/clipper/src/main.py. A segmenter is the number of its start.
mod Base
pub mod Tracked
unfoldable pub use Base.*
