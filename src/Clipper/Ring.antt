-- ===== src/Clipper/Ring.antt =====
-- services/clipper/src/segmenter.py: the ring of segments of a camera and its supervisor.
mod Base
pub mod Order
pub mod Delays
unfoldable pub use Base.*
