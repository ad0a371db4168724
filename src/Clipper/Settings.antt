-- ===== src/Clipper/Settings.antt =====
-- services/clipper/src/settings.py. Times and confidences that are read as floats are natural numbers
-- of a unit.
mod Base
pub mod Bounds
unfoldable pub use Base.*
