-- ===== src/Clipper/Clips.antt =====
-- services/clipper/src/db.py, writer.py and `_make_clip` of services/clipper/src/main.py.
-- Times are natural numbers from the epoch on.
mod Table
mod Base
pub mod Rows
pub mod Recorded
pub mod Names
pub mod Sound
unfoldable pub use Table.*
unfoldable pub use Base.*
