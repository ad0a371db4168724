-- ===== src/Clipper/Events.antt =====
-- The messages of `subscribe_loop`, services/clipper/src/main.py.
mod Base
pub mod Wanted
unfoldable pub use Base.*
