-- ===== src/Clipper.antt =====
-- services/clipper: the rings of segments, the settings, and the clips of events.
pub mod Ring
pub mod Settings
pub mod Clips
pub mod Events
pub mod Reload
