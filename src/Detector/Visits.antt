-- ===== src/Detector/Visits.antt =====
-- services/detector/src/visit_tracker.py: detections grouped into visit sessions.
-- Timestamps are numbers of clock ticks, and a method takes the time that it reads; a gap test
-- `t - last >= timeout` is `last + timeout <= t`. A duration is an integer, since timestamps may come
-- out of order; `round` to a tenth stays a parameter. The SQLite table is the list of its rows.
mod Base
pub mod Conserved
unfoldable pub use Base.*
