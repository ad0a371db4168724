-- ===== src/Detector/Cleanup.antt =====
-- services/detector/src/cleanup.py: the retention of snapshots, clips and rows.
-- Times are numbers from the epoch on, so that a cutoff before it is taken for the epoch.
mod Base
pub mod Labelled
mod Scanned
pub mod Paths
pub mod Exact
pub mod Retained
unfoldable pub use Base.*
