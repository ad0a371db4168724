-- ===== src/Notifier/Buffer.antt =====
-- services/notifier/src/recognition_buffer.py: detections held back for their recognition.
-- Each method's critical section is one step; the poll thread's pass is a step too. The heap is a
-- list in the order of the deadlines (the order of equal deadlines is that of arrival), and an
-- entry's identity, which `is` compares, is a number given at its creation.
mod Base
pub mod Timeouts
pub mod Runs
pub mod Distinct
pub mod Counts
unfoldable pub use Base.*
