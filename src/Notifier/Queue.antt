-- ===== src/Notifier/Queue.antt =====
-- services/notifier/src/notification_queue.py: the disk-backed retry queue.
-- Unix times are numbers of clock ticks, one a second; a test `now - t <= limit` is `now <= t +
-- limit`. Each method is one critical section: calls from several threads are a sequence of calls.
mod Base
pub mod Backoff
pub mod Bounds
pub mod Passes
pub mod Runs
unfoldable pub use Base.*
