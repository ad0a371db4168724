-- ===== src/Notifier/Digest.antt =====
-- services/notifier/src/digest_scheduler.py: when the digest report is dispatched.
-- Dates are Python's ordinals, and a time of day is a number of microseconds. The name of the time
-- zone is a text. What `ZoneInfo` does for it, with every error, the local time, `int` on texts and
-- the days of the months are parameters, and what `digest.generate` and the dispatch do are inputs of
-- a tick. `_lock` makes `configure` and the read of a tick atomic, so that a run is a list of calls; a
-- tick ends before the next call.
mod Settings
mod Base
pub mod Outcome
pub mod Once
pub mod Retry
unfoldable pub use Settings.*
unfoldable pub use Base.*
