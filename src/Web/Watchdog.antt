-- ===== src/Web/Watchdog.antt =====
-- services/web/src/heartbeat_watchdog.py: paired devices going offline and coming back.
-- Times are whole seconds, and `now` is the reading of the clock in a pass. `float` of a value is a
-- parameter, and `none` stands for an exception, which ends the pass and is caught by the thread.
-- An alert is what `_publish` is called with; signing and the bus are behind it.
mod Base
pub mod Alternate
unfoldable pub use Base.*
