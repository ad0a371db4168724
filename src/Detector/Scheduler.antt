-- ===== src/Detector/Scheduler.antt =====
-- services/detector/src/scheduler.py: arming and disarming at configured times.
-- An aware datetime is the number of seconds since 1970 in UTC, and its date the number of the day.
-- `_get_arm_time` and `_get_disarm_time` at the current configuration are parameters: they call
-- zoneinfo and astral. Each reading of the clock is an argument.
mod Base
pub mod Fired
pub mod Runs
pub mod Missed
unfoldable pub use Base.*
