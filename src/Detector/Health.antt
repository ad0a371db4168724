-- ===== src/Detector/Health.antt =====
-- services/detector/src/camera_health.py: per-camera health and outage alerts.
-- Monotonic times are numbers of clock ticks, and a method takes the time that it reads. A test
-- `now - t >= limit` on floats is written `t + limit <= now`, which agrees with it for every order
-- of the two times; a duration is an integer. `round` to a tenth stays a parameter.
mod Base
pub mod Invariant
pub mod Alerts
pub mod Reported
pub mod Silent
pub mod Distinct
pub mod Once
unfoldable pub use Base.*
