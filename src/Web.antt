-- ===== src/Web.antt =====
-- services/web/src: the web service.
pub mod Results
pub mod Accounts
pub mod Devices
pub mod Lockout
pub mod Redact
pub mod Watchdog
