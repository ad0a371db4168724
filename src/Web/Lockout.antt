-- ===== src/Web/Lockout.antt =====
-- services/web/src/auth.py: the table login_attempts, and the lockout after failed logins.
-- The table is the list of its rows in the order of their ids; times are in seconds.
mod Base
mod Counts
pub mod Retained
unfoldable pub use Base.*
