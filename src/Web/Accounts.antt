-- ===== src/Web/Accounts.antt =====
-- services/web/src/auth.py: users, sessions and API tokens.
-- A table is the list of its rows in the order of their ids, and `rowcount` the number of rows that
-- an UPDATE or DELETE met. ISO timestamps in UTC compare as the times do, so they are numbers.
-- `hash_token` and `hash_password` stand for SHA-256 and bcrypt, which are not of this repository.
mod Base
mod Rows
mod Tokens
pub mod Admins
pub mod Access
pub mod Revoked
unfoldable pub use Base.*
unfoldable pub use Tokens.*
