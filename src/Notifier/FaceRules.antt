-- ===== src/Notifier/FaceRules.antt =====
-- services/notifier/src/face_rules.py: what a recognition does to a notification.
mod Base
pub mod Precedence
unfoldable pub use Base.*
