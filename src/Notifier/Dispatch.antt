-- ===== src/Notifier/Dispatch.antt =====
-- services/notifier/src/main.py: `_apply_face_rules`, `dispatch` and the choice of notifiers.
-- An event is the dict that goes round the service: the keys that these functions read or write are
-- fields, and all other keys are one opaque `payload`.
mod Base
mod Steps
pub mod Delivery
pub mod Privacy
unfoldable pub use Base.*
