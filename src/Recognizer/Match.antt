-- ===== src/Recognizer/Match.antt =====
-- `recognize_crop`, services/recognizer/src/recognizer.py. The face_recognition library is what it answers;
-- coordinates and distances are natural numbers, distances in some unit.
mod Base
pub mod Nearest
pub mod Largest
unfoldable pub use Base.*
