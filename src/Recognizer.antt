-- ===== src/Recognizer.antt =====
-- services/recognizer: whose face is at the door.
pub mod Match
