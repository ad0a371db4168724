-- ===== src/Detector/Events.antt =====
-- services/detector/src/events.py: detections become events, at most one for each camera and class
-- in a cooldown.
-- Monotonic times are numbers of clock ticks; a test `now - last < cooldown` on floats is written
-- `now < last + cooldown`. What a detection carries along (confidence, box, frame size) is one value
-- of a type `D`; the snapshot's path, the time stamp, the token and whether the INSERT succeeds are
-- arguments, one for each detection.
mod Base
pub mod Spaced
unfoldable pub use Base.*
