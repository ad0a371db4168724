-- ===== src/Detector.antt =====
-- services/detector: what runs between the camera threads and the event bus.
pub mod Health
pub mod Events
pub mod FairLock
pub mod Publisher
pub mod Scheduler
pub mod Visits
pub mod Cleanup
