-- ===== src/Notifier.antt =====
-- services/notifier: from an event on the bus to the operator's channels.
pub mod Queue
pub mod Buffer
pub mod Dispatch
pub mod FaceRules
pub mod Digest
