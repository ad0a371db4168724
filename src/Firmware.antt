-- ===== src/Firmware.antt =====
-- services/doorbell-firmware: what runs on the doorbell itself.
pub mod Post
pub mod Presses
