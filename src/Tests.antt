-- ===== src/Tests.antt =====
-- Runs on concrete inputs: tests of the models, and the theorems applied.
mod Notifier
mod Detector
mod Cleanup
mod Clipper
mod Digest
mod Firmware
mod Recognizer
mod Bus
mod Config
mod Schedule
mod Watchdog
mod Web
