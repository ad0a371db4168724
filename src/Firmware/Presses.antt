-- ===== src/Firmware/Presses.antt =====
-- services/doorbell-firmware/src/button.py: the queue of presses and the threads that flush it.
-- The GPIO callback and the code of `_flush` under the lock are functions on the state; between them
-- any number of flush threads run, since every press starts one and a timer another.
mod Base
pub mod Spec
pub mod Refined
pub mod Flush
unfoldable pub use Base.*
