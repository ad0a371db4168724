-- ===== src/Detector/FairLock.antt =====
-- services/detector/src/fair_lock.py: the lock that detector threads of one model share.
-- Each call of `acquire` is a number, which stands for its `threading.Event` too. The code under
-- `self._lock` is atomic, and a function here; `Step` says when a thread may run it. Waiting has no
-- clock: a call that waits may time out at any step, also just after it was handed the lock.
mod Base
pub mod Exclusion
pub mod Fifo
unfoldable pub use Base.*
