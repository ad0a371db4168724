-- ===== src/Detector/Publisher.antt =====
-- services/detector/src/publisher.py: detection events on their way to the bus, over its outages.
-- A call of `publish` ends at the first `redis.publish` that raises. Its `up` argument is the
-- number of them that return before one would raise, so that every outcome of the network is some
-- number. What comes before the `try` block, signing and `json.dumps`, is the parameter `to_payload`.
mod Base
pub mod Order
unfoldable pub use Base.*
