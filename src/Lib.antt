-- ===== src/Lib.antt =====
-- OpenRing: a local-only smart doorbell, in services written in Python around a Redis bus.
--
-- The doorbell's firmware posts presses and heartbeats to the web service. The detector reads the
-- cameras, groups and filters detections, watches the cameras' health and publishes events. The
-- recognizer and the clipper add faces and clips. The notifier takes the events off the bus, holds
-- person detections back for their recognition, applies the face rules and sends to the operator's
-- channels, with a retry queue behind them. Code that several services use stands in shared/.
--
-- How the files correspond to the code (paths from the repository's root):
-- - Prelude: numbers, texts, lists, dicts and YAML values as Python has them.
-- - Detector/Health: services/detector/src/camera_health.py. `frame_read` and `frame_failed` are the
--   bodies of `record_frame` and `record_failure`, `offline_step` and `recovered_step` the two loops
--   of `check_alerts` at one camera; `run` is a sequence of calls in the order of the lock.
-- - Detector/Visits: services/detector/src/visit_tracker.py, one function for each method.
-- - Detector/Events: services/detector/src/events.py. `process_one` is the body of the loop of
--   `process`, and `run` the loop bodies of all camera threads in the order of the lock.
-- - Detector/FairLock: services/detector/src/fair_lock.py. The functions are the critical sections,
--   `Step` what a thread may do next, and `Run` any interleaving.
-- - Detector/Publisher: services/detector/src/publisher.py. `flush_buffer`, `finish` and `publish`
--   are `_flush_buffer`, the rest of the `try` block with its handler, and `publish`.
-- - Detector/Scheduler: services/detector/src/scheduler.py, the functions on transitions and the tick.
-- - Detector/Cleanup: services/detector/src/cleanup.py. `prune_snapshots`, `prune_clips` and `prune_db`
--   are the methods of those names, on lists of the entries of the directories and of the rows; `run`
--   is the passes of the thread, each with its time and what fails in it.
-- - Clipper/Ring: `segments_in_window` and the delays of `_run_supervisor`, services/clipper/src/segmenter.py.
-- - Clipper/Settings: services/clipper/src/settings.py.
-- - Clipper/Clips: services/clipper/src/db.py and writer.py, and `_make_clip` of main.py beside them. A
--   task of the pool is its settings, camera and event with what it finds of clocks, ring and ffmpeg,
--   and `run` the tasks in the order in which they take the lock of the table.
-- - Clipper/Events: the body of the loop over messages in `subscribe_loop`, services/clipper/src/main.py.
-- - Clipper/Reload: `_build_segmenters`, `_stop_segmenters` and `_on_config_change` of the same file; a
--   segmenter is the number of its start, and a reload has for which names `start` raises.
-- - Firmware/Post: `post_to_host` of services/doorbell-firmware/src/common.py.
-- - Firmware/Presses: services/doorbell-firmware/src/button.py. `on_press` and `discard` are the
--   critical sections, `Step` what the button, a flush thread or a restart of the service may do next,
--   `Run` any interleaving, and `flush` the loop of `_flush` where no other thread runs.
-- - Recognizer/Match: `recognize_crop`, services/recognizer/src/recognizer.py, from what the library finds
--   in the crop to the result.
-- - Notifier/Queue: services/notifier/src/notification_queue.py. `visit` is the loop of
--   `process_due`, and `remove_all` the removals by equality that follow it.
-- - Notifier/FaceRules: services/notifier/src/face_rules.py.
-- - Notifier/Dispatch: `_apply_face_rules` and `dispatch` of services/notifier/src/main.py.
-- - Notifier/Buffer: services/notifier/src/recognition_buffer.py, one step for each critical section
--   and for a pass of the poll thread.
-- - Notifier/Digest: services/notifier/src/digest_scheduler.py. `tick` is `_tick` in the thread's loop,
--   `fire` its end with `_send_digest`, and `run` the ticks and the calls of `configure` in order.
-- - Web/Accounts: users, sessions and API tokens of services/web/src/auth.py. A table is the list of
--   its rows in the order of their ids, and a statement of SQL a function on it; `run` is a sequence
--   of the calls that services/web/src/routes/users.py makes.
-- - Web/Devices: the device tokens of services/web/src/auth.py.
-- - Web/Lockout: `check_lockout` and `record_attempt` of services/web/src/auth.py.
-- - Web/Redact: `redact_config` and its walkers, services/web/src/config_redact.py.
-- - Web/Watchdog: services/web/src/heartbeat_watchdog.py. `transition` is what a pass publishes for a
--   device, and `run` a sequence of passes.
-- - Shared/Signing: `sign_event` and `verify_event`, shared/event_signing.py.
-- - Shared/SecretBox: the encryption half of shared/secret_box.py. `write_path` is `_walk_and_apply`,
--   and the passes return the configuration that the code changes in place, with the count.
--
-- Loops recur on their lists, and the loop over the dates of an interval on their number, so that no
-- function takes fuel but the search for the next transition, which the code bounds by three days, and
-- `flush`, for which more fuel than presses wait is enough.
-- Python's floats do not occur: times are natural numbers, and rounding is a parameter. SQLite, Redis,
-- the network, YAML, HMAC, Fernet and the sun are parameters or lists of what they answer, and the file
-- system is lists of entries. Pages and routes, the notifier's channels, inference, the configuration
-- store and the metrics are not modelled.
pub mod Detector
pub mod Clipper
pub mod Firmware
pub mod Notifier
pub mod Prelude
pub mod Recognizer
pub mod Shared
pub mod Tests
pub mod Web
