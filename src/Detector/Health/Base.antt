-- ===== src/Detector/Health/Base.antt =====
-- The state of a camera, the methods of `CameraHealthTracker`, and runs of calls.
use openring.Prelude.Int.{ℤ, pos, sub_ℕ}
use openring.Prelude.{
  ℕ, ◌+◌, ◌*◌, String, Bool, true, false, not, ◌&&◌, ◌||◌, Option, none, some, List, [], ◌∷◌, ◌++◌,
  map, ltb, leb, beq, is_some, if◌then◌else◌, Dict, lookup, insert, erase,
}

pub record CameraState : Type 0 where
  pub last_frame_at : ℕ
  pub last_failure_at : ℕ
  pub offline_since : Option ℕ
  pub online_since : Option ℕ
  pub reconnect_count : ℕ
  pub last_reconnect_start : ℕ
  pub last_reconnect_duration : Option ℤ
  pub alert_sent : Bool
  pub outage_alerted : Bool
  pub last_outage_duration : Option ℤ

abbrev pub fresh_camera : CameraState
fresh_camera = record {
  last_frame_at = 0;
  last_failure_at = 0;
  offline_since = none;
  online_since = none;
  reconnect_count = 0;
  last_reconnect_start = 0;
  last_reconnect_duration = none;
  alert_sent = false;
  outage_alerted = false;
  last_outage_duration = none;
}

pub record Tracker : Type 0 where
  pub alert_threshold : ℕ
  pub debounce : ℕ
  pub cameras : Dict CameraState

pub data Alert : Type 0 where
  camera_offline : (name : String) (offline_seconds : ℤ) (reconnects : ℕ) → Alert
  camera_recovered : (name : String) (offline_seconds online_seconds : ℤ) (reconnects : ℕ) → Alert

-- self._cameras.setdefault(name, _CameraState())
abbrev pub camera_of : Option CameraState → CameraState
camera_of none = fresh_camera
camera_of (some s) = s

-- The body of `record_frame` under the lock.
unfoldable pub frame_read : ℕ → CameraState → CameraState
frame_read now s = elim s.offline_since [
  | some since ↦ record s {
    last_frame_at = now;
    last_reconnect_duration = some (sub_ℕ now since);
    reconnect_count = s.reconnect_count + 1;
    last_outage_duration =
        if s.outage_alerted then some (sub_ℕ now since) else s.last_outage_duration;
    offline_since = none;
    online_since = some now;
    alert_sent = false;
  }
  | none ↦ record s {
    last_frame_at = now;
    online_since = elim s.online_since [ none ↦ some now | some t ↦ some t ];
  }
]

unfoldable pub record_frame : Tracker → String → ℕ → Tracker
unfolding frame_read
record_frame t name now = record t {
  cameras = insert name (frame_read now (camera_of (lookup name t.cameras))) t.cameras;
}

-- The body of `record_failure` under the lock.
unfoldable pub frame_failed : ℕ → ℕ → CameraState → CameraState
frame_failed debounce now s = elim s.offline_since [
  | some since ↦ record s { last_failure_at = now }
  | none ↦
      if beq s.last_frame_at 0 || ltb (s.last_frame_at + debounce) now
      then record s {
        last_failure_at = now;
        offline_since = some now;
        online_since = none;
        last_reconnect_start = now;
      }
      else record s { last_failure_at = now }
]

unfoldable pub record_failure : Tracker → String → ℕ → Tracker
unfolding frame_failed
record_failure t name now = record t {
  cameras = insert name (frame_failed t.debounce now (camera_of (lookup name t.cameras))) t.cameras;
}

unfoldable pub remove_camera : Tracker → String → Tracker
remove_camera t name = record t { cameras = erase name t.cameras }

module _ (round1 : ℤ → ℤ) where
  -- The first loop of `check_alerts`, at one camera.
  unfoldable pub offline_step : ℕ → ℕ → String → CameraState → CameraState × List Alert
  offline_step threshold now name s = elim s.offline_since [
    | none ↦ (s, [])
    | some since ↦
        if not s.alert_sent && leb (since + threshold) now
        then (
          record s { alert_sent = true; outage_alerted = true },
          camera_offline name (round1 (sub_ℕ now since)) s.reconnect_count ∷ [],
        )
        else (s, [])
  ]

  -- state.last_outage_duration or 0.0
  abbrev outage_or_zero : Option ℤ → ℤ
  outage_or_zero none = pos 0
  outage_or_zero (some d) = d

  -- The second loop of `check_alerts`, at one camera.
  unfoldable pub recovered_step : ℕ → ℕ → String → CameraState → CameraState × List Alert
  recovered_step threshold now name s = elim s.online_since [
    | none ↦ (s, [])
    | some since ↦
        if s.outage_alerted && not (is_some s.offline_since) && leb (since + threshold) now
        then (
          record s { outage_alerted = false; last_outage_duration = none },
          camera_recovered name (round1 (outage_or_zero s.last_outage_duration))
                (round1 (sub_ℕ now since)) s.reconnect_count
              ∷ [],
        )
        else (s, [])
  ]

-- `for name, state in self._cameras.items()`, with the alerts appended in order.
unfoldable pub each_camera :
    (String → CameraState → CameraState × List Alert)
    → Dict CameraState
    → Dict CameraState × List Alert
each_camera step [] = ([], [])
each_camera step ((name, s) ∷ m) =
    let (s', now_sent) = step name s in
    let (m', later_sent) = each_camera step m in ((name, s') ∷ m', now_sent ++ later_sent)

unfoldable pub check_alerts : (ℤ → ℤ) → Tracker → ℕ → Tracker × List Alert
check_alerts round1 t now =
    let (after_offline, offline) =
      each_camera (offline_step round1 t.alert_threshold now) t.cameras in
    let (after_both, recovered) =
      each_camera (recovered_step round1 t.alert_threshold now) after_offline in
    (record t { cameras = after_both }, offline ++ recovered)

pub data Health : Type 0 where
  online degraded offline : Health

-- The state that `get_all_status` reports for a camera.
unfoldable pub health : ℕ → ℕ → CameraState → Health
health debounce now s = elim s.offline_since [
  | some since ↦ if ltb (since + debounce) now then offline else degraded
  | none ↦
      if beq s.last_frame_at 0
      then offline
      else if ltb (s.last_frame_at + debounce * 2) now
      then degraded
      else online
]

pub record Status : Type 0 where
  pub state : Health
  pub offline_seconds : Option ℤ
  pub reconnect_count : ℕ
  pub last_reconnect_duration : Option ℤ

abbrev round_some : (ℤ → ℤ) → Option ℤ → Option ℤ
round_some round1 none = none
round_some round1 (some d) = some (round1 d)

abbrev since_offline : ℕ → Option ℕ → Option ℤ
since_offline now none = none
since_offline now (some since) = some (sub_ℕ now since)

unfoldable pub get_all_status : (ℤ → ℤ) → Tracker → ℕ → Dict Status
unfolding health
get_all_status round1 t now =
    map
      (λ entry. (
        entry.0,
        record {
          state = health t.debounce now entry.1;
          offline_seconds = round_some round1 (since_offline now entry.1.offline_since);
          reconnect_count = entry.1.reconnect_count;
          last_reconnect_duration = round_some round1 entry.1.last_reconnect_duration;
        },
      ))
      t.cameras

-- The calls that the camera threads and the stats collector make, in the order of the lock.
pub data Call : Type 0 where
  frame failure : String → ℕ → Call
  alerts : ℕ → Call
  removal : String → Call

unfoldable pub call : (ℤ → ℤ) → Tracker → Call → Tracker × List Alert
call round1 t (frame name now) = (record_frame t name now, [])
call round1 t (failure name now) = (record_failure t name now, [])
call round1 t (alerts now) = check_alerts round1 t now
call round1 t (removal name) = (remove_camera t name, [])

unfoldable pub run : (ℤ → ℤ) → Tracker → List Call → Tracker × List Alert
run round1 t [] = (t, [])
run round1 t (c ∷ cs) =
    let (t', sent) = call round1 t c in let (t'', later) = run round1 t' cs in (t'', sent ++ later)
