-- ===== src/Detector/Health/Invariant.antt =====
-- What holds of every camera between two calls.
use openring.Prelude.Int.{ℤ}
use openring.Prelude.{
  ℕ, String, ◌≡◌, refl, true, none, some, Option, List, [], ◌∷◌, arith, is_some, Dict, lookup,
  AllValues, AllValues-insert, AllValues-erase, AllValues-lookup,
}
use openring.Detector.Health.Base.{
  CameraState, fresh_camera, camera_of, Tracker, Alert, frame_read, record_frame, frame_failed,
  record_failure, remove_camera, offline_step, recovered_step, each_camera, check_alerts, Call,
  frame, failure, alerts, removal, call, run,
}

-- A camera is never offline and online at once; an alert that was sent belongs to the outage that
-- is under way; and once an outage that was alerted is over, its length is at hand.
pub record IsSound (s : CameraState) : Type 0 where
  pub apart : is_some s.offline_since ≡ true → s.online_since ≡ none
  pub sent_offline : s.alert_sent ≡ true → is_some s.offline_since ≡ true
  pub sent_alerted : s.alert_sent ≡ true → s.outage_alerted ≡ true
  pub length_known :
      s.outage_alerted ≡ true → s.offline_since ≡ none → is_some s.last_outage_duration ≡ true

abbrev pub AllSound : Tracker → Type 0
AllSound t = AllValues IsSound t.cameras

pub fresh-IsSound : IsSound fresh_camera
fresh-IsSound = ground arith

frame_read-IsSound : (now : ℕ) (s : CameraState) → IsSound s → IsSound (frame_read now s)
unfolding frame_read
frame_read-IsSound now s h = ground arith

frame_failed-IsSound :
    (debounce now : ℕ) (s : CameraState) → IsSound s → IsSound (frame_failed debounce now s)
unfolding frame_failed
frame_failed-IsSound debounce now s h = ground arith

offline_step-IsSound :
    (round1 : ℤ → ℤ) (threshold now : ℕ) (name : String) (s : CameraState)
    → IsSound s
    → IsSound (offline_step round1 threshold now name s).0
unfolding offline_step
offline_step-IsSound round1 threshold now name s h = ground arith

recovered_step-IsSound :
    (round1 : ℤ → ℤ) (threshold now : ℕ) (name : String) (s : CameraState)
    → IsSound s
    → IsSound (recovered_step round1 threshold now name s).0
unfolding recovered_step
recovered_step-IsSound round1 threshold now name s h = ground arith

camera_of-IsSound :
    (o : Option CameraState) → ((s : CameraState) → o ≡ some s → IsSound s) → IsSound (camera_of o)
camera_of-IsSound none h = fresh-IsSound
camera_of-IsSound (some s) h = h s refl

lookup-IsSound :
    (name : String) (m : Dict CameraState)
    → AllValues IsSound m
    → IsSound (camera_of (lookup name m))
lookup-IsSound name m h =
    camera_of-IsSound (lookup name m) (λ s e. AllValues-lookup IsSound name m h e)

module _ (step : String → CameraState → CameraState × List Alert) where
  each_camera-AllValues :
      ((name : String) (s : CameraState) → IsSound s → IsSound (step name s).0)
      → (m : Dict CameraState) → AllValues IsSound m
      → AllValues IsSound (each_camera step m).0
  unfolding each_camera
  each_camera-AllValues keep [] h = tt
  each_camera-AllValues keep ((name, s) ∷ m) h = (keep name s h.0, each_camera-AllValues keep m h.1)

-- Every call keeps every camera sound.
call-AllSound :
    (round1 : ℤ → ℤ) (t : Tracker) (c : Call) → AllSound t → AllSound (call round1 t c).0
unfolding call record_frame record_failure remove_camera check_alerts
call-AllSound round1 t (frame name now) h =
    AllValues-insert IsSound name _ t.cameras
      (frame_read-IsSound now _ (lookup-IsSound name t.cameras h)) h
call-AllSound round1 t (failure name now) h =
    AllValues-insert IsSound name _ t.cameras
      (frame_failed-IsSound t.debounce now _ (lookup-IsSound name t.cameras h)) h
call-AllSound round1 t (alerts now) h =
    each_camera-AllValues _ (recovered_step-IsSound round1 t.alert_threshold now) _
      (each_camera-AllValues _ (offline_step-IsSound round1 t.alert_threshold now) t.cameras h)
call-AllSound round1 t (removal name) h = AllValues-erase IsSound name t.cameras h

-- Whatever calls are made, in whatever order and at whatever times, from a tracker whose cameras
-- are all sound every camera stays sound.
pub run-AllSound :
    (round1 : ℤ → ℤ) (t : Tracker) (cs : List Call) → AllSound t → AllSound (run round1 t cs).0
unfolding run
run-AllSound round1 t [] h = h
run-AllSound round1 t (c ∷ cs) h =
    run-AllSound round1 (call round1 t c).0 cs (call-AllSound round1 t c h)
