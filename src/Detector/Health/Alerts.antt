-- ===== src/Detector/Health/Alerts.antt =====
-- The alerts that `check_alerts` sends, counted over whole runs.
use openring.Prelude.Int.{ℤ}
use openring.Prelude.{
  ℕ, ◌+◌, ◌≤◌, String, ◌≡◌, List, [], ◌∷◌, ◌++◌, arith, if◌then◌else◌, Dict, insert, erase, lookup,
}
use openring.Detector.Health.Base.{
  CameraState, camera_of, Tracker, Alert, camera_offline, camera_recovered, frame_read,
  record_frame, frame_failed, record_failure, remove_camera, offline_step, recovered_step,
  each_camera, check_alerts, Call, frame, failure, alerts, removal, call, run,
}

abbrev pub offline_count : List Alert → ℕ
offline_count [] = 0
offline_count (camera_offline _ _ _ ∷ l) = offline_count l + 1
offline_count (camera_recovered _ _ _ _ ∷ l) = offline_count l

abbrev pub recovered_count : List Alert → ℕ
recovered_count [] = 0
recovered_count (camera_offline _ _ _ ∷ l) = recovered_count l
recovered_count (camera_recovered _ _ _ _ ∷ l) = recovered_count l + 1

pub offline_count-append :
    (k l : List Alert) → offline_count (k ++ l) ≡ offline_count k + offline_count l
offline_count-append [] l = omega arith
offline_count-append (camera_offline _ _ _ ∷ k) l = omega (arith, offline_count-append k l)
offline_count-append (camera_recovered _ _ _ _ ∷ k) l = omega (arith, offline_count-append k l)

recovered_count-append :
    (k l : List Alert) → recovered_count (k ++ l) ≡ recovered_count k + recovered_count l
recovered_count-append [] l = omega arith
recovered_count-append (camera_offline _ _ _ ∷ k) l = omega (arith, recovered_count-append k l)
recovered_count-append (camera_recovered _ _ _ _ ∷ k) l = omega (arith, recovered_count-append k l)

abbrev pub owed : CameraState → ℕ
owed s = if s.outage_alerted then 1 else 0

-- The cameras whose recovery is still to be announced.
abbrev pub total_owed : Dict CameraState → ℕ
total_owed [] = 0
total_owed ((name, s) ∷ m) = owed s + total_owed m

owed-insert :
    (name : String) (s : CameraState) (m : Dict CameraState)
    → owed s ≡ owed (camera_of (lookup name m))
    → total_owed (insert name s m) ≤ total_owed m
unfolding insert lookup
owed-insert name s [] h = ground arith
owed-insert name s ((k, s') ∷ m) h = ground (arith, owed-insert name s m)

owed-erase : (name : String) (m : Dict CameraState) → total_owed (erase name m) ≤ total_owed m
unfolding erase
owed-erase name [] = omega arith
owed-erase name ((k, s) ∷ m) = ground (arith, owed-erase name m)

owed-frame_read : (now : ℕ) (s : CameraState) → owed (frame_read now s) ≡ owed s
unfolding frame_read
owed-frame_read now s = ground arith

owed-frame_failed : (d now : ℕ) (s : CameraState) → owed (frame_failed d now s) ≡ owed s
unfolding frame_failed
owed-frame_failed d now s = ground arith

-- What a pass over the cameras may change: each recovery that it sends is owed, or pays for one.
abbrev Balanced : CameraState → CameraState × List Alert → Type 0
Balanced s r = recovered_count r.1 + owed r.0 ≤ offline_count r.1 + owed s

module _ (step : String → CameraState → CameraState × List Alert) where
  each_camera-balance :
      ((name : String) (s : CameraState) → Balanced s (step name s))
      → (m : Dict CameraState)
      → recovered_count (each_camera step m).1 + total_owed (each_camera step m).0
        ≤ offline_count (each_camera step m).1 + total_owed m
  unfolding each_camera
  each_camera-balance keep [] = omega arith
  each_camera-balance keep ((name, s) ∷ m) = omega (
    arith,
    keep name s,
    each_camera-balance keep m,
    offline_count-append (step name s).1 (each_camera step m).1,
    recovered_count-append (step name s).1 (each_camera step m).1,
  )

module _ (round1 : ℤ → ℤ) where
  offline_step-balance :
      (threshold now : ℕ) (name : String) (s : CameraState)
      → Balanced s (offline_step round1 threshold now name s)
  unfolding offline_step
  offline_step-balance threshold now name s = ground arith

  recovered_step-balance :
      (threshold now : ℕ) (name : String) (s : CameraState)
      → Balanced s (recovered_step round1 threshold now name s)
  unfolding recovered_step
  recovered_step-balance threshold now name s = ground arith

  call-balance :
      (t : Tracker) (c : Call)
      → recovered_count (call round1 t c).1 + total_owed (call round1 t c).0.cameras
        ≤ offline_count (call round1 t c).1 + total_owed t.cameras
  unfolding call record_frame record_failure remove_camera check_alerts
  call-balance t (frame name now) = omega (
    arith,
    owed-insert name (frame_read now (camera_of (lookup name t.cameras))) t.cameras
        (owed-frame_read now (camera_of (lookup name t.cameras))),
  )
  call-balance t (failure name now) = omega (
    arith,
    owed-insert name (frame_failed t.debounce now (camera_of (lookup name t.cameras))) t.cameras
        (owed-frame_failed t.debounce now (camera_of (lookup name t.cameras))),
  )
  call-balance t (alerts now) =
      let first = offline_step round1 t.alert_threshold now in
      let second = recovered_step round1 t.alert_threshold now in
      let mid = (each_camera first t.cameras).0 in
      omega (
        arith,
        each_camera-balance first (offline_step-balance t.alert_threshold now) t.cameras,
        each_camera-balance second (recovered_step-balance t.alert_threshold now) mid,
        offline_count-append (each_camera first t.cameras).1 (each_camera second mid).1,
        recovered_count-append (each_camera first t.cameras).1 (each_camera second mid).1,
      )
  call-balance t (removal name) = omega (arith, owed-erase name t.cameras)

  -- Over any run of calls, at any times, the recovery alerts that are sent and the recoveries still
  -- owed at the end are at most the offline alerts that are sent and the recoveries owed before it.
  pub run-balance :
      (t : Tracker) (cs : List Call)
      → recovered_count (run round1 t cs).1 + total_owed (run round1 t cs).0.cameras
        ≤ offline_count (run round1 t cs).1 + total_owed t.cameras
  unfolding run
  run-balance t [] = omega arith
  run-balance t (c ∷ cs) = omega (
    arith,
    call-balance t c,
    run-balance (call round1 t c).0 cs,
    offline_count-append (call round1 t c).1 (run round1 (call round1 t c).0 cs).1,
    recovered_count-append (call round1 t c).1 (run round1 (call round1 t c).0 cs).1,
  )
