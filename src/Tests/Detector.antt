-- ===== src/Tests/Detector.antt =====
-- services/detector on concrete inputs.
use openring.Prelude.Int.{ℤ, pos}
use openring.Prelude.{◌+◌, ◌≤◌, ◌≡◌, refl, true, lookup, insert, List, [], ◌∷◌, arith}
use openring.Detector.Health
use openring.Detector.Health.Alerts.{run-balance, offline_count, recovered_count, total_owed}
use openring.Detector.Health.Reported.{alerts_of}
use openring.Detector.Health.Once.{offline_once}
use openring.Detector.Visits
use openring.Detector.Visits.Conserved.{total-run, total, detections}

abbrev no_rounding : ℤ → ℤ
no_rounding d = d

abbrev tracker : Health.Tracker
tracker = record { alert_threshold = 600; debounce = 30; cameras = [] }

-- The porch camera fails, is reported, comes back, and is reported again once it has stayed.
abbrev outage : List Health.Call
outage =
    Health.frame "porch" 10
    ∷ Health.failure "porch" 50
    ∷ Health.alerts 649
    ∷ Health.alerts 650
    ∷ Health.alerts 700
    ∷ Health.frame "porch" 750
    ∷ Health.alerts 800
    ∷ Health.alerts 1350
    ∷ []

outage_alerts :
    (Health.run no_rounding tracker outage).1
    ≡ Health.camera_offline "porch" (pos 600) 0
      ∷ Health.camera_recovered "porch" (pos 700) (pos 600) 1
      ∷ []
unfolding Health.run Health.call Health.record_frame Health.record_failure Health.check_alerts
    Health.each_camera Health.offline_step Health.recovered_step lookup insert
outage_alerts = refl

run-balance_example :
    recovered_count (Health.run no_rounding tracker outage).1
      + total_owed (Health.run no_rounding tracker outage).0.cameras
    ≤ offline_count (Health.run no_rounding tracker outage).1 + total_owed tracker.cameras
run-balance_example = run-balance no_rounding tracker outage

-- The porch camera goes down, and the gate camera does not.
abbrev going_down : List Health.Call
going_down =
    Health.frame "gate" 10
    ∷ Health.frame "porch" 10
    ∷ Health.failure "porch" 50
    ∷ Health.frame "gate" 640
    ∷ []

abbrev still_down : List Health.Call
still_down =
    Health.failure "porch" 660
    ∷ Health.alerts 700
    ∷ Health.frame "gate" 710
    ∷ Health.removal "gate"
    ∷ Health.alerts 2000
    ∷ []

offline_once_example :
    alerts_of "porch"
      (Health.run no_rounding
        (Health.check_alerts no_rounding (Health.run no_rounding tracker going_down).0 650).0
        still_down).1
    ≡ []
unfolding Health.run Health.call Health.record_frame Health.record_failure Health.check_alerts
    Health.each_camera Health.offline_step Health.recovered_step lookup insert
offline_once_example =
    offline_once no_rounding "porch" tracker going_down 650 still_down tt (omega arith)
      (tt, (tt, (refl, (refl, (tt, tt)))))

abbrev visits : Visits.Tracker
visits = record { timeout = 300; active = []; visit_sessions = [] }

abbrev evening : List Visits.Call
evening =
    Visits.detection "porch" "person" 100
    ∷ Visits.detection "porch" "person" 300
    ∷ Visits.detection "gate" "person" 310
    ∷ Visits.detection "porch" "person" 700
    ∷ Visits.flushing 700
    ∷ Visits.stopping
    ∷ []

evening_sessions :
    (Visits.run no_rounding (λ s. true) visits evening).visit_sessions
    ≡ record {
      camera_name = "porch";
      class_name = "person";
      start_time = 100;
      end_time = 300;
      duration_secs = pos 200;
      detection_count = 2;
    }
      ∷ record {
        camera_name = "gate";
        class_name = "person";
        start_time = 310;
        end_time = 310;
        duration_secs = pos 0;
        detection_count = 1;
      }
      ∷ record {
        camera_name = "porch";
        class_name = "person";
        start_time = 700;
        end_time = 700;
        duration_secs = pos 0;
        detection_count = 1;
      }
      ∷ []
unfolding Visits.run Visits.call Visits.record_detection Visits.flush_expired Visits.flush_all
    Visits.pop_all Visits.pop Visits.close Visits.new_visit lookup insert
evening_sessions = refl

total-run_example :
    total (Visits.run no_rounding (λ s. true) visits evening) ≡ total visits + detections evening
total-run_example = total-run no_rounding (λ s. true) (λ s. refl) visits evening
