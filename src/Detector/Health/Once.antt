-- ===== src/Detector/Health/Once.antt =====
-- An outage is reported once: the check that sends its alert leaves the camera silent.
use openring.Prelude.Int.{ℤ}
use openring.Prelude.{
  ℕ, ◌≤◌, String, ◌≡◌, refl, ap, subst, ◌∙◌, inl, inr, false, Bool-cases, none, is_some, List, [],
  ◌∷◌, ◌++◌, All, arith, Dict, lookup, ◌==◌, eq_iff,
}
use openring.Detector.Health.Base.{
  CameraState, Tracker, Alert, offline_step, recovered_step, each_camera, check_alerts, Call, run,
}
use openring.Detector.Health.Alerts.{offline_count, offline_count-append}
use openring.Detector.Health.Reported.{
  alerts_of, alerts_of-append, alerts_of-append_none, IsReported, AllReported,
  each_camera-AllReported, each_camera-lookup,
}
use openring.Detector.Health.Distinct.{IsDistinct, run-IsDistinct}
use openring.Detector.Health.Silent.{
  IsSilent, IsNoEnd, offline_step_other, recovered_step_other, recovered_step_quiet, run_quiet,
}

absent-AllReported :
    (name : String) (m : Dict CameraState) → is_some (lookup name m) ≡ false → AllReported name m
unfolding lookup
absent-AllReported name [] absent = tt
absent-AllReported name ((k, s) ∷ m) absent = elim (Bool-cases (k == name)) [
  | inl same ↦ cc (rw same at absent)
  | inr other ↦ (inl other, absent-AllReported name m (rw other at absent))
]

module _ (name : String) (step : String → CameraState → CameraState × List Alert) where
  module _
      (about : (k : String) (s : CameraState)
        → (k == name) ≡ false
        → alerts_of name (step k s).1 ≡ []) where
    each_camera_absent :
        (m : Dict CameraState) → lookup name m ≡ none → alerts_of name (each_camera step m).1 ≡ []
    unfolding each_camera lookup
    each_camera_absent [] absent = refl
    each_camera_absent ((k, s) ∷ m) absent = elim (Bool-cases (k == name)) [
      | inl same ↦ cc (rw same at absent)
      | inr other ↦
          alerts_of-append_none name (step k s).1 (each_camera step m).1 (about k s other)
            (each_camera_absent m (rw other at absent))
    ]

    -- What a step of a pass sends about the camera, where the entry is another or the last of it.
    sent_later :
        (k : String) (s : CameraState) (m : Dict CameraState)
        → (k == name) ≡ false
        → 1 ≤ offline_count (alerts_of name ((step k s).1 ++ (each_camera step m).1))
        → 1 ≤ offline_count (alerts_of name (each_camera step m).1)
    sent_later k s m other sent =
        let e = alerts_of-append name (step k s).1 (each_camera step m).1 in
        rw (e, about k s other) at sent

    sent_now :
        (k : String) (s : CameraState) (m : Dict CameraState)
        → lookup name m ≡ none
        → 1 ≤ offline_count (alerts_of name ((step k s).1 ++ (each_camera step m).1))
        → 1 ≤ offline_count (alerts_of name (step k s).1)
    sent_now k s m absent sent = omega (
      arith,
      sent,
      ap offline_count (alerts_of-append name (step k s).1 (each_camera step m).1),
      offline_count-append (alerts_of name (step k s).1) (alerts_of name (each_camera step m).1),
      ap offline_count (each_camera_absent m absent),
    )

    -- A pass that sends an offline alert about a camera leaves it reported and known.
    module _
        (reports : (k : String) (s : CameraState)
          → 1 ≤ offline_count (alerts_of name (step k s).1)
          → IsReported (step k s).0) where
      each_camera-IsSilent :
          (m : Dict CameraState)
          → IsDistinct m
          → 1 ≤ offline_count (alerts_of name (each_camera step m).1)
          → IsSilent name (each_camera step m).0
      unfolding each_camera lookup
      each_camera-IsSilent [] distinct sent = absurd (omega arith)
      each_camera-IsSilent ((k, s) ∷ m) (absent, distinct) sent = elim (Bool-cases (k == name)) [
        | inl same ↦
            let unknown : lookup name m ≡ none =
              subst (λ x. lookup x m ≡ none) ((eq_iff k name).0 same) absent in
            record {
              all_reported = (
                inr (reports k s (sent_now k s m unknown sent)),
                absent-AllReported name _ (each_camera-lookup name step m ∙ ap is_some unknown),
              );
              known = rw same refl;
            }
        | inr other ↦
            let rest = each_camera-IsSilent m distinct (sent_later k s m other sent) in
            record { all_reported = (inl other, rest.all_reported); known = rw other rest.known }
      ]

module _ (round1 : ℤ → ℤ) (name : String) where
  offline_step-IsReported :
      (threshold now : ℕ) (k : String) (s : CameraState)
      → 1 ≤ offline_count (alerts_of name (offline_step round1 threshold now k s).1)
      → IsReported (offline_step round1 threshold now k s).0
  unfolding offline_step
  offline_step-IsReported threshold now k s sent = ground arith

  recovered_step_count :
      (threshold now : ℕ) (k : String) (s : CameraState)
      → offline_count (alerts_of name (recovered_step round1 threshold now k s).1) ≡ 0
  unfolding recovered_step
  recovered_step_count threshold now k s = ground arith

  recovered_pass_count :
      (threshold now : ℕ) (m : Dict CameraState)
      → offline_count (alerts_of name (each_camera (recovered_step round1 threshold now) m).1) ≡ 0
  unfolding each_camera
  recovered_pass_count threshold now [] = refl
  recovered_pass_count threshold now ((k, s) ∷ m) =
      let step = recovered_step round1 threshold now in
      let head = (step k s).1 in
      let rest = (each_camera step m).1 in
      omega (
        arith,
        ap offline_count (alerts_of-append name head rest),
        offline_count-append (alerts_of name head) (alerts_of name rest),
        recovered_step_count threshold now k s,
        recovered_pass_count threshold now m,
      )

  check_alerts_reports :
      (t : Tracker) (now : ℕ)
      → IsDistinct t.cameras
      → 1 ≤ offline_count (alerts_of name (check_alerts round1 t now).1)
      → IsSilent name (check_alerts round1 t now).0.cameras
  unfolding check_alerts
  check_alerts_reports t now distinct sent =
      let one = offline_step round1 t.alert_threshold now in
      let two = recovered_step round1 t.alert_threshold now in
      let mid = (each_camera one t.cameras).0 in
      let in_first : 1 ≤ offline_count (alerts_of name (each_camera one t.cameras).1) = omega (
        arith,
        sent,
        ap offline_count
            (alerts_of-append name (each_camera one t.cameras).1 (each_camera two mid).1),
        offline_count-append (alerts_of name (each_camera one t.cameras).1)
            (alerts_of name (each_camera two mid).1),
        recovered_pass_count t.alert_threshold now mid,
      ) in
      let silent =
        each_camera-IsSilent name one (offline_step_other round1 t.alert_threshold now name)
          (offline_step-IsReported t.alert_threshold now) t.cameras distinct in_first in
      record {
        all_reported =
            each_camera-AllReported name two (recovered_step_quiet round1 t.alert_threshold now)
              (recovered_step_other round1 t.alert_threshold now name) mid silent.all_reported;
        known = each_camera-lookup name two mid ∙ silent.known;
      }

  -- Where no name stands twice among the cameras at first, and after any calls a check sends an
  -- offline alert about a camera, no alert about that camera is sent over any later calls, at any
  -- times, in which no frame of it is read and it is not removed.
  pub offline_once :
      (t : Tracker) (earlier : List Call) (now : ℕ) (later : List Call)
      → IsDistinct t.cameras
      → 1 ≤ offline_count (alerts_of name (check_alerts round1 (run round1 t earlier).0 now).1)
      → All (IsNoEnd name) later
      → alerts_of name (run round1 (check_alerts round1 (run round1 t earlier).0 now).0 later).1
        ≡ []
  offline_once t earlier now later distinct sent ongoing =
      let t' = (run round1 t earlier).0 in
      run_quiet round1 name (check_alerts round1 t' now).0 later ongoing
        (check_alerts_reports t' now (run-IsDistinct round1 t earlier distinct) sent)
