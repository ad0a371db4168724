-- ===== src/Detector/Health/Silent.antt =====
-- While an outage that is reported lasts, nothing more is said about its camera.
use openring.Prelude.Int.{ℤ}
use openring.Prelude.{
  ℕ, String, ◌≡◌, ◌⊎◌, refl, ap, sym, subst, ◌∙◌, inl, inr, true, false, Bool-cases, Option-cases,
  is_some, List, [], ◌∷◌, All, arith, Dict, lookup, insert, erase, lookup-insert, lookup-erase,
  ◌==◌, eq_iff,
}
use openring.Detector.Health.Base.{
  CameraState, camera_of, Tracker, record_frame, frame_failed, record_failure, remove_camera,
  offline_step, recovered_step, each_camera, check_alerts, Call, frame, failure, alerts, removal,
  call, run,
}
use openring.Detector.Health.Reported.{
  alerts_of, alerts_of-append_none, IsReported, AllReported, frame_failed-IsReported,
  AllReported-insert, AllReported-erase, AllReported-lookup, each_camera-AllReported,
  each_camera_quiet, each_camera-lookup,
}

-- Every entry of the name is reported, and there is one.
pub record IsSilent (name : String) (m : Dict CameraState) : Type 0 where
  pub all_reported : AllReported name m
  pub known : is_some (lookup name m) ≡ true

IsSilent-insert :
    (name k : String) (s : CameraState) (m : Dict CameraState)
    → ((k == name) ≡ false) ⊎ IsReported s
    → IsSilent name m
    → IsSilent name (insert k s m)
IsSilent-insert name k s m new h = record {
  all_reported = AllReported-insert name k s m new h.all_reported;
  known = ground (arith, lookup-insert k name s m, h.known);
}

IsSilent-erase :
    (name k : String) (m : Dict CameraState)
    → (k == name) ≡ false
    → IsSilent name m
    → IsSilent name (erase k m)
IsSilent-erase name k m other h = record {
  all_reported = AllReported-erase name k m h.all_reported;
  known = ground (arith, lookup-erase k name m, h.known);
}

failed-IsSilent :
    (name k : String) (d now : ℕ) (m : Dict CameraState)
    → IsSilent name m
    → IsSilent name (insert k (frame_failed d now (camera_of (lookup k m))) m)
failed-IsSilent name k d now m h = elim (Bool-cases (k == name)) [
  | inl same ↦ elim (Option-cases (lookup name m)) [
    | inl absent ↦ cc (rw absent at h.known)
    | inr (s, found) ↦
        let entry : camera_of (lookup k m) ≡ s =
          ap (λ x. camera_of (lookup x m)) ((eq_iff k name).0 same) ∙ ap camera_of found in
        let after : IsReported (frame_failed d now s) =
          frame_failed-IsReported d now s (AllReported-lookup name s m h.all_reported found) in
        IsSilent-insert name k _ m
          (inr (subst (λ x. IsReported (frame_failed d now x)) (sym entry) after)) h
  ]
  | inr other ↦ IsSilent-insert name k _ m (inl other) h
]

module _ (round1 : ℤ → ℤ) (threshold now : ℕ) where
  offline_step_quiet :
      (k : String) (s : CameraState)
      → IsReported s
      → offline_step round1 threshold now k s ≡ (s, [])
  unfolding offline_step
  offline_step_quiet k s h = ground arith

  pub recovered_step_quiet :
      (k : String) (s : CameraState)
      → IsReported s
      → recovered_step round1 threshold now k s ≡ (s, [])
  unfolding recovered_step
  recovered_step_quiet k s h = ground arith

  pub offline_step_other :
      (name k : String) (s : CameraState)
      → (k == name) ≡ false
      → alerts_of name (offline_step round1 threshold now k s).1 ≡ []
  unfolding offline_step
  offline_step_other name k s other = ground arith

  pub recovered_step_other :
      (name k : String) (s : CameraState)
      → (k == name) ≡ false
      → alerts_of name (recovered_step round1 threshold now k s).1 ≡ []
  unfolding recovered_step
  recovered_step_other name k s other = ground arith

-- A call that ends no outage of the camera: no frame of it is read, and it is not removed.
abbrev pub IsNoEnd : String → Call → Type 0
IsNoEnd name (frame k now) = (k == name) ≡ false
IsNoEnd name (failure k now) = Unit
IsNoEnd name (alerts now) = Unit
IsNoEnd name (removal k) = (k == name) ≡ false

module _ (round1 : ℤ → ℤ) (name : String) where
  check_alerts-IsSilent :
      (t : Tracker) (now : ℕ)
      → IsSilent name t.cameras
      → IsSilent name (check_alerts round1 t now).0.cameras
        × (alerts_of name (check_alerts round1 t now).1 ≡ [])
  unfolding check_alerts
  check_alerts-IsSilent t now h =
      let one = offline_step round1 t.alert_threshold now in
      let two = recovered_step round1 t.alert_threshold now in
      let mid = (each_camera one t.cameras).0 in
      let quiet_one = offline_step_quiet round1 t.alert_threshold now in
      let quiet_two = recovered_step_quiet round1 t.alert_threshold now in
      let other_one = offline_step_other round1 t.alert_threshold now name in
      let other_two = recovered_step_other round1 t.alert_threshold now name in
      let after_one =
        each_camera-AllReported name one quiet_one other_one t.cameras h.all_reported in
      (
        record {
          all_reported = each_camera-AllReported name two quiet_two other_two mid after_one;
          known =
              each_camera-lookup name two mid ∙ (each_camera-lookup name one t.cameras ∙ h.known);
        },
        alerts_of-append_none name (each_camera one t.cameras).1 (each_camera two mid).1
            (each_camera_quiet name one quiet_one other_one t.cameras h.all_reported)
            (each_camera_quiet name two quiet_two other_two mid after_one),
      )

  call-IsSilent :
      (t : Tracker) (c : Call)
      → IsNoEnd name c
      → IsSilent name t.cameras
      → IsSilent name (call round1 t c).0.cameras × (alerts_of name (call round1 t c).1 ≡ [])
  unfolding call record_frame record_failure remove_camera
  call-IsSilent t (frame k now) other h = (IsSilent-insert name k _ t.cameras (inl other) h, refl)
  call-IsSilent t (failure k now) _ h = (failed-IsSilent name k t.debounce now t.cameras h, refl)
  call-IsSilent t (alerts now) _ h = check_alerts-IsSilent t now h
  call-IsSilent t (removal k) other h = (IsSilent-erase name k t.cameras other h, refl)

  pub run_quiet :
      (t : Tracker) (cs : List Call)
      → All (IsNoEnd name) cs
      → IsSilent name t.cameras
      → alerts_of name (run round1 t cs).1 ≡ []
  unfolding run
  run_quiet t [] ongoing h = refl
  run_quiet t (c ∷ cs) ongoing h =
      let (t', sent) = call round1 t c in
      let after = call-IsSilent t c ongoing.0 h in
      alerts_of-append_none name sent (run round1 t' cs).1 after.1
        (run_quiet t' cs ongoing.1 after.0)
