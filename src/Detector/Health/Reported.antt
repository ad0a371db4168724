-- ===== src/Detector/Health/Reported.antt =====
-- Cameras whose outage has been reported, and the alerts about one camera.
use openring.Prelude.{
  ℕ, String, ◌≡◌, ◌⊎◌, refl, ap, sym, subst, ◌∙◌, inl, inr, true, false, Bool-cases, some, is_some,
  List, [], ◌∷◌, ◌++◌, filter, All, arith, Dict, lookup, insert, erase, ◌==◌, eq_iff,
}
use openring.Detector.Health.Base.{
  CameraState, Alert, camera_offline, camera_recovered, frame_failed, each_camera,
}

abbrev pub camera_name : Alert → String
camera_name (camera_offline name _ _) = name
camera_name (camera_recovered name _ _ _) = name

-- The alerts about a camera.
abbrev pub alerts_of : String → List Alert → List Alert
alerts_of name = filter (λ alert. camera_name alert == name)

pub alerts_of-append :
    (name : String) (k l : List Alert)
    → alerts_of name (k ++ l) ≡ alerts_of name k ++ alerts_of name l
alerts_of-append name [] l = refl
alerts_of-append name (a ∷ k) l = ground (arith, alerts_of-append name k l)

-- Two lists of alerts without one about the camera.
pub alerts_of-append_none :
    (name : String) (k l : List Alert)
    → alerts_of name k ≡ []
    → alerts_of name l ≡ []
    → alerts_of name (k ++ l) ≡ []
alerts_of-append_none name k l hk hl = alerts_of-append name k l ∙ ground arith

-- Offline, and reported.
abbrev pub IsReported : CameraState → Type 0
IsReported s = (is_some s.offline_since ≡ true) × (s.alert_sent ≡ true)

-- Every entry of the name is reported.
abbrev pub AllReported : String → Dict CameraState → Type 0
AllReported name = All (λ e. ((e.0 == name) ≡ false) ⊎ IsReported e.1)

pub frame_failed-IsReported :
    (d now : ℕ) (s : CameraState) → IsReported s → IsReported (frame_failed d now s)
unfolding frame_failed
frame_failed-IsReported d now s h = ground arith

pub AllReported-insert :
    (name k : String) (s : CameraState) (m : Dict CameraState)
    → ((k == name) ≡ false) ⊎ IsReported s
    → AllReported name m
    → AllReported name (insert k s m)
unfolding insert
AllReported-insert name k s [] new h = (new, tt)
AllReported-insert name k s ((j, s') ∷ m) new h = elim (Bool-cases (j == k)) [
  | inl same ↦
      let e : j ≡ k = (eq_iff j k).0 same in
      rw same (subst (λ x. ((x == name) ≡ false) ⊎ IsReported s) (sym e) new, h.1)
  | inr other ↦ rw other (h.0, AllReported-insert name k s m new h.1)
]

pub AllReported-erase :
    (name k : String) (m : Dict CameraState) → AllReported name m → AllReported name (erase k m)
unfolding erase
AllReported-erase name k [] h = tt
AllReported-erase name k ((j, s) ∷ m) h = elim (Bool-cases (j == k)) [
  | inl same ↦ rw same (AllReported-erase name k m h.1)
  | inr other ↦ rw other (h.0, AllReported-erase name k m h.1)
]

pub AllReported-lookup :
    (name : String) (s : CameraState) (m : Dict CameraState)
    → AllReported name m
    → lookup name m ≡ some s
    → IsReported s
unfolding lookup
AllReported-lookup name s [] h found = cc
AllReported-lookup name s ((j, s') ∷ m) (inr reported, h) found = elim (Bool-cases (j == name)) [
  | inl same ↦ let e : s' ≡ s = ground arith in subst IsReported e reported
  | inr other ↦ AllReported-lookup name s m h (rw other at found)
]
AllReported-lookup name s ((j, s') ∷ m) (inl other, h) found =
    AllReported-lookup name s m h (rw other at found)

module _ (name : String) (step : String → CameraState → CameraState × List Alert) where
  -- A pass over the cameras says nothing about one that is reported.
  module _ (quiet : (k : String) (s : CameraState) → IsReported s → step k s ≡ (s, []))
      (about : (k : String) (s : CameraState)
        → (k == name) ≡ false
        → alerts_of name (step k s).1 ≡ []) where
    pub each_camera-AllReported :
        (m : Dict CameraState) → AllReported name m → AllReported name (each_camera step m).0
    unfolding each_camera
    each_camera-AllReported [] h = tt
    each_camera-AllReported ((k, s) ∷ m) (inl other, h) = (inl other, each_camera-AllReported m h)
    each_camera-AllReported ((k, s) ∷ m) (inr reported, h) = (
      inr (subst IsReported (ap (λ r. r.0) (sym (quiet k s reported))) reported),
      each_camera-AllReported m h,
    )

    pub each_camera_quiet :
        (m : Dict CameraState) → AllReported name m → alerts_of name (each_camera step m).1 ≡ []
    unfolding each_camera
    each_camera_quiet [] h = refl
    each_camera_quiet ((k, s) ∷ m) (inl other, h) =
        alerts_of-append_none name (step k s).1 (each_camera step m).1 (about k s other)
          (each_camera_quiet m h)
    each_camera_quiet ((k, s) ∷ m) (inr reported, h) =
        alerts_of-append_none name (step k s).1 (each_camera step m).1
          (ap (λ r. alerts_of name r.1) (quiet k s reported)) (each_camera_quiet m h)

  pub each_camera-lookup :
      (m : Dict CameraState)
      → is_some (lookup name (each_camera step m).0) ≡ is_some (lookup name m)
  unfolding each_camera lookup
  each_camera-lookup [] = refl
  each_camera-lookup ((k, s) ∷ m) = ground (arith, each_camera-lookup m)
