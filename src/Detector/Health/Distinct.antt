-- ===== src/Detector/Health/Distinct.antt =====
-- No name stands twice among the cameras, as in a Python dict.
use openring.Prelude.Int.{ℤ}
use openring.Prelude.{
  String, false, ◌≡◌, refl, ap, ◌∙◌, inl, inr, Bool-cases, Option, some, none, is_some, List, [],
  ◌∷◌, arith, Dict, lookup, insert, erase, lookup-insert, lookup-erase, ◌==◌, eq_iff,
}
use openring.Detector.Health.Base.{
  CameraState, Tracker, Alert, record_frame, record_failure, remove_camera, each_camera,
  check_alerts, Call, frame, failure, alerts, removal, call, run,
}
use openring.Detector.Health.Reported.{each_camera-lookup}

abbrev pub IsDistinct : Dict CameraState → Type 0
IsDistinct [] = Unit
IsDistinct ((k, s) ∷ m) = (lookup k m ≡ none) × IsDistinct m

IsDistinct-insert :
    (k : String) (s : CameraState) (m : Dict CameraState) → IsDistinct m → IsDistinct (insert k s m)
unfolding insert lookup
IsDistinct-insert k s [] h = (refl, tt)
IsDistinct-insert k s ((j, s') ∷ m) h = elim (Bool-cases (j == k)) [
  | inl same ↦ rw same h
  | inr other ↦ rw other (
    ground (arith, lookup-insert k j s m, h.0, other, eq_iff j k, eq_iff k j),
    IsDistinct-insert k s m h.1,
  )
]

IsDistinct-erase : (k : String) (m : Dict CameraState) → IsDistinct m → IsDistinct (erase k m)
unfolding erase
IsDistinct-erase k [] h = tt
IsDistinct-erase k ((j, s) ∷ m) h = elim (Bool-cases (j == k)) [
  | inl same ↦ rw same (IsDistinct-erase k m h.1)
  | inr other ↦ rw other (ground (arith, lookup-erase k j m, h.0), IsDistinct-erase k m h.1)
]

is_some-none : {A : Type 0} (o : Option A) → is_some o ≡ false → o ≡ none
is_some-none none e = refl
is_some-none (some a) e = cc

each_camera-IsDistinct :
    (step : String → CameraState → CameraState × List Alert) (m : Dict CameraState)
    → IsDistinct m
    → IsDistinct (each_camera step m).0
unfolding each_camera
each_camera-IsDistinct step [] h = tt
each_camera-IsDistinct step ((k, s) ∷ m) h = (
  is_some-none _ (each_camera-lookup k step m ∙ ap is_some h.0),
  each_camera-IsDistinct step m h.1,
)

module _ (round1 : ℤ → ℤ) where
  call-IsDistinct :
      (t : Tracker) (c : Call) → IsDistinct t.cameras → IsDistinct (call round1 t c).0.cameras
  unfolding call record_frame record_failure remove_camera check_alerts
  call-IsDistinct t (frame name now) h = IsDistinct-insert name _ t.cameras h
  call-IsDistinct t (failure name now) h = IsDistinct-insert name _ t.cameras h
  call-IsDistinct t (alerts now) h =
      each_camera-IsDistinct _ _ (each_camera-IsDistinct _ t.cameras h)
  call-IsDistinct t (removal name) h = IsDistinct-erase name t.cameras h

  pub run-IsDistinct :
      (t : Tracker) (cs : List Call) → IsDistinct t.cameras → IsDistinct (run round1 t cs).0.cameras
  unfolding run
  run-IsDistinct t [] h = h
  run-IsDistinct t (c ∷ cs) h = run-IsDistinct (call round1 t c).0 cs (call-IsDistinct t c h)
