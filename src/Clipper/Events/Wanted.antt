-- ===== src/Clipper/Events/Wanted.antt =====
-- What a message must be for a clip to be submitted.
use openring.Prelude.Yaml.{Value, null, flag, number, text, items, mapping}
use openring.Prelude.{
  ℕ, String, true, false, ◌≡◌, ◌≤◌, refl, ap, ◌∙◌, inl, inr, Option, none, some, Dict, lookup, ltb,
  Bool-cases, Option-cases, arith, ◌==◌,
}
use openring.Shared.Signing.{Event, sign_event, verify_event}
use openring.Shared.Signing.Verified.{verify_event-true}
use openring.Clipper.Settings.{ClipperSettings, applies_to}
use openring.Clipper.Events.Base.{
  Parsed, malformed, other, object, submitted, class_of, applies, segmenter_of, confidence_of,
  dispatch, authentic, handle,
}

-- A signed event of an enabled clipper, with the confidence that it needs, of a camera with the segmenter.
pub record IsWanted {G K B : Type 0} (float_confidence : Value → Option ℕ)
    (dumps : Event → Option B) (hexdigest : K → B → String) (key : K) (s : ClipperSettings)
    (segmenters : Dict G) (g : G) (event : Event) : Type 0 where
  pub signed : sign_event dumps hexdigest event key ≡ some event
  pub enabled : s.enabled ≡ true
  pub confidence : ℕ
  pub read : confidence_of float_confidence (lookup "confidence" event) ≡ some confidence
  pub enough : s.min_confidence ≤ confidence
  pub camera : String
  pub known : lookup camera segmenters ≡ some g

submitted-injective : {G : Type 0} {g h : G} → submitted g ≡ submitted h → g ≡ h
submitted-injective e = ground (arith, e)

-- The segmenter is that of a camera.
segmenter_of-submitted :
    {G : Type 0} (segmenters : Dict G) (o : Option Value) (g : G)
    → segmenter_of segmenters o ≡ submitted g
    → (camera : String) × (lookup camera segmenters ≡ some g)
unfolding segmenter_of
segmenter_of-submitted segmenters none g e = elim (Option-cases (lookup "" segmenters)) [
  | inl absent ↦ cc (rw (absent, segmenter_of) at e)
  | inr (g', present) ↦
      ("", present ∙ ap some (submitted-injective (rw (present, segmenter_of) at e)))
]
segmenter_of-submitted segmenters (some (text camera)) g e =
    elim (Option-cases (lookup camera segmenters)) [
      | inl absent ↦ cc (rw (absent, segmenter_of) at e)
      | inr (g', present) ↦
          (camera, present ∙ ap some (submitted-injective (rw (present, segmenter_of) at e)))
    ]
segmenter_of-submitted segmenters (some null) g e = cc e
segmenter_of-submitted segmenters (some (flag b)) g e = cc e
segmenter_of-submitted segmenters (some (number n)) g e = cc e
segmenter_of-submitted segmenters (some (items l)) g e = cc e
segmenter_of-submitted segmenters (some (mapping m)) g e = cc e

applies_enough :
    (s : ClipperSettings) (o : Option String) (confidence : ℕ)
    → applies s o confidence ≡ some true
    → s.min_confidence ≤ confidence
unfolding applies applies_to
applies_enough s (some class_name) confidence e =
    elim (Bool-cases (ltb confidence s.min_confidence)) [
      | inl less ↦ cc (rw (less, applies, applies_to) at e)
      | inr enough ↦ ground (arith, enough)
    ]
applies_enough s none confidence e = elim (Bool-cases (ltb confidence s.min_confidence)) [
  | inl less ↦ cc (rw (less, applies) at e)
  | inr enough ↦ ground (arith, enough)
]

module _ {G K B : Type 0} (float_confidence : Value → Option ℕ) (dumps : Event → Option B)
    (hexdigest : K → B → String) where
  dispatch-submitted :
      (s : ClipperSettings) (segmenters : Dict G) (event : Event) (g : G)
      → dispatch float_confidence s segmenters event ≡ submitted g
      → (s.enabled ≡ true)
        × (confidence : ℕ) × (confidence_of float_confidence (lookup "confidence" event)
            ≡ some confidence)
        × (s.min_confidence ≤ confidence)
        × (camera : String) × (lookup camera segmenters ≡ some g)
  unfolding dispatch
  dispatch-submitted s segmenters event g e = elim (Bool-cases s.enabled) [
    | inr disabled ↦ cc (rw (disabled, dispatch) at e)
    | inl enabled ↦
        elim (Option-cases (confidence_of float_confidence (lookup "confidence" event))) [
          | inl unread ↦ cc (rw (enabled, unread, dispatch) at e)
          | inr (confidence, read) ↦
              elim (Option-cases (applies s (class_of (lookup "class_name" event)) confidence)) [
                | inl unlowered ↦ cc (rw (enabled, read, unlowered, dispatch) at e)
                | inr (false, passed) ↦ cc (rw (enabled, read, passed, dispatch) at e)
                | inr (true, passed) ↦
                    let (camera, known) =
                      segmenter_of-submitted segmenters (lookup "camera_name" event) g
                        (rw (enabled, read, passed, dispatch) at e) in
                    (enabled, confidence, read, applies_enough s _ confidence passed, camera, known)
              ]
        ]
  ]

  -- Where a key is set, a clip is submitted only for a message that parses to an event whose signature
  -- under that key is its own, while clips are enabled, with a confidence of the minimum or more, and
  -- with the segmenter of a camera.
  pub handle-IsWanted :
      (key : K) (s : ClipperSettings) (segmenters : Dict G) (kind : String) (parsed : Parsed)
      (g : G)
      → handle float_confidence dumps hexdigest (some key) s segmenters kind parsed ≡ submitted g
      → (event : Event) × (parsed ≡ object event)
        × IsWanted float_confidence dumps hexdigest key s segmenters g event
  unfolding handle authentic
  handle-IsWanted key s segmenters kind malformed g e = cc e
  handle-IsWanted key s segmenters kind other g e = elim (Bool-cases (kind == "message")) [
    | inl is_message ↦ cc (rw (is_message, handle) at e)
    | inr is_none ↦ cc (rw (is_none, handle) at e)
  ]
  handle-IsWanted key s segmenters kind (object event) g e = elim (Bool-cases (kind == "message")) [
    | inr is_none ↦ cc (rw (is_none, handle) at e)
    | inl is_message ↦ elim (Option-cases (verify_event dumps hexdigest event key)) [
      | inl broken ↦ cc (rw (is_message, broken, handle, authentic) at e)
      | inr (false, refused) ↦ cc (rw (is_message, refused, handle, authentic) at e)
      | inr (true, verified) ↦
          let (enabled, confidence, read, enough, camera, known) =
            dispatch-submitted s segmenters event g
              (rw (is_message, verified, handle, authentic) at e) in
          (
            event,
            refl,
            record {
              signed = verify_event-true dumps hexdigest event key verified;
              enabled = enabled;
              confidence = confidence;
              read = read;
              enough = enough;
              camera = camera;
              known = known;
            },
          )
    ]
  ]
