-- ===== src/Clipper/Events/Base.antt =====
-- The body of the loop over the messages in `subscribe_loop`.
use openring.Prelude.Yaml.{Value, null, flag, number, text, items, mapping, truthy}
use openring.Prelude.{
  ℕ, String, Bool, true, false, not, Option, none, some, Dict, lookup, is_empty, ltb, if◌then◌else◌,
  ◌==◌,
}
use openring.Shared.Signing.{Event, verify_event}
use openring.Clipper.Settings.{ClipperSettings, applies_to}

-- What json.loads gives: JSONDecodeError, a value that is no dict, or a dict.
pub data Parsed : Type 0 where
  malformed : Parsed
  other : Parsed
  object : Event → Parsed

-- What becomes of a message: it is passed over, an exception leaves the loop, or a clip is submitted
-- with the segmenter of its camera.
pub data Verdict (G : Type 0) : Type 0 where
  skipped raised : Verdict G
  submitted : G → Verdict G

-- event.get("class_name", ""), where that is a text.
unfoldable pub class_of : Option Value → Option String
class_of none = some ""
class_of (some (text s)) = some s
class_of (some null) = none
class_of (some (flag b)) = none
class_of (some (number n)) = none
class_of (some (items l)) = none
class_of (some (mapping m)) = none

-- `applies_to`, which raises where it lowers what is no text.
unfoldable pub applies : ClipperSettings → Option String → ℕ → Option Bool
applies s (some class_name) confidence = some (applies_to s class_name confidence)
applies s none confidence =
    if ltb confidence s.min_confidence
    then some false
    else if is_empty s.trigger_classes
    then some true
    else none

-- segmenters.get(event.get("camera_name", "")), whose keys are texts: None, or TypeError for a list or a
-- dict.
unfoldable pub segmenter_of : {G : Type 0} → Dict G → Option Value → Verdict G
segmenter_of segmenters none = elim (lookup "" segmenters) [ none ↦ skipped | some g ↦ submitted g ]
segmenter_of segmenters (some (text camera)) = elim (lookup camera segmenters) [
  | none ↦ skipped
  | some g ↦ submitted g
]
segmenter_of segmenters (some null) = skipped
segmenter_of segmenters (some (flag b)) = skipped
segmenter_of segmenters (some (number n)) = skipped
segmenter_of segmenters (some (items l)) = raised
segmenter_of segmenters (some (mapping m)) = raised

module _ (float_confidence : Value → Option ℕ) where
  -- float(event.get("confidence", 0.0) or 0.0)
  unfoldable pub confidence_of : Option Value → Option ℕ
  confidence_of none = some 0
  confidence_of (some v) = if truthy v then float_confidence v else some 0

  -- From the look at the settings on.
  unfoldable pub dispatch : {G : Type 0} → ClipperSettings → Dict G → Event → Verdict G
  unfolding confidence_of class_of applies segmenter_of
  dispatch s segmenters event =
      if not s.enabled then skipped else elim (confidence_of (lookup "confidence" event)) [
        | none ↦ raised
        | some confidence ↦ elim (applies s (class_of (lookup "class_name" event)) confidence) [
          | none ↦ raised
          | some false ↦ skipped
          | some true ↦ segmenter_of segmenters (lookup "camera_name" event)
        ]
      ]

  module _ {K B : Type 0} (dumps : Event → Option B) (hexdigest : K → B → String) where
    -- `verify_event`, where there is a key.
    unfoldable pub authentic : Option K → Event → Option Bool
    authentic none event = some true
    authentic (some key) event = verify_event dumps hexdigest event key

    -- A value that is no dict has no `get`, which `verify_event` and the loop call.
    unfoldable pub handle :
        {G : Type 0} → Option K → ClipperSettings → Dict G → String → Parsed → Verdict G
    unfolding dispatch authentic
    handle key s segmenters kind malformed = skipped
    handle none s segmenters kind other =
        if kind == "message" then (if s.enabled then raised else skipped) else skipped
    handle (some key) s segmenters kind other = if kind == "message" then raised else skipped
    handle key s segmenters kind (object event) =
        if not (kind == "message") then skipped else elim (authentic key event) [
          | none ↦ raised
          | some false ↦ skipped
          | some true ↦ dispatch s segmenters event
        ]
