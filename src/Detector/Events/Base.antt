-- ===== src/Detector/Events/Base.antt =====
-- The state of `EventProcessor`, and `process`.
use Prim.Native.String.{◌++◌ as ◌+++◌}
use openring.Prelude.{
  ℕ, ◌+◌, String, Bool, Option, none, some, List, [], ◌∷◌, ◌++◌, map, ltb, if◌then◌else◌, Dict,
  lookup, insert,
}

-- f"{camera_name}:{det.class_name}"
unfoldable pub event_key : String → String → String
event_key camera_name class_name = camera_name +++ (":" +++ class_name)

-- What the clock, the disk and the database give for a detection.
pub record Stamp : Type 0 where
  pub timestamp : String
  pub snapshot_path : Option String
  pub feedback_token : String
  pub inserted : Bool

pub record Detection (D : Type 0) : Type 0 where
  pub class_name : String
  pub detail : D
  pub stamp : Stamp

pub record Event (D : Type 0) : Type 0 where
  pub timestamp : String
  pub class_name : String
  pub detail : D
  pub camera_name : String
  pub snapshot_path : Option String
  pub actions_triggered : Option (List String)
  pub matched_groups : List String
  pub feedback_token : String

-- A row of detection_events.
pub record Row (D : Type 0) : Type 0 where
  pub timestamp : String
  pub class_name : String
  pub detail : Option D
  pub camera_name : String
  pub snapshot_path : Option String
  pub actions_triggered : Option (List String)
  pub feedback_token : Option String

pub record Processor (D : Type 0) : Type 0 where
  pub last_event : Dict ℕ
  pub detection_events : List (Row D)

-- The arguments of a call of `process` but the detections.
pub record Call : Type 0 where
  pub now : ℕ
  pub camera_name : String
  pub actions_by_class : Option (Dict (List String))
  pub groups_by_class : Option (Dict (List String))

abbrev pub get_or {ℓ} : {A : Type ℓ} → A → Option A → A
get_or default none = default
get_or default (some a) = a

-- self._last_event.get(key, 0.0)
unfoldable pub last_of : Dict ℕ → String → ℕ
last_of last_event key = get_or 0 (lookup key last_event)

unfoldable pub actions_of : Option (Dict (List String)) → String → Option (List String)
actions_of none class_name = some []
actions_of (some by_class) class_name = lookup class_name by_class

unfoldable pub groups_of : Option (Dict (List String)) → String → List String
groups_of none class_name = []
groups_of (some by_class) class_name = get_or [] (lookup class_name by_class)

unfoldable pub event_of : {D : Type 0} → Call → Detection D → Event D
unfolding actions_of groups_of
event_of call det = record {
  timestamp = det.stamp.timestamp;
  class_name = det.class_name;
  detail = det.detail;
  camera_name = call.camera_name;
  snapshot_path = det.stamp.snapshot_path;
  actions_triggered = actions_of call.actions_by_class det.class_name;
  matched_groups = groups_of call.groups_by_class det.class_name;
  feedback_token = det.stamp.feedback_token;
}

unfoldable pub row_of : {D : Type 0} → Event D → Row D
row_of e = record {
  timestamp = e.timestamp;
  class_name = e.class_name;
  detail = some e.detail;
  camera_name = e.camera_name;
  snapshot_path = e.snapshot_path;
  actions_triggered = e.actions_triggered;
  feedback_token = some e.feedback_token;
}

-- `_persist`: a failing INSERT is logged and leaves the table.
unfoldable pub persist : {D : Type 0} → Bool → Row D → List (Row D) → List (Row D)
persist inserted row rows = if inserted then rows ++ row ∷ [] else rows

-- The state after a detection that passes its cooldown.
unfoldable pub accepted : {D : Type 0} → Processor D → Call → Detection D → Processor D
unfolding event_key event_of row_of persist
accepted p call det = record {
  last_event = insert (event_key call.camera_name det.class_name) call.now p.last_event;
  detection_events = persist det.stamp.inserted (row_of (event_of call det)) p.detection_events;
}

module _ {D : Type 0} (cooldown_seconds : ℕ) where
  -- The body of the loop over the detections: the event that it appends, if any.
  unfoldable pub process_one : Processor D → Call → Detection D → List (Event D) × Processor D
  unfolding event_key last_of event_of accepted
  process_one p call det =
      let key = event_key call.camera_name det.class_name in
      if ltb call.now (last_of p.last_event key + cooldown_seconds)
      then ([], p)
      else (event_of call det ∷ [], accepted p call det)

  unfoldable pub process : Processor D → Call → List (Detection D) → List (Event D) × Processor D
  unfolding process_one
  process p call [] = ([], p)
  process p call (det ∷ dets) =
      let (events, p') = process_one p call det in
      let (later, last) = process p' call dets in (events ++ later, last)

  -- The loop bodies of all camera threads, in the order of the lock; each event comes with the
  -- reading of the clock in its call.
  unfoldable pub run : Processor D → List (Call × Detection D) → List (ℕ × Event D) × Processor D
  run p [] = ([], p)
  run p ((call, det) ∷ steps) =
      let (events, p') = process_one p call det in
      let (later, last) = run p' steps in (map (λ e. (call.now, e)) events ++ later, last)

-- `log_system_event`: an arm or disarm transition in the same table.
unfoldable pub log_system_event : {D : Type 0} → Processor D → String → String → Bool → Processor D
unfolding persist
log_system_event p event_type timestamp inserted = record p {
  detection_events =
      persist inserted
        (record {
          timestamp = timestamp;
          class_name = event_type;
          detail = none;
          camera_name = "_system";
          snapshot_path = none;
          actions_triggered = none;
          feedback_token = none;
        })
        p.detection_events;
}
