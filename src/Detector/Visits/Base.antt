-- ===== src/Detector/Visits/Base.antt =====
-- The state of `VisitTracker` and its methods.
use Prim.Native.String.{◌++◌ as ◌+++◌}
use openring.Prelude.Int.{ℤ, sub_ℕ}
use openring.Prelude.{
  ℕ, ◌+◌, String, Bool, Option, none, some, List, [], ◌∷◌, ◌++◌, map, filter, leb, if◌then◌else◌,
  Dict, lookup, insert, ◌==◌,
}

pub record ActiveVisit : Type 0 where
  pub camera_name : String
  pub class_name : String
  pub start_time : ℕ
  pub last_detection_time : ℕ
  pub detection_count : ℕ

pub record Session : Type 0 where
  pub camera_name : String
  pub class_name : String
  pub start_time : ℕ
  pub end_time : ℕ
  pub duration_secs : ℤ
  pub detection_count : ℕ

pub record Tracker : Type 0 where
  pub timeout : ℕ
  pub active : Dict ActiveVisit
  pub visit_sessions : List Session

-- f"{camera_name}:{class_name}"
unfoldable pub visit_key : String → String → String
visit_key camera_name class_name = camera_name +++ (":" +++ class_name)

unfoldable pub new_visit : String → String → ℕ → ActiveVisit
new_visit camera_name class_name timestamp = record {
  camera_name = camera_name;
  class_name = class_name;
  start_time = timestamp;
  last_detection_time = timestamp;
  detection_count = 1;
}

unfoldable pub close : (ℤ → ℤ) → ActiveVisit → Session
close round1 visit = record {
  camera_name = visit.camera_name;
  class_name = visit.class_name;
  start_time = visit.start_time;
  end_time = visit.last_detection_time;
  duration_secs = round1 (sub_ℕ visit.last_detection_time visit.start_time);
  detection_count = visit.detection_count;
}

-- `_persist` of each record in turn; `stored` tells for a record whether its INSERT succeeds.
unfoldable pub persist : (Session → Bool) → List Session → Tracker → Tracker
persist stored records t = record t { visit_sessions = t.visit_sessions ++ filter stored records }

-- What `record_detection` does under the lock: the visit of the key, and the visit that it closes.
unfoldable pub extend_or_start :
    ℕ → String → String → ℕ → Option ActiveVisit → ActiveVisit × List ActiveVisit
extend_or_start timeout camera_name class_name timestamp none =
    (new_visit camera_name class_name timestamp, [])
extend_or_start timeout camera_name class_name timestamp (some visit) =
    if leb (visit.last_detection_time + timeout) timestamp
    then (new_visit camera_name class_name timestamp, visit ∷ [])
    else (
      record visit { last_detection_time = timestamp; detection_count = visit.detection_count + 1 },
      [],
    )

-- self._active.pop(key)
unfoldable pub pop : String → Dict ActiveVisit → List ActiveVisit × Dict ActiveVisit
pop key [] = ([], [])
pop key ((k, v) ∷ m) =
    let (found, rest) = pop key m in if k == key then (v ∷ [], m) else (found, (k, v) ∷ rest)

unfoldable pub pop_all : List String → Dict ActiveVisit → List ActiveVisit × Dict ActiveVisit
pop_all [] m = ([], m)
pop_all (key ∷ keys) m =
    let (visit, m') = pop key m in let (visits, m'') = pop_all keys m' in (visit ++ visits, m'')

unfoldable pub expired_keys : ℕ → ℕ → Dict ActiveVisit → List String
expired_keys timeout now m =
    map (λ e. e.0) (filter (λ e. leb (e.1.last_detection_time + timeout) now) m)

-- The calls of the detector: a detection, a periodic flush, and the flush at shutdown.
pub data Call : Type 0 where
  detection : (camera class : String) (timestamp : ℕ) → Call
  flushing : (now : ℕ) → Call
  stopping : Call

module _ (round1 : ℤ → ℤ) (stored : Session → Bool) where
  unfoldable pub record_detection : Tracker → String → String → ℕ → Tracker
  unfolding visit_key extend_or_start persist
  record_detection t camera_name class_name timestamp =
      let key = visit_key camera_name class_name in
      let (visit, closed) =
        extend_or_start t.timeout camera_name class_name timestamp (lookup key t.active) in
      persist stored (map (close round1) closed) (record t { active = insert key visit t.active })

  unfoldable pub flush_expired : Tracker → ℕ → Tracker × List Session
  unfolding expired_keys persist
  flush_expired t now =
      let (visits, active) = pop_all (expired_keys t.timeout now t.active) t.active in
      let closed = map (close round1) visits in
      (persist stored closed (record t { active = active }), closed)

  unfoldable pub flush_all : Tracker → Tracker × List Session
  unfolding persist
  flush_all t =
      let (visits, active) = pop_all (map (λ e. e.0) t.active) t.active in
      let closed = map (close round1) visits in
      (persist stored closed (record t { active = active }), closed)

  unfoldable pub call : Tracker → Call → Tracker
  call t (detection camera class timestamp) = record_detection t camera class timestamp
  call t (flushing now) = (flush_expired t now).0
  call t stopping = (flush_all t).0

  unfoldable pub run : Tracker → List Call → Tracker
  run t [] = t
  run t (c ∷ cs) = run (call t c) cs
