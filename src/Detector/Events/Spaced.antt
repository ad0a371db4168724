-- ===== src/Detector/Events/Spaced.antt =====
-- Two events of one camera and class are a cooldown apart.
use openring.Prelude.{
  ℕ, ◌+◌, ◌≤◌, String, ◌≡◌, ◌⊎◌, refl, ap, ◌∙◌, inl, inr, Bool-cases, false, List, [], ◌∷◌, ◌++◌,
  map, ltb, arith, All, All-map, Dict, insert, lookup-insert, ◌==◌, eq_iff, if◌then◌else◌,
}
use mathlib.Core.List.{map-append}
use openring.Detector.Events.Base.{
  event_key, Detection, Event, Processor, Call, last_of, event_of, accepted, process_one, process,
  run,
}

-- The key under which the processor remembers an event.
abbrev pub key_of : {D : Type 0} → Event D → String
key_of e = event_key e.camera_name e.class_name

-- The second of two timed events has another key, or comes a cooldown later.
abbrev pub Apart : {D : Type 0} → ℕ → ℕ × Event D → ℕ × Event D → Type 0
Apart cooldown earlier later =
    ((key_of earlier.1 == key_of later.1) ≡ false) ⊎ (earlier.0 + cooldown ≤ later.0)

abbrev pub IsSpaced : {D : Type 0} → ℕ → List (ℕ × Event D) → Type 0
IsSpaced cooldown [] = Unit
IsSpaced cooldown (e ∷ l) = All (Apart cooldown e) l × IsSpaced cooldown l

last_of-insert :
    (key j : String) (now : ℕ) (d : Dict ℕ)
    → last_of (insert key now d) j ≡ (if key == j then now else last_of d j)
unfolding last_of
last_of-insert key j now d = ground (arith, lookup-insert key j now d)

last_of_grows :
    (key j : String) (now : ℕ) (d : Dict ℕ)
    → last_of d key ≤ now
    → last_of d j ≤ last_of (insert key now d) j
last_of_grows key j now d h = ground (arith, last_of-insert key j now d, eq_iff key j)

module _ {D : Type 0} (cooldown : ℕ) where
  -- The event of a run comes a cooldown after what the processor remembers.
  abbrev IsDue : Processor D → ℕ × Event D → Type 0
  IsDue p e = last_of p.last_event (key_of e.1) + cooldown ≤ e.0

  module _ (p : Processor D) (call : Call) (det : Detection D)
      (due : ltb call.now
          (last_of p.last_event (event_key call.camera_name det.class_name) + cooldown)
        ≡ false) where
    accepted-IsDue : IsDue p (call.now, event_of call det)
    unfolding event_of
    accepted-IsDue = ground arith

    -- What comes a cooldown after the new state comes a cooldown after the old one.
    accepted_grows : (e : ℕ × Event D) → IsDue (accepted p call det) e → IsDue p e
    unfolding accepted
    accepted_grows e h =
        let key = event_key call.camera_name det.class_name in
        let past : last_of p.last_event key ≤ call.now = ground arith in
        omega (arith, last_of_grows key (key_of e.1) call.now p.last_event past)

    accepted-Apart :
        (e : ℕ × Event D)
        → IsDue (accepted p call det) e
        → Apart cooldown (call.now, event_of call det) e
    unfolding accepted event_of
    accepted-Apart e h =
        let key = event_key call.camera_name det.class_name in
        elim (Bool-cases (key == key_of e.1)) [
          | inl same ↦ inr (ground (arith, last_of-insert key (key_of e.1) call.now p.last_event))
          | inr other ↦ inl other
        ]

  run-IsDue :
      (p : Processor D) (steps : List (Call × Detection D)) → All (IsDue p) (run cooldown p steps).0
  unfolding run process_one
  run-IsDue p [] = tt
  run-IsDue p ((call, det) ∷ steps) =
      elim (Bool-cases (
        ltb call.now
          (last_of p.last_event (event_key call.camera_name det.class_name) + cooldown))) [
            | inl early ↦ rw early (run-IsDue p steps)
            | inr due ↦ rw due (
              accepted-IsDue p call det due,
              All-map (IsDue (accepted p call det)) (IsDue p) (accepted_grows p call det due)
                  (run cooldown (accepted p call det) steps).0
                  (run-IsDue (accepted p call det) steps),
            )
          ]

  -- Over any run of detections of any cameras, in any order and at any times, two events of one
  -- camera and class are at least a cooldown apart.
  pub run-IsSpaced :
      (p : Processor D) (steps : List (Call × Detection D))
      → IsSpaced cooldown (run cooldown p steps).0
  unfolding run process_one
  run-IsSpaced p [] = tt
  run-IsSpaced p ((call, det) ∷ steps) =
      elim (Bool-cases (
        ltb call.now
          (last_of p.last_event (event_key call.camera_name det.class_name) + cooldown))) [
            | inl early ↦ rw early (run-IsSpaced p steps)
            | inr due ↦ rw due (
              All-map (IsDue (accepted p call det)) (Apart cooldown (call.now, event_of call det))
                  (accepted-Apart p call det due) (run cooldown (accepted p call det) steps).0
                  (run-IsDue (accepted p call det) steps),
              run-IsSpaced (accepted p call det) steps,
            )
          ]

  -- A call of `process` is a run of its loop body.
  pub process_lem :
      (p : Processor D) (call : Call) (dets : List (Detection D))
      → (map (λ e. (call.now, e)) (process cooldown p call dets).0
          ≡ (run cooldown p (map (λ det. (call, det)) dets)).0)
        × ((process cooldown p call dets).1 ≡ (run cooldown p (map (λ det. (call, det)) dets)).1)
  unfolding process run
  process_lem p call [] = (refl, refl)
  process_lem p call (det ∷ dets) =
      let (events, p') = process_one cooldown p call det in
      let rest = process_lem p' call dets in
      (
        map-append (λ e. (call.now, e)) events (process cooldown p' call dets).0
            ∙ ap (λ l. map (λ e. (call.now, e)) events ++ l) rest.0,
        rest.1,
      )
