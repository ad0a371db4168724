-- ===== src/Tests/Firmware.antt =====
-- services/doorbell-firmware on concrete inputs.
use openring.Prelude.{
  ℕ, ◌+◌, ◌≤◌, ◌≡◌, ◌⊎◌, refl, true, Option, none, some, List, [], ◌∷◌, length, lookup, arith, beq,
  ltb, if◌then◌else◌,
}
use openring.Firmware.Post
use openring.Firmware.Post.{Answer, failed, responded}
use openring.Firmware.Presses
use openring.Firmware.Presses.{
  Press, Store, System, Event, Run, Pc, press_made, request_sent, response_came, press_discarded,
  service_restarted, start, later, pressed, acknowledged, quiet,
}
use openring.Firmware.Presses.Spec.{Waits, is_in, answers}
use openring.Firmware.Presses.Refined.{IsWritten, Run-Waits, Run-no_press_lost}
use openring.Firmware.Presses.Flush.{unsettled, flush_ends}

-- The network is down once, the host fails once, and then it takes the press.
abbrev flaky : ℕ → Answer
flaky attempt =
    if beq attempt 1 then failed else if beq attempt 2 then responded 503 else responded 201

third_attempt :
    Post.post_to_host
      (λ base. base)
      (("HOST_BASE_URL", "http://host") ∷ ("DEVICE_TOKEN", "t") ∷ [])
      4
      flaky
    ≡ record { response = some 201; requests = 3; sleeps = 1 ∷ 2 ∷ [] }
unfolding Post.post_to_host Post.final_status lookup
third_attempt = refl

abbrev at_noon : Press
at_noon = record { timestamp = "12:00"; device_id = "front-door" }

abbrev at_one : Press
at_one = record { timestamp = "13:00"; device_id = "front-door" }

-- The state after two presses, a restart, and the delivery of the first by thread 3.
abbrev delivered : System
delivered = record {
  store = record { queue = at_one ∷ []; file = some (at_one ∷ []) };
  pc =
      Presses.update
        (Presses.update (Presses.update (λ i. Pc.idle) 3 (Pc.posting at_noon)) 3
          (Pc.answered at_noon))
        3 Pc.idle;
}

abbrev delivery : List Event
delivery = quiet ∷ acknowledged at_noon ∷ quiet ∷ quiet ∷ pressed at_one ∷ pressed at_noon ∷ []

delivery-Run : Run IsWritten delivery delivered
unfolding Presses.on_press Presses.discard Presses.load
delivery-Run =
    later
      (later
        (later
          (later
            (later (later start (press_made _ at_noon true refl)) (press_made _ at_one true refl))
            (service_restarted _))
          (request_sent _ 3 at_noon (at_one ∷ []) refl refl))
        (response_came _ 3 at_noon refl))
      (press_discarded _ 3 at_noon true refl refl)

Run-Waits_example : Waits delivery (at_one ∷ [])
Run-Waits_example = Run-Waits delivery delivered delivery-Run

Run-no_press_lost_example :
    (is_in at_noon (at_one ∷ []) ≡ true) ⊎ (is_in at_noon (answers delivery) ≡ true)
unfolding is_in Presses.same_press
Run-no_press_lost_example =
    Run-no_press_lost delivery delivered at_noon delivery-Run (omega arith) refl

abbrev three_waiting : Store
three_waiting = record { queue = at_noon ∷ at_one ∷ at_noon ∷ []; file = none }

-- The host takes two requests, and is gone at the third.
abbrev takes_two : ℕ → Press → Option ℕ
takes_two n p = if ltb n 2 then some 200 else none

flush_ends_example :
    (s' : Store) × (n' : ℕ) × (Presses.flush takes_two true 4 three_waiting 0 ≡ some (s', n'))
    × (s'.queue ≡ unsettled takes_two 0 three_waiting.queue)
    × (n' ≤ 0 + length three_waiting.queue)
flush_ends_example = flush_ends takes_two true 4 three_waiting 0 (omega arith)

one_left : unsettled takes_two 0 three_waiting.queue ≡ at_noon ∷ []
unfolding Presses.is_settled
one_left = refl
