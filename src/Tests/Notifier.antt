-- ===== src/Tests/Notifier.antt =====
-- services/notifier on concrete inputs.
use openring.Prelude.Yaml.{
  Value, text, items, mapping, Items, nil, cons, Fields, end, field, get, truthy, str_of,
}
use openring.Prelude.Text.{lower, strip}
use openring.Prelude.{
  ℕ, ◌+◌, ◌≡◌, ◌⊎◌, refl, Bool, true, false, String, none, some, List, [], ◌∷◌, ◌++◌, map, arith,
  All, lookup, insert, erase, eq_refl, ◌==◌,
}
use openring.Notifier.Queue
use openring.Notifier.Queue.{Queue, QueueEntry, Notifier}
use openring.Notifier.Queue.Bounds.{IsBounded}
use openring.Notifier.Queue.Runs
use openring.Notifier.Queue.Runs.{run-IsBounded}
use openring.Notifier.Queue.Passes.{process_due-Settled, kept, Settled}
use openring.Notifier.FaceRules
use openring.Notifier.FaceRules.{evaluate, status_of, label_of, normalise_rules}
use openring.Notifier.FaceRules.Precedence.{DecidedBy, evaluate-DecidedBy}
use openring.Notifier.Dispatch
use openring.Notifier.Dispatch.{Event}
use openring.Notifier.Dispatch.Delivery.{send_all_delivers, returning, raising}
use openring.Notifier.Dispatch.Privacy.{dispatch_private}
use openring.Notifier.Buffer
use openring.Notifier.Buffer.{Buffer}
use openring.Notifier.Buffer.Timeouts.{NoneDue}
use openring.Notifier.Buffer.Runs.{run-poll-NoneDue, IsReady}
use openring.Notifier.Buffer.Counts.{
  run_count, count_sent, count_pending, count_replaced, count_submitted,
}

abbrev phone : Notifier
phone = record { name = some "phone"; class_name = "NtfyNotifier" }

abbrev mail : Notifier
mail = record { name = none; class_name = "EmailNotifier" }

-- The phone takes what it is sent, and the mail server is down.
abbrev phone_only : {E : Type 0} → ℕ → Notifier → E → Bool
phone_only i n event = n.class_name == "NtfyNotifier"

abbrev waiting : Queue String
waiting = record {
  entries =
      record {
        event = "press";
        notifier_type = "phone";
        attempt = 1;
        next_retry = 60;
        first_failed = 0;
      }
      ∷ record {
        event = "press";
        notifier_type = "EmailNotifier";
        attempt = 1;
        next_retry = 60;
        first_failed = 0;
      }
      ∷ record {
        event = "visit";
        notifier_type = "gone";
        attempt = 0;
        next_retry = 30;
        first_failed = 0;
      }
      ∷ [];
  file = none;
}

waiting-IsBounded : IsBounded waiting
waiting-IsBounded = record { in_memory = omega arith; on_disk = tt }

abbrev a_day : List (Runs.Call String)
a_day =
    Runs.enqueueing true "ring" mail 65
    ∷ Runs.retrying false phone_only (phone ∷ mail ∷ []) 70
    ∷ Runs.restarting 100
    ∷ []

run-IsBounded_example : IsBounded (Runs.run ◌==◌ waiting a_day)
run-IsBounded_example = run-IsBounded ◌==◌ waiting a_day waiting-IsBounded

-- The phone's entry is delivered, the mail's is put off, and the third waits for its channel.
pass_entries :
    map
      (λ e. e.next_retry)
      (Queue.process_due phone_only ◌==◌ true waiting (phone ∷ mail ∷ []) 70).entries
    ≡ 190 ∷ 30 ∷ []
unfolding Queue.process_due Queue.visit Queue.try_entry Queue.index_notifiers Queue.remove_all
    Queue.remove Queue.to_remove Queue.same_entry Queue.save Queue.backoff lookup insert
pass_entries = refl

process_due-Settled_example :
    ((Queue.process_due phone_only ◌==◌ true waiting (phone ∷ mail ∷ []) 70).entries
      ≡ kept (
          Queue.visit phone_only 70
            (Queue.index_notifiers [] (phone ∷ mail ∷ []))
            0
            waiting.entries))
    × All
        (Settled 70 (Queue.index_notifiers [] (phone ∷ mail ∷ [])))
        (Queue.process_due phone_only ◌==◌ true waiting (phone ∷ mail ∷ []) 70).entries
process_due-Settled_example =
    process_due-Settled ◌==◌ eq_refl phone_only true waiting (phone ∷ mail ∷ []) 70

abbrev no_text : Value → String
no_text v = ""

abbrev rule : String → Items → Value
rule label channels = mapping (field "label" (text label) (field "channels" (items channels) end))

-- Sarah is let pass in silence, and any other known face goes to the phone.
abbrev house_rules : Value
house_rules = items (cons (rule "Sarah" nil) (cons (rule "*" (cons (text "phone") nil)) nil))

abbrev recognised : String → String → Fields
recognised status label = field "status" (text status) (field "label" (text label) end)

abbrev phone_outcome : FaceRules.RuleOutcome
phone_outcome = record {
  action = FaceRules.dispatch;
  channels = "phone" ∷ [];
  priority = FaceRules.normal;
  matched_label = "*";
}

mom_to_phone : evaluate no_text (some (recognised "matched" "Mom")) house_rules ≡ some phone_outcome
unfolding evaluate FaceRules.first_match FaceRules.rule_outcome get lower strip truthy str_of
    FaceRules.str_or_empty
mom_to_phone = refl

evaluate-DecidedBy_example :
    ((status_of no_text (recognised "matched" "Mom") ≡ "matched")
      ⊎ (status_of no_text (recognised "matched" "Mom") ≡ "unknown"))
    × DecidedBy no_text
        (status_of no_text (recognised "matched" "Mom"))
        (label_of no_text (recognised "matched" "Mom"))
        (normalise_rules house_rules)
        phone_outcome
evaluate-DecidedBy_example =
    evaluate-DecidedBy no_text (recognised "matched" "Mom") house_rules mom_to_phone

stranger_falls_through : evaluate no_text (some (recognised "unknown" "")) house_rules ≡ none
unfolding evaluate FaceRules.first_match FaceRules.rule_outcome get lower strip truthy str_of
    FaceRules.str_or_empty
stranger_falls_through = refl

stranger_status : status_of no_text (recognised "unknown" "") ≡ "unknown"
unfolding FaceRules.str_or get lower str_of
stranger_status = refl

abbrev arrival : Fields → Event String
arrival r = record {
  payload = "person at the door";
  actions_triggered = Dispatch.named [];
  recognition = some r;
  face_rules = some house_rules;
  high_priority = false;
}

dispatch_private_example :
    All
      (λ d. (d.1.recognition ≡ none) × (d.1.face_rules ≡ none))
      (Dispatch.dispatch phone_only
        (λ i. true)
        no_text
        0
        (arrival (recognised "matched" "Mom"))
        (phone ∷ mail ∷ [])
        none).0
dispatch_private_example =
    dispatch_private no_text (arrival (recognised "matched" "Mom")) refl phone_only (λ i. true) 0
      (phone ∷ mail ∷ []) none mom_to_phone

-- The stranger's event does reach the phone.
stranger_delivered :
    map
      (λ d. d.0.class_name)
      (Dispatch.dispatch phone_only
        (λ i. true)
        no_text
        0
        (arrival (recognised "unknown" ""))
        (phone ∷ mail ∷ [])
        none).0
    ≡ "NtfyNotifier" ∷ []
unfolding Dispatch.dispatch Dispatch.send_all evaluate FaceRules.first_match FaceRules.rule_outcome
    get lower strip truthy str_of FaceRules.str_or_empty
stranger_delivered = refl

abbrev empty_queue : Queue (Event String)
empty_queue = record { entries = []; file = none }

send_all_delivers_example :
    (q' : Queue (Event String)) × (Dispatch.send_all phone_only
        (λ i. true)
        5
        0
        (arrival end)
        (phone ∷ mail ∷ [])
        (some empty_queue)
      ≡ (
        map (λ n. (n, arrival end)) (returning phone_only 0 (arrival end) (phone ∷ mail ∷ [])),
        some q',
      ))
    × (q'.entries
        ≡ empty_queue.entries
          ++ map
              (λ n. Queue.new_entry (arrival end) n 5)
              (raising phone_only 0 (arrival end) (phone ∷ mail ∷ [])))
send_all_delivers_example =
    send_all_delivers phone_only (λ i. true) 5 0 (arrival end) (phone ∷ mail ∷ []) empty_queue
      (omega arith)

abbrev buffer : Buffer String
buffer = record { coalesce = 2; pending = []; heap = []; next_ident = 0 }

buffer-IsReady : IsReady buffer
unfolding lookup
buffer-IsReady = record { sorted = tt; in_heap = λ k p e. cc }

-- The first detection is recognised in time, and the second is not.
abbrev two_visitors : List (Buffer.Call String String)
two_visitors =
    Buffer.detection "a" "first" 10
    ∷ Buffer.detection "b" "second" 11
    ∷ Buffer.recognition "a" "Mom"
    ∷ Buffer.polling 12
    ∷ Buffer.polling 13
    ∷ Buffer.recognition "b" "late"
    ∷ []

two_visitors_sent :
    (Buffer.run buffer two_visitors).0 ≡ Buffer.annotated "first" "Mom" ∷ Buffer.bare "second" ∷ []
unfolding Buffer.run Buffer.call Buffer.submit_detection Buffer.submit_recognition Buffer.poll
    lookup insert erase
two_visitors_sent = refl

run-poll-NoneDue_example :
    NoneDue 13 (Buffer.poll {R = String} (Buffer.run buffer two_visitors).1 13).1.pending
run-poll-NoneDue_example = run-poll-NoneDue buffer two_visitors 13 buffer-IsReady

-- The first event is replaced by the second of its token, and the last is flushed.
abbrev republished : List (Buffer.Call String String)
republished =
    Buffer.detection "a" "first" 10
    ∷ Buffer.detection "a" "again" 11
    ∷ Buffer.polling 12
    ∷ Buffer.polling 13
    ∷ Buffer.detection "b" "last" 14
    ∷ Buffer.stopping
    ∷ []

republished_sent : (Buffer.run buffer republished).0 ≡ Buffer.bare "again" ∷ Buffer.bare "last" ∷ []
unfolding Buffer.run Buffer.call Buffer.submit_detection Buffer.poll Buffer.flush_all lookup insert
    erase
republished_sent = refl

abbrev is_first : String → Bool
is_first e = e == "first"

replaced_first : count_replaced is_first buffer republished ≡ 1
unfolding count_replaced Buffer.call Buffer.submit_detection Buffer.poll Buffer.flush_all lookup
    insert erase
replaced_first = refl

run_count_example :
    count_sent is_first (Buffer.run buffer republished).0
      + count_pending is_first (Buffer.run buffer republished).1.pending
      + count_replaced is_first buffer republished
    ≡ count_pending is_first buffer.pending + count_submitted is_first republished
run_count_example =
    run_count is_first buffer republished
      record { queued = buffer-IsReady; keyed = tt; distinct = tt; below = tt }
