-- ===== src/Notifier/Dispatch/Base.antt =====
-- Events, face rules applied to them, and the sends of `dispatch`.
use openring.Prelude.Yaml.{Value, Fields, null}
use openring.Prelude.{
  ℕ, ◌+◌, String, Bool, true, false, Option, none, some, List, [], ◌∷◌, filter, any, ◌==◌,
}
use openring.Notifier.FaceRules.{Action, suppress, Priority, normal, high, RuleOutcome, evaluate}
use openring.Notifier.FaceRules
use openring.Notifier.Queue.{Notifier, Queue, enqueue}

-- The key `actions_triggered`: absent, `None`, or a list of channel names.
pub data Actions : Type 0 where
  missing : Actions
  suppressed : Actions
  named : List String → Actions

pub record Event (P : Type 0) : Type 0 where
  pub payload : P
  pub actions_triggered : Actions
  -- `_recognition`, where it is a dict
  pub recognition : Option Fields
  -- `_face_rules`
  pub face_rules : Option Value
  -- `priority` is set to "high"
  pub high_priority : Bool

abbrev pub or_null : Option Value → Value
or_null none = null
or_null (some v) = v

module _ {P : Type 0} (repr : Value → String) where
  -- The event after a rule has matched.
  unfoldable pub apply_outcome : RuleOutcome → Event P → Event P
  apply_outcome o event = elim o.action [
    | suppress ↦ record event {
      actions_triggered = suppressed;
      face_rules = none;
      recognition = none;
    }
    | FaceRules.Action.dispatch ↦ record event {
      actions_triggered = named o.channels;
      high_priority = elim o.priority [ high ↦ true | normal ↦ event.high_priority ];
      face_rules = none;
      recognition = none;
    }
  ]

  unfoldable pub apply_face_rules : Event P → Event P
  unfolding apply_outcome
  apply_face_rules event = elim event.recognition [
    | none ↦ event
    | some recognition ↦ elim (evaluate repr (some recognition) (or_null event.face_rules)) [
      | none ↦ event
      | some o ↦ apply_outcome o event
    ]
  ]

-- getattr(n, "name", None) in actions_triggered
unfoldable pub is_named : List String → Notifier → Bool
is_named names n = elim n.name [ none ↦ false | some s ↦ any (λ a. a == s) names ]

-- The notifiers that the event goes to; `none` where it is suppressed.
unfoldable pub selected : Actions → List Notifier → Option (List Notifier)
unfolding is_named
selected missing current = some current
selected suppressed current = none
selected (named []) current = some current
selected (named (a ∷ names)) current = some (filter (is_named (a ∷ names)) current)

-- A notifier with the event that `send` was called with, where it returned.
abbrev pub Delivered : Type 0 → Type 0
Delivered P = Notifier × Event P

module _ {P : Type 0} (send : ℕ → Notifier → Event P → Bool) (written : ℕ → Bool) where
  -- The loop over the notifiers; `i` counts the sends, and `written i` tells whether the queue that
  -- the i-th failure joins reached the disk. Without a queue an error is only logged.
  unfoldable pub send_all :
      ℕ
      → ℕ
      → Event P
      → List Notifier
      → Option (Queue (Event P))
      → List (Delivered P) × Option (Queue (Event P))
  send_all now i event [] queue = ([], queue)
  send_all now i event (n ∷ ns) queue = elim (send i n event) [
    | true ↦
        let (delivered, queue') = send_all now (i + 1) event ns queue in
        ((n, event) ∷ delivered, queue')
    | false ↦ elim queue [
      | none ↦ send_all now (i + 1) event ns none
      | some q ↦ send_all now (i + 1) event ns (some (enqueue (written i) q event n now))
    ]
  ]

  unfoldable pub dispatch :
      (Value → String)
      → ℕ
      → Event P
      → List Notifier
      → Option (Queue (Event P))
      → List (Delivered P) × Option (Queue (Event P))
  unfolding apply_face_rules selected
  dispatch repr now event notifiers queue =
      let event' = apply_face_rules repr event in
      elim (selected event'.actions_triggered notifiers) [
        | none ↦ ([], queue)
        | some current ↦ send_all now 0 event' current queue
      ]
