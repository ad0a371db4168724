-- ===== src/Notifier/Dispatch/Privacy.antt =====
-- Who sees a recognition.
use openring.Prelude.Yaml.{Value, Fields}
use openring.Prelude.{
  ℕ, ◌+◌, String, Bool, ◌≡◌, refl, ap, subst, ◌∙◌, sym, Bool-cases, Option, none, some, List, [],
  ◌∷◌, arith, All, All-map, Option-cases, inl, inr,
}
use openring.Notifier.FaceRules.{RuleOutcome, evaluate}
use openring.Notifier.Queue.{Notifier, Queue, enqueue}
use openring.Notifier.Dispatch.Base.{Event, apply_face_rules, selected, send_all, dispatch, or_null}
use openring.Notifier.Dispatch.Steps.{send_all-returned, send_all-raised_no_queue, send_all-raised}

module _ {P : Type 0} (send : ℕ → Notifier → Event P → Bool) (written : ℕ → Bool) where
  -- Every notifier is sent the same event.
  send_all-All :
      (now i : ℕ) (event : Event P) (ns : List Notifier) (queue : Option (Queue (Event P)))
      → All (λ d. d.1 ≡ event) (send_all send written now i event ns queue).0
  unfolding send_all
  send_all-All now i event [] queue = tt
  send_all-All now i event (n ∷ ns) queue = elim (Bool-cases (send i n event)) [
    | inl ok ↦
        rw (send_all-returned send written now i event n ns queue ok)
          (refl, send_all-All now (i + 1) event ns queue)
    | inr raised ↦ elim (Option-cases queue) [
      | inl e ↦
          rw (e, send_all-raised_no_queue send written now i event n ns raised)
            (send_all-All now (i + 1) event ns none)
      | inr (q, e) ↦
          rw (e, send_all-raised send written now i event n ns q raised)
            (send_all-All now (i + 1) event ns (some (enqueue (written i) q event n now)))
    ]
  ]

  dispatch-All :
      (repr : Value → String) (now : ℕ) (event : Event P) (notifiers : List Notifier)
      (queue : Option (Queue (Event P)))
      → All
          (λ d. d.1 ≡ apply_face_rules repr event)
          (dispatch send written repr now event notifiers queue).0
  unfolding dispatch
  dispatch-All repr now event notifiers queue =
      go (selected (apply_face_rules repr event).actions_triggered notifiers) refl
    where
      go :
          (o : Option (List Notifier))
          → selected (apply_face_rules repr event).actions_triggered notifiers ≡ o
          → All
              (λ d. d.1 ≡ apply_face_rules repr event)
              (dispatch send written repr now event notifiers queue).0
      go none e = rw (e, dispatch) tt
      go (some current) e =
          rw (e, dispatch) (send_all-All now 0 (apply_face_rules repr event) current queue)

module _ {P : Type 0} (repr : Value → String) (event : Event P) {recognition : Fields}
    (recognised : event.recognition ≡ some recognition) where
  apply_stripped :
      {o : RuleOutcome}
      → evaluate repr (some recognition) (or_null event.face_rules) ≡ some o
      → ((apply_face_rules repr event).recognition ≡ none)
        × ((apply_face_rules repr event).face_rules ≡ none)
  unfolding apply_face_rules
  apply_stripped h = ground arith

  apply_unchanged :
      evaluate repr (some recognition) (or_null event.face_rules) ≡ none
      → apply_face_rules repr event ≡ event
  unfolding apply_face_rules
  apply_unchanged h = ground arith

  module _ (send : ℕ → Notifier → Event P → Bool) (written : ℕ → Bool) (now : ℕ)
      (notifiers : List Notifier) (queue : Option (Queue (Event P))) where
    -- Where a face rule decides about a recognised event, what the notifiers are sent holds neither
    -- the recognition nor the rules.
    pub dispatch_private :
        {o : RuleOutcome}
        → evaluate repr (some recognition) (or_null event.face_rules) ≡ some o
        → All
            (λ d. (d.1.recognition ≡ none) × (d.1.face_rules ≡ none))
            (dispatch send written repr now event notifiers queue).0
    dispatch_private h =
        All-map (λ d. d.1 ≡ apply_face_rules repr event)
          (λ d. (d.1.recognition ≡ none) × (d.1.face_rules ≡ none))
          (λ d e.
            subst (λ (x : Event P). (x.recognition ≡ none) × (x.face_rules ≡ none)) (sym e)
              (apply_stripped h))
          (dispatch send written repr now event notifiers queue).0
          (dispatch-All send written repr now event notifiers queue)

    -- Where no face rule decides about a recognised event, every event that a notifier is sent still
    -- holds the recognition.
    pub dispatch_falls_through :
        evaluate repr (some recognition) (or_null event.face_rules) ≡ none
        → All
            (λ d. d.1.recognition ≡ some recognition)
            (dispatch send written repr now event notifiers queue).0
    dispatch_falls_through h =
        All-map (λ d. d.1 ≡ apply_face_rules repr event) (λ d. d.1.recognition ≡ some recognition)
          (λ d e. ap (λ (x : Event P). x.recognition) (e ∙ apply_unchanged h) ∙ recognised)
          (dispatch send written repr now event notifiers queue).0
          (dispatch-All send written repr now event notifiers queue)
