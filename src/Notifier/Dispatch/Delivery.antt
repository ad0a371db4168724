-- ===== src/Notifier/Dispatch/Delivery.antt =====
-- No event is lost on the way to a notifier.
use openring.Prelude.{
  ℕ, ◌+◌, ◌≤◌, Bool, true, false, ◌≡◌, refl, sym, ap, ◌∙◌, some, List, [], ◌∷◌, ◌++◌, map, arith,
  length, length-append, Bool-cases, inl, inr,
}
use mathlib.Core.List.{append_assoc, append-nil}
use openring.Notifier.Queue.{
  Notifier, Queue, QueueEntry, enqueue, new_entry, make_room, save, max_queue_size,
}
use openring.Notifier.Dispatch.Base.{Event, send_all}
use openring.Notifier.Dispatch.Steps.{send_all-returned, send_all-raised}

-- The notifiers whose send returns, and those whose send raises.
abbrev pub returning :
    {P : Type 0} (send : ℕ → Notifier → Event P → Bool)
    → ℕ
    → Event P
    → List Notifier
    → List Notifier
returning send i event [] = []
returning send i event (n ∷ ns) = elim (send i n event) [
  | true ↦ n ∷ returning send (i + 1) event ns
  | false ↦ returning send (i + 1) event ns
]

abbrev pub raising :
    {P : Type 0} (send : ℕ → Notifier → Event P → Bool)
    → ℕ
    → Event P
    → List Notifier
    → List Notifier
raising send i event [] = []
raising send i event (n ∷ ns) = elim (send i n event) [
  | true ↦ raising send (i + 1) event ns
  | false ↦ n ∷ raising send (i + 1) event ns
]

make_room_lt :
    {P : Type 0} (es : List (QueueEntry (Event P)))
    → length es + 1 ≤ max_queue_size
    → make_room es ≡ es
unfolding make_room
make_room_lt [] h = refl
make_room_lt (e ∷ es) h = ground arith

-- A queue with room takes the new entry at its end and drops nothing.
enqueue_room :
    {P : Type 0} (w : Bool) (q : Queue (Event P)) (event : Event P) (n : Notifier) (now : ℕ)
    → length q.entries + 1 ≤ max_queue_size
    → (enqueue w q event n now).entries ≡ q.entries ++ new_entry event n now ∷ []
unfolding enqueue save
enqueue_room true q event n now h = rw (make_room_lt q.entries h)
enqueue_room false q event n now h = rw (make_room_lt q.entries h)

module _ {P : Type 0} (send : ℕ → Notifier → Event P → Bool) (written : ℕ → Bool) where
  -- Where the queue has room for every notifier, each notifier whose send returns has the event,
  -- and for each whose send raises an entry stands at the end of the queue, in order; all that was
  -- queued before is still queued.
  pub send_all_delivers :
      (now i : ℕ) (event : Event P) (ns : List Notifier) (q : Queue (Event P))
      → length q.entries + length ns ≤ max_queue_size
      → (q' : Queue (Event P)) × (send_all send written now i event ns (some q)
          ≡ (map (λ n. (n, event)) (returning send i event ns), some q'))
        × (q'.entries ≡ q.entries ++ map (λ n. new_entry event n now) (raising send i event ns))
  unfolding send_all
  send_all_delivers now i event [] q room = (q, refl, sym (append-nil q.entries))
  send_all_delivers now i event (n ∷ ns) q room = elim (Bool-cases (send i n event)) [
    | inl ok ↦
        let (q', sent, queued) = send_all_delivers now (i + 1) event ns q (omega arith) in
        (
          q',
          send_all-returned send written now i event n ns (some q) ok ∙ ground (arith, sent),
          ground (arith, queued),
        )
    | inr raised ↦
        let q₁ = enqueue (written i) q event n now in
        let added = enqueue_room (written i) q event n now (omega arith) in
        let (q', sent, queued) =
          send_all_delivers now (i + 1) event ns q₁ (
            omega (arith, ap length added, length-append q.entries (new_entry event n now ∷ []))) in
        (
          q',
          send_all-raised send written now i event n ns q raised ∙ ground (arith, sent),
          ground (
            arith,
            queued,
            added,
            append_assoc q.entries (new_entry event n now ∷ [])
                (map (λ m. new_entry event m now) (raising send (i + 1) event ns)),
          ),
        )
  ]
