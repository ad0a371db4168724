-- ===== src/Notifier/Queue/Bounds.antt =====
-- The length of the queue, in memory and on disk.
use openring.Prelude.{
  ℕ, ◌+◌, ◌≤◌, ◌≡◌, Bool, true, false, inl, inr, Bool-cases, Option, none, some, List, [], ◌∷◌,
  length, length-append, length-filter-le, filter, is_empty, leb, arith, Dict,
}
use openring.Notifier.Queue.Base.{
  QueueEntry, Notifier, Queue, save, load, make_room, new_entry, enqueue, visit, remove, remove_all,
  to_remove, process_due, visited_entries, max_queue_size, max_age_seconds, index_notifiers,
}

-- At most `max_queue_size` entries, in memory and in the file.
abbrev pub FileFits : {E : Type 0} → Option (List (QueueEntry E)) → Type 0
FileFits none = Unit
FileFits (some es) = length es ≤ max_queue_size

pub record IsBounded {E : Type 0} (q : Queue E) : Type 0 where
  pub in_memory : length q.entries ≤ max_queue_size
  pub on_disk : FileFits q.file

module _ {E : Type 0} where
  length-make_room-lt :
      (es : List (QueueEntry E))
      → length es ≤ max_queue_size
      → length (make_room es) + 1 ≤ max_queue_size
  unfolding make_room
  length-make_room-lt [] h = omega arith
  length-make_room-lt (e ∷ es) h = ground arith

  save-IsBounded :
      (written : Bool) (q : Queue E)
      → length q.entries ≤ max_queue_size
      → FileFits q.file
      → IsBounded (save written q)
  unfolding save
  save-IsBounded true q h k = record { in_memory = h; on_disk = h }
  save-IsBounded false q h k = record { in_memory = h; on_disk = k }

  -- Adding an entry to a bounded queue leaves it bounded, whether or not the file is written.
  pub enqueue-IsBounded :
      (written : Bool) (q : Queue E) (event : E) (notifier : Notifier) (now : ℕ)
      → IsBounded q
      → IsBounded (enqueue written q event notifier now)
  unfolding enqueue
  enqueue-IsBounded written q event notifier now h =
      save-IsBounded written _
        (omega (
          arith,
          length-make_room-lt q.entries h.in_memory,
          length-append (make_room q.entries) (new_entry event notifier now ∷ []),
        ))
        h.on_disk

  -- A restart from a file that fits gives a bounded queue.
  pub load-IsBounded :
      (now : ℕ) (file : Option (List (QueueEntry E))) → FileFits file → IsBounded (load now file)
  unfolding load
  load-IsBounded now none h = record { in_memory = omega arith; on_disk = tt }
  load-IsBounded now (some raw) h = record {
    in_memory =
        omega (arith, length-filter-le (λ e. leb now (e.first_failed + max_age_seconds)) raw);
    on_disk = h;
  }

module _ {E : Type 0} (send : ℕ → Notifier → E → Bool) where
  length-visit :
      (now : ℕ) (targets : Dict Notifier) (i : ℕ) (es : List (QueueEntry E))
      → length (visited_entries (visit send now targets i es)) ≡ length es
  unfolding visit
  length-visit now targets i [] = omega arith
  length-visit now targets i (e ∷ es) =
      ground (arith, length-visit now targets i es, length-visit now targets (i + 1) es)

module _ {E : Type 0} (same : E → E → Bool) where
  length-remove-le :
      (a : QueueEntry E) (es : List (QueueEntry E)) → length (remove same a es) ≤ length es
  unfolding remove
  length-remove-le a [] = omega arith
  length-remove-le a (e ∷ es) = ground (arith, length-remove-le a es)

  length-remove_all-le : (rs es : List (QueueEntry E)) → length (remove_all same rs es) ≤ length es
  unfolding remove_all
  length-remove_all-le [] es = omega arith
  length-remove_all-le (a ∷ rs) es =
      omega (arith, length-remove-le a es, length-remove_all-le rs (remove same a es))

-- A retry pass over a bounded queue leaves it bounded, whatever the sends return.
pub process_due-IsBounded :
    {E : Type 0} (send : ℕ → Notifier → E → Bool) (same : E → E → Bool) (written : Bool)
    (q : Queue E) (notifiers : List Notifier) (now : ℕ)
    → IsBounded q
    → IsBounded (process_due send same written q notifiers now)
unfolding process_due
process_due-IsBounded send same written q notifiers now h =
    elim (Bool-cases (is_empty (filter (λ e. leb e.next_retry now) q.entries))) [
      | inl none_due ↦ rw none_due h
      | inr some_due ↦
          let visited = visit send now (index_notifiers [] notifiers) 0 q.entries in
          rw some_due (
            save-IsBounded written _
              (omega (
                arith,
                length-remove_all-le same (to_remove visited) (visited_entries visited),
                length-visit send now (index_notifiers [] notifiers) 0 q.entries,
                h.in_memory,
              ))
              h.on_disk)
    ]
