-- ===== src/Notifier/Dispatch/Steps.antt =====
-- One step of the loop over the notifiers, as equations.
use openring.Prelude.{ℕ, ◌+◌, Bool, true, false, ◌≡◌, Option, none, some, List, ◌∷◌, arith}
use openring.Notifier.Queue.{Notifier, Queue, enqueue}
use openring.Notifier.Dispatch.Base.{Event, send_all}

module _ {P : Type 0} (send : ℕ → Notifier → Event P → Bool) (written : ℕ → Bool) (now i : ℕ)
    (event : Event P) (n : Notifier) (ns : List Notifier) where
  pub send_all-returned :
      (queue : Option (Queue (Event P)))
      → send i n event ≡ true
      → send_all send written now i event (n ∷ ns) queue ≡ (
        (n, event) ∷ (send_all send written now (i + 1) event ns queue).0,
        (send_all send written now (i + 1) event ns queue).1,
      )
  unfolding send_all
  send_all-returned queue h = ground arith

  pub send_all-raised_no_queue :
      send i n event ≡ false
      → send_all send written now i event (n ∷ ns) none
        ≡ send_all send written now (i + 1) event ns none
  unfolding send_all
  send_all-raised_no_queue h = ground arith

  pub send_all-raised :
      (q : Queue (Event P))
      → send i n event ≡ false
      → send_all send written now i event (n ∷ ns) (some q)
        ≡ send_all send written now (i + 1) event ns (some (enqueue (written i) q event n now))
  unfolding send_all
  send_all-raised q h = ground arith
