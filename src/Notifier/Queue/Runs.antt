-- ===== src/Notifier/Queue/Runs.antt =====
-- The calls that the dispatch and the retry worker make on the queue, with restarts between them.
use openring.Prelude.{ℕ, Bool, List, [], ◌∷◌}
use openring.Notifier.Queue.Base.{Notifier, Queue, load, enqueue, process_due}
use openring.Notifier.Queue.Bounds.{
  IsBounded, enqueue-IsBounded, process_due-IsBounded, load-IsBounded,
}

-- Each write to the file succeeds or not, and each pass has its own answers to its sends. A restart
-- reads the file that the process before it left.
pub data Call (E : Type 0) : Type 0 where
  enqueueing : (written : Bool) (event : E) (notifier : Notifier) (now : ℕ) → Call E
  retrying :
      (written : Bool) (send : ℕ → Notifier → E → Bool) (notifiers : List Notifier) (now : ℕ)
      → Call E
  restarting : (now : ℕ) → Call E

module _ {E : Type 0} (same : E → E → Bool) where
  unfoldable pub call : Queue E → Call E → Queue E
  unfolding enqueue process_due load
  call q (enqueueing written event notifier now) = enqueue written q event notifier now
  call q (retrying written send notifiers now) = process_due send same written q notifiers now
  call q (restarting now) = load now q.file

  unfoldable pub run : Queue E → List (Call E) → Queue E
  unfolding call
  run q [] = q
  run q (c ∷ cs) = run (call q c) cs

  call-IsBounded : (q : Queue E) (c : Call E) → IsBounded q → IsBounded (call q c)
  unfolding call
  call-IsBounded q (enqueueing written event notifier now) h =
      enqueue-IsBounded written q event notifier now h
  call-IsBounded q (retrying written send notifiers now) h =
      process_due-IsBounded send same written q notifiers now h
  call-IsBounded q (restarting now) h = load-IsBounded now q.file h.on_disk

  -- Over any run of additions, retry passes and restarts, whatever the sends return and whichever
  -- writes to the file fail, a queue of at most 500 entries in memory and in the file stays so.
  pub run-IsBounded : (q : Queue E) (cs : List (Call E)) → IsBounded q → IsBounded (run q cs)
  unfolding run
  run-IsBounded q [] h = h
  run-IsBounded q (c ∷ cs) h = run-IsBounded (call q c) cs (call-IsBounded q c h)
