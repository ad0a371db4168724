-- ===== src/Detector/FairLock/Base.antt =====
-- The state of a `FairLock`, its critical sections, and the steps of the threads that use it.
use openring.Prelude.{ℕ, Bool, true, false, ◌≡◌, List, [], ◌∷◌, ◌++◌, beq, if◌then◌else◌}

pub record Lock : Type 0 where
  pub held : Bool
  pub queue : List ℕ
  -- The calls whose event is set and which have not returned.
  pub signalled : List ℕ
  -- The calls that have returned, and whose thread has not called `release`.
  pub owners : List ℕ

unfoldable pub fresh_lock : Lock
fresh_lock = record { held = false; queue = []; signalled = []; owners = [] }

unfoldable pub contains : ℕ → List ℕ → Bool
contains call [] = false
contains call (x ∷ l) = if beq x call then true else contains call l

-- deque.remove: the first occurrence.
unfoldable pub remove : ℕ → List ℕ → List ℕ
remove call [] = []
remove call (x ∷ l) = if beq x call then l else x ∷ remove call l

-- The first critical section of `acquire`.
unfoldable pub enter : Lock → ℕ → Lock
enter s call =
    if s.held
    then record s { queue = s.queue ++ call ∷ [] }
    else record s { held = true; signalled = call ∷ s.signalled }

-- `event.wait` returns True.
unfoldable pub return_from_wait : Lock → ℕ → Lock
return_from_wait s call = record s { signalled = remove call s.signalled; owners = call ∷ s.owners }

-- `event.wait` has returned False: the call leaves the queue, or returns since it was signalled.
unfoldable pub time_out : Lock → ℕ → Lock
unfolding return_from_wait
time_out s call =
    if contains call s.queue
    then record s { queue = remove call s.queue }
    else if contains call s.signalled
    then return_from_wait s call
    else s

-- `release` up to its own branch on the queue.
unfoldable pub pass_on : Lock → List ℕ → Lock
pass_on s [] = record s { held = false }
pass_on s (next ∷ queue) = record s { queue = queue; signalled = next ∷ s.signalled }

unfoldable pub release : Lock → ℕ → Lock
unfolding pass_on
release s call = pass_on (record s { owners = remove call s.owners }) s.queue

-- A step from one state to another, with the calls that arrive and those that are handed the lock.
pub data Step : Lock → List ℕ → List ℕ → Lock → Type 0 where
  entered_free :
      (s : Lock) (call : ℕ) → s.held ≡ false → Step s (call ∷ []) (call ∷ []) (enter s call)
  entered_busy : (s : Lock) (call : ℕ) → s.held ≡ true → Step s (call ∷ []) [] (enter s call)
  woken :
      (s : Lock) (call : ℕ)
      → contains call s.signalled ≡ true
      → Step s [] [] (return_from_wait s call)
  timed_out : (s : Lock) (call : ℕ) → Step s [] [] (time_out s call)
  released_last :
      (s : Lock) (call : ℕ)
      → contains call s.owners ≡ true
      → s.queue ≡ []
      → Step s [] [] (release s call)
  released :
      (s : Lock) (call next : ℕ) (queue : List ℕ)
      → contains call s.owners ≡ true
      → s.queue ≡ next ∷ queue
      → Step s [] (next ∷ []) (release s call)

-- The steps of all threads in the order in which they happen.
pub data Run (s : Lock) : List ℕ → List ℕ → Lock → Type 0 where
  start : Run s [] [] s
  later :
      {t u : Lock} {arrived granted arrived' granted' : List ℕ}
      → Run s arrived granted t
      → Step t arrived' granted' u
      → Run s (arrived ++ arrived') (granted ++ granted') u
