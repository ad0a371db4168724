-- ===== src/Firmware/Presses/Base.antt =====
-- The queue, its file, the critical sections, and the steps of the threads.
use openring.Firmware.Post.{is_ok, is_client_error}
use openring.Prelude.{
  ℕ, zero, suc, ◌+◌, ◌-◌, String, Bool, true, false, ◌&&◌, ◌||◌, ◌≡◌, Option, none, some, List, [],
  ◌∷◌, ◌++◌, length, drop, leb, beq, if◌then◌else◌, ◌==◌,
}

-- The dict that `on_press` queues.
pub record Press : Type 0 where
  pub timestamp : String
  pub device_id : String

-- `==` on such dicts.
unfoldable pub same_press : Press → Press → Bool
same_press a b = a.timestamp == b.timestamp && a.device_id == b.device_id

abbrev pub queue_max : ℕ
queue_max = 16

-- The deque, and the presses in the file; `none` where there is none that can be parsed.
pub record Store : Type 0 where
  pub queue : List Press
  pub file : Option (List Press)

-- deque(maxlen=16).append: the oldest is dropped where the deque is full.
unfoldable pub append : List Press → Press → List Press
append [] p = p ∷ []
append (x ∷ q) p = if leb queue_max (length (x ∷ q)) then q ++ p ∷ [] else (x ∷ q) ++ p ∷ []

-- `_save_queue`; `written` is false where the write raised.
unfoldable pub save : Bool → Store → Store
save written s = if written then record s { file = some s.queue } else s

-- `_load_queue`: items[-16:]
unfoldable pub load : Option (List Press) → Store
load none = record { queue = []; file = none }
load (some presses) = record {
  queue = drop (length presses - queue_max) presses;
  file = some presses;
}

-- The critical section of `on_press`.
unfoldable pub on_press : Bool → Press → Store → Store
unfolding append save
on_press written p s = save written (record s { queue = append s.queue p })

-- if queue and queue[0] == press: queue.popleft()
unfoldable pub pop_if_first : Press → List Press → List Press
unfolding same_press
pop_if_first p [] = []
pop_if_first p (x ∷ q) = if same_press x p then q else x ∷ q

-- The critical section of `_flush` after a final response.
unfoldable pub discard : Bool → Press → Store → Store
unfolding pop_if_first save
discard written p s = save written (record s { queue = pop_if_first p s.queue })

-- Where a flush thread is: at the top of its loop or not running, in the request for a press, or
-- with the host's final response to it.
pub data Pc : Type 0 where
  idle : Pc
  posting answered : Press → Pc

abbrev pub update : (ℕ → Pc) → ℕ → Pc → ℕ → Pc
update f i pc j = if beq i j then pc else f j

pub record System : Type 0 where
  pub store : Store
  pub pc : ℕ → Pc

-- What a step shows: a press that is made, and a final response of the host to one.
pub data Event : Type 0 where
  pressed acknowledged : Press → Event
  quiet : Event

-- `Written` says which results a write to the file may have.
pub data Step (Written : Bool → Type 0) : System → Event → System → Type 0 where
  press_made :
      (s : System) (p : Press) (written : Bool)
      → Written written
      → Step Written s (pressed p) (record s { store = on_press written p s.store })
  request_sent :
      (s : System) (i : ℕ) (p : Press) (q : List Press)
      → s.pc i ≡ idle
      → s.store.queue ≡ p ∷ q
      → Step Written s quiet (record s { pc = update s.pc i (posting p) })
  -- resp is None, or a response that is not final: the thread returns.
  gave_up :
      (s : System) (i : ℕ) (p : Press)
      → s.pc i ≡ posting p
      → Step Written s quiet (record s { pc = update s.pc i idle })
  response_came :
      (s : System) (i : ℕ) (p : Press)
      → s.pc i ≡ posting p
      → Step Written s (acknowledged p) (record s { pc = update s.pc i (answered p) })
  press_discarded :
      (s : System) (i : ℕ) (p : Press) (written : Bool)
      → s.pc i ≡ answered p
      → Written written
      → Step Written s quiet (record { store = discard written p s.store; pc = update s.pc i idle })
  -- The service starts again from the file.
  service_restarted :
      (s : System) → Step Written s quiet (record { store = load s.store.file; pc = λ i. idle })

-- The first start of the service, before there is a file.
abbrev pub installed : System
installed = record { store = record { queue = []; file = none }; pc = λ i. idle }

-- The steps of a run, its events with the last one first.
pub data Run (Written : Bool → Type 0) : List Event → System → Type 0 where
  start : Run Written [] installed
  later :
      {s t : System} {events : List Event} {e : Event}
      → Run Written events s
      → Step Written s e t
      → Run Written (e ∷ events) t

-- resp.ok or 400 <= resp.status_code < 500, where there is a response.
unfoldable pub is_settled : Option ℕ → Bool
is_settled none = false
is_settled (some status) = is_ok status || is_client_error status

-- `_flush` where no other thread runs, from its n-th request on: `post` is what `post_to_host` returns
-- for it. Beside the store it gives the requests made, and `none` where the fuel is short.
unfoldable pub flush_queue :
    (Store → ℕ → Option (Store × ℕ))
    → (ℕ → Press → Option ℕ)
    → Bool
    → ℕ
    → Store
    → List Press
    → Option (Store × ℕ)
unfolding is_settled discard
flush_queue again post written n s [] = some (s, n)
flush_queue again post written n s (p ∷ q) = elim (is_settled (post n p)) [
  | true ↦ again (discard written p s) (n + 1)
  | false ↦ some (s, n + 1)
]

unfoldable pub flush : (ℕ → Press → Option ℕ) → Bool → ℕ → Store → ℕ → Option (Store × ℕ)
unfolding flush_queue
flush post written zero s n = none
flush post written (suc fuel) s n = flush_queue (flush post written fuel) post written n s s.queue
