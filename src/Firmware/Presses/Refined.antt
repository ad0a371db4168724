-- ===== src/Firmware/Presses/Refined.antt =====
-- The threads, the queue and the file implement the specification.
use openring.Prelude.{
  ℕ, ◌-◌, ◌≤◌, Bool, true, ◌≡◌, ◌⊎◌, refl, sym, subst, ◌∙◌, inl, inr, Option, none, some, List, [],
  ◌∷◌, length, arith, Bool-cases, beq, leb, eq_refl,
}
use openring.Firmware.Presses.Base.{
  Press, same_press, queue_max, append, load, on_press, pop_if_first, discard, Pc, idle, posting,
  update, System, Event, pressed, acknowledged, quiet, Step, press_made, request_sent, gave_up,
  response_came, press_discarded, service_restarted, Run, start, later,
}
use openring.Firmware.Presses.Spec.{
  is_in, is_in-same, answers, made, Waits, none_yet, queued, pushed_out, settled, nothing,
  Waits-length-le, Waits-kept,
}

-- Every write to the file succeeds.
abbrev pub IsWritten : Bool → Type 0
IsWritten written = written ≡ true

-- A thread that holds a final response holds one to a press that the host has answered.
abbrev Knows : List Event → Pc → Type 0
Knows events Pc.idle = Unit
Knows events (Pc.posting p) = Unit
Knows events (Pc.answered p) = is_in p (answers events) ≡ true

-- What relates a state to the specification's list of waiting presses, which is its queue.
record Implements (events : List Event) (s : System) : Type 0 where
  waits : Waits events s.store.queue
  saved : (load s.store.file).queue ≡ s.store.queue
  knows : (i : ℕ) → Knows events (s.pc i)

Knows-later : (events : List Event) (e : Event) (pc : Pc) → Knows events pc → Knows (e ∷ events) pc
unfolding is_in
Knows-later events (pressed p) pc h = h
Knows-later events quiet pc h = h
Knows-later events (acknowledged p) Pc.idle h = tt
Knows-later events (acknowledged p) (Pc.posting x) h = tt
Knows-later events (acknowledged p) (Pc.answered x) h = ground (arith, h)

Knows-update :
    (events : List Event) (f : ℕ → Pc) (i : ℕ) (pc : Pc)
    → ((j : ℕ) → Knows events (f j))
    → Knows events pc
    → (j : ℕ) → Knows events (update f i pc j)
Knows-update events f i pc h new j = elim (Bool-cases (beq i j)) [
  | inl here ↦ rw here new
  | inr there ↦ rw there (h j)
]

Waits-append :
    (events : List Event) (q : List Press) (p : Press)
    → Waits events q
    → Waits (pressed p ∷ events) (append q p)
unfolding append
Waits-append events [] p w = queued p (omega arith) w
Waits-append events (x ∷ q) p w = elim (Bool-cases (leb queue_max (length (x ∷ q)))) [
  | inl full ↦ rw full (pushed_out x p (ground (arith, full, Waits-length-le w)) w)
  | inr room ↦ rw room (queued p (ground (arith, room)) w)
]

Waits-pop :
    (events : List Event) (p : Press) (q : List Press)
    → is_in p (answers events) ≡ true
    → Waits events q
    → Waits (quiet ∷ events) (pop_if_first p q)
unfolding pop_if_first
Waits-pop events p [] known w = nothing w
Waits-pop events p (x ∷ q) known w = elim (Bool-cases (same_press x p)) [
  | inl same ↦ rw same (settled x (is_in-same x p (answers events) same ∙ known) w)
  | inr other ↦ rw other (nothing w)
]

newest : (p : Press) (l : List Press) → is_in p (p ∷ l) ≡ true
unfolding is_in same_press
newest p l = ground (arith, eq_refl p.timestamp, eq_refl p.device_id)

-- A queue that fits comes back whole from its file.
load-queue : (q : List Press) → length q ≤ queue_max → (load (some q)).queue ≡ q
unfolding load
load-queue q fits = let e : length q - queue_max ≡ 0 = omega (arith, fits) in rw e refl

installed_saved : (load none).queue ≡ []
unfolding load
installed_saved = refl

load-load : (file : Option (List Press)) → (load (load file).file).queue ≡ (load file).queue
unfolding load
load-load none = refl
load-load (some presses) = refl

-- A step keeps the relation.
Step-Implements :
    {events : List Event} {s t : System} {e : Event}
    → Step IsWritten s e t
    → Implements events s
    → Implements (e ∷ events) t
unfolding on_press discard
Step-Implements {events} (press_made s p written done) h =
    let new = Waits-append events s.store.queue p h.waits in
    record {
      waits = rw done new;
      saved = rw done (load-queue (append s.store.queue p) (Waits-length-le new));
      knows = λ i. Knows-later events (pressed p) (s.pc i) (h.knows i);
    }
Step-Implements {events} (request_sent s i p q at_top first) h = record {
  waits = nothing h.waits;
  saved = h.saved;
  knows = Knows-update (quiet ∷ events) s.pc i (posting p) h.knows tt;
}
Step-Implements {events} (gave_up s i p posted) h = record {
  waits = nothing h.waits;
  saved = h.saved;
  knows = Knows-update (quiet ∷ events) s.pc i idle h.knows tt;
}
Step-Implements {events} (response_came s i p posted) h = record {
  waits = Waits.answered p h.waits;
  saved = h.saved;
  knows =
      Knows-update (acknowledged p ∷ events) s.pc i (Pc.answered p)
        (λ j. Knows-later events (acknowledged p) (s.pc j) (h.knows j)) (newest p (answers events));
}
Step-Implements {events} (press_discarded s i p written had done) h =
    let known : is_in p (answers events) ≡ true = subst (Knows events) had (h.knows i) in
    let new = Waits-pop events p s.store.queue known h.waits in
    record {
      waits = rw done new;
      saved = rw done (load-queue (pop_if_first p s.store.queue) (Waits-length-le new));
      knows = Knows-update (quiet ∷ events) s.pc i idle h.knows tt;
    }
Step-Implements {events} (service_restarted s) h =
    let same = sym h.saved in
    record {
      waits = nothing (subst (Waits events) same h.waits);
      saved = load-load s.store.file;
      knows = λ i. tt;
    }

Run-Implements : {events : List Event} {s : System} → Run IsWritten events s → Implements events s
Run-Implements start = record { waits = none_yet; saved = installed_saved; knows = λ i. tt }
Run-Implements (later run step) = Step-Implements step (Run-Implements run)

-- Where no write to the file fails, every interleaving of the button, of any number of flush threads
-- and of restarts of the service goes as specified: presses wait in order, one leaves only from the
-- front, once the host has given a final response to it or where 16 wait and a newer one is made.
pub Run-Waits :
    (events : List Event) (s : System) → Run IsWritten events s → Waits events s.store.queue
Run-Waits events s run = (Run-Implements run).waits

-- Where no write to the file fails and at most 16 presses are made, each of them, after any steps of
-- the threads and restarts, still waits or has had a final response of the host.
pub Run-no_press_lost :
    (events : List Event) (s : System) (p : Press)
    → Run IsWritten events s
    → length (made events) ≤ queue_max
    → is_in p (made events) ≡ true
    → (is_in p s.store.queue ≡ true) ⊎ (is_in p (answers events) ≡ true)
Run-no_press_lost events s p run few among = Waits-kept p (Run-Waits events s run) few among
