-- ===== src/Detector/FairLock/Fifo.antt =====
-- The lock is handed on in the order of arrival.
use openring.Prelude.{ℕ, ◌≡◌, sym, subst, inl, inr, Bool-cases, List, [], ◌∷◌, ◌++◌, beq, arith}
use openring.Prelude.Flow.{flow-Sublist}
use mathlib.Core.List.{Sublist, append-nil}
use mathlib.Core.List.Sublist
use openring.Detector.FairLock.Base.{
  Lock, contains, remove, enter, return_from_wait, time_out, pass_on, release, Step, entered_free,
  entered_busy, woken, timed_out, released_last, released, Run, start, later,
}
use openring.Detector.FairLock.Exclusion.{IsFair, Run-IsFair}

remove-Sublist : (call : ℕ) (l : List ℕ) → Sublist (remove call l) l
unfolding remove
remove-Sublist call [] = Sublist.refl []
remove-Sublist call (x ∷ l) = elim (Bool-cases (beq x call)) [
  | inl same ↦ rw same (Sublist.cons x (Sublist.refl l))
  | inr other ↦ rw other (Sublist.cons-cons x (remove-Sublist call l))
]

Sublist-of_eq : {l m : List ℕ} → l ≡ m → Sublist l m
Sublist-of_eq {l} e = subst (Sublist l) e (Sublist.refl l)

time_out-queue : (s : Lock) (call : ℕ) → Sublist (time_out s call).queue s.queue
unfolding time_out
time_out-queue s call = elim (Bool-cases (contains call s.queue)) [
  | inl waits ↦ rw waits (remove-Sublist call s.queue)
  | inr left ↦ rw left (elim (Bool-cases (contains call s.signalled)) [
    | inl here ↦ rw here (Sublist.refl s.queue)
    | inr unknown ↦ rw unknown (Sublist.refl s.queue)
  ])
]

-- What a step hands on and what still waits are, in order, what waited before and what arrives.
Step_in_order :
    {s t : Lock} {arrived granted : List ℕ}
    → IsFair s
    → Step s arrived granted t
    → Sublist (granted ++ t.queue) (s.queue ++ arrived)
unfolding enter return_from_wait release pass_on
Step_in_order h (entered_free s call free) = Sublist-of_eq (ground (arith, h.none_waits free))
Step_in_order h (entered_busy s call busy) = Sublist-of_eq (ground arith)
Step_in_order h (woken s call here) = Sublist-of_eq (sym (append-nil s.queue))
Step_in_order h (timed_out s call) =
    subst (Sublist (time_out s call).queue) (sym (append-nil s.queue)) (time_out-queue s call)
Step_in_order h (released_last s call here empty) =
    Sublist-of_eq (ground (arith, append-nil s.queue))
Step_in_order h (released s call next queue here waits) =
    Sublist-of_eq (ground (arith, append-nil s.queue))

-- From a lock that is sound, the calls that are handed the lock, and after them the calls that
-- still wait, are in the order in which they arrived, none twice: no call overtakes another.
pub Run_in_order :
    {s t : Lock} {arrived granted : List ℕ}
    → IsFair s
    → Run s arrived granted t
    → Sublist (granted ++ t.queue) (s.queue ++ arrived)
Run_in_order {s} h start = Sublist-of_eq (sym (append-nil s.queue))
Run_in_order {s} h (later {t} {u} {arrived} {granted} {arrived'} {granted'} r step) =
    flow-Sublist s.queue t.queue u.queue arrived arrived' granted granted' (Run_in_order h r)
      (Step_in_order (Run-IsFair r h) step)
