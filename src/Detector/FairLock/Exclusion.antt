-- ===== src/Detector/FairLock/Exclusion.antt =====
-- At most one thread holds the lock, and it is never lost while calls wait.
use openring.Prelude.{
  ℕ, ◌+◌, ◌≤◌, ◌≡◌, ◌⊎◌, refl, ap, ◌∙◌, true, false, inl, inr, Bool-cases, List, [], ◌∷◌, length,
  if◌then◌else◌, arith,
}
use openring.Detector.FairLock.Base.{
  Lock, fresh_lock, contains, remove, enter, return_from_wait, time_out, pass_on, release, Step,
  entered_free, entered_busy, woken, timed_out, released_last, released, Run, start, later,
}

-- The calls that hold the lock or have been handed it.
abbrev pub holders : Lock → ℕ
holders s = length s.signalled + length s.owners

-- The lock is held by just one call, or it is free and none waits.
pub record IsFair (s : Lock) : Type 0 where
  pub one_holder : holders s ≡ (if s.held then 1 else 0)
  pub none_waits : s.held ≡ false → s.queue ≡ []

length-remove :
    (call : ℕ) (l : List ℕ) → contains call l ≡ true → length (remove call l) + 1 ≡ length l
unfolding contains remove
length-remove call [] h = cc
length-remove call (x ∷ l) h = ground (arith, length-remove call l)

remove-nil : (call : ℕ) → remove call [] ≡ []
unfolding remove
remove-nil call = refl

enter-IsFair : (s : Lock) (call : ℕ) → IsFair s → IsFair (enter s call)
unfolding enter
enter-IsFair s call h = ground arith

return_from_wait-IsFair :
    (s : Lock) (call : ℕ)
    → contains call s.signalled ≡ true
    → IsFair s
    → IsFair (return_from_wait s call)
unfolding return_from_wait
return_from_wait-IsFair s call here h = ground (arith, length-remove call s.signalled)

time_out-IsFair : (s : Lock) (call : ℕ) → IsFair s → IsFair (time_out s call)
unfolding time_out
time_out-IsFair s call h = elim (Bool-cases (contains call s.queue)) [
  | inl waits ↦ rw waits (record {
    one_holder = h.one_holder;
    none_waits = λ free. ap (remove call) (h.none_waits free) ∙ remove-nil call;
  })
  | inr left ↦ rw left (elim (Bool-cases (contains call s.signalled)) [
    | inl here ↦ rw here (return_from_wait-IsFair s call here h)
    | inr unknown ↦ rw unknown h
  ])
]

pass_on-IsFair :
    (s : Lock) (queue : List ℕ)
    → s.queue ≡ queue
    → s.held ≡ true
    → holders s ≡ 0
    → IsFair (pass_on s queue)
unfolding pass_on
pass_on-IsFair s [] e held alone = record { one_holder = alone; none_waits = λ free. e }
pass_on-IsFair s (next ∷ queue) e held alone = record {
  one_holder = ground arith;
  none_waits = λ free. cc;
}

held_of_owner : (s : Lock) (call : ℕ) → contains call s.owners ≡ true → IsFair s → s.held ≡ true
held_of_owner s call here h = ground (arith, length-remove call s.owners)

release-IsFair :
    (s : Lock) (call : ℕ) → contains call s.owners ≡ true → IsFair s → IsFair (release s call)
unfolding release
release-IsFair s call here h =
    pass_on-IsFair (record s { owners = remove call s.owners }) s.queue refl
      (held_of_owner s call here h)
      (ground (arith, length-remove call s.owners, held_of_owner s call here h))

Step-IsFair :
    {s t : Lock} {arrived granted : List ℕ} → Step s arrived granted t → IsFair s → IsFair t
Step-IsFair (entered_free s call free) h = enter-IsFair s call h
Step-IsFair (entered_busy s call busy) h = enter-IsFair s call h
Step-IsFair (woken s call here) h = return_from_wait-IsFair s call here h
Step-IsFair (timed_out s call) h = time_out-IsFair s call h
Step-IsFair (released_last s call here empty) h = release-IsFair s call here h
Step-IsFair (released s call next queue here waits) h = release-IsFair s call here h

pub Run-IsFair :
    {s t : Lock} {arrived granted : List ℕ} → Run s arrived granted t → IsFair s → IsFair t
Run-IsFair start h = h
Run-IsFair (later r step) h = Step-IsFair step (Run-IsFair r h)

fresh_lock-IsFair : IsFair fresh_lock
unfolding fresh_lock
fresh_lock-IsFair = record { one_holder = refl; none_waits = λ free. refl }

-- In every state that a new lock reaches, whatever the threads do and whenever calls time out, at
-- most one thread holds it; and no call waits, or just one holds it or has been handed it.
pub Run-exclusive :
    {t : Lock} {arrived granted : List ℕ}
    → Run fresh_lock arrived granted t
    → (length t.owners ≤ 1) × ((t.queue ≡ []) ⊎ (length t.signalled + length t.owners ≡ 1))
Run-exclusive {t} r =
    let fair = Run-IsFair r fresh_lock-IsFair in
    (
      ground (arith, fair.one_holder),
      elim (Bool-cases t.held) [
        | inl held ↦ inr (ground (arith, fair.one_holder))
        | inr free ↦ inl (fair.none_waits free)
      ],
    )
