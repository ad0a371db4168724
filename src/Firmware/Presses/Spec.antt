-- ===== src/Firmware/Presses/Spec.antt =====
-- What the service promises: presses wait in order, and one leaves once the host has answered it, or
-- where the queue is full and a newer press arrives.
use openring.Prelude.{
  ◌≤◌, ◌<◌, Bool, true, false, ◌||◌, ◌≡◌, ◌⊎◌, refl, ◌∙◌, inl, inr, List, [], ◌∷◌, ◌++◌, length,
  length-append, arith, Bool-cases, eq_iff,
}
use openring.Firmware.Presses.Base.{
  Press, same_press, queue_max, Event, pressed, acknowledged, quiet,
}

unfoldable pub is_in : Press → List Press → Bool
is_in p [] = false
is_in p (x ∷ l) = same_press p x || is_in p l

-- The presses that are made, and those that the host has answered.
abbrev pub made : List Event → List Press
made [] = []
made (pressed p ∷ events) = p ∷ made events
made (acknowledged p ∷ events) = made events
made (quiet ∷ events) = made events

abbrev pub answers : List Event → List Press
answers [] = []
answers (pressed p ∷ events) = answers events
answers (acknowledged p ∷ events) = p ∷ answers events
answers (quiet ∷ events) = answers events

-- The events so far, the last one first, and the presses that wait after them.
pub data Waits : List Event → List Press → Type 0 where
  none_yet : Waits [] []
  queued :
      {events : List Event} {q : List Press} (p : Press)
      → length q < queue_max
      → Waits events q
      → Waits (pressed p ∷ events) (q ++ p ∷ [])
  pushed_out :
      {events : List Event} {q : List Press} (x p : Press)
      → length (x ∷ q) ≡ queue_max
      → Waits events (x ∷ q)
      → Waits (pressed p ∷ events) (q ++ p ∷ [])
  answered :
      {events : List Event} {q : List Press} (p : Press)
      → Waits events q
      → Waits (acknowledged p ∷ events) q
  settled :
      {events : List Event} {q : List Press} (x : Press)
      → is_in x (answers events) ≡ true
      → Waits events (x ∷ q)
      → Waits (quiet ∷ events) q
  nothing : {events : List Event} {q : List Press} → Waits events q → Waits (quiet ∷ events) q

pub Waits-length-le : {events : List Event} {q : List Press} → Waits events q → length q ≤ queue_max
Waits-length-le none_yet = omega arith
Waits-length-le (queued {q} p room w) = omega (arith, length-append q (p ∷ []))
Waits-length-le (pushed_out {q} x p full w) = omega (arith, length-append q (p ∷ []))
Waits-length-le (answered p w) = Waits-length-le w
Waits-length-le (settled x known w) = omega (arith, Waits-length-le w)
Waits-length-le (nothing w) = Waits-length-le w

Waits-length-le-made :
    {events : List Event} {q : List Press} → Waits events q → length q ≤ length (made events)
Waits-length-le-made none_yet = omega arith
Waits-length-le-made (queued {q} p room w) =
    omega (arith, length-append q (p ∷ []), Waits-length-le-made w)
Waits-length-le-made (pushed_out {q} x p full w) =
    omega (arith, length-append q (p ∷ []), Waits-length-le-made w)
Waits-length-le-made (answered p w) = Waits-length-le-made w
Waits-length-le-made (settled x known w) = omega (arith, Waits-length-le-made w)
Waits-length-le-made (nothing w) = Waits-length-le-made w

is_in-append : (p : Press) (k l : List Press) → is_in p (k ++ l) ≡ is_in p k || is_in p l
unfolding is_in
is_in-append p [] l = refl
is_in-append p (x ∷ k) l = ground (arith, is_in-append p k l)

-- Equal presses are in the same lists.
pub is_in-same : (p x : Press) (l : List Press) → same_press p x ≡ true → is_in p l ≡ is_in x l
unfolding is_in same_press
is_in-same p x [] same = refl
is_in-same p x (y ∷ l) same =
    ground
      (arith, is_in-same p x l same, eq_iff p.timestamp x.timestamp, eq_iff p.device_id x.device_id)

-- Where at most 16 presses are made, each waits or has been answered.
pub Waits-kept :
    {events : List Event} {q : List Press} (p : Press)
    → Waits events q
    → length (made events) ≤ queue_max
    → is_in p (made events) ≡ true
    → (is_in p q ≡ true) ⊎ (is_in p (answers events) ≡ true)
unfolding is_in
Waits-kept p none_yet few among = cc
Waits-kept p (queued {events} {q} p' room w) few among = elim (Bool-cases (same_press p p')) [
  | inl same ↦ inl (ground (arith, is_in-append p q (p' ∷ []), same))
  | inr other ↦ elim (Waits-kept p w (omega (arith, few)) (rw other at among)) [
    | inl waiting ↦ inl (ground (arith, is_in-append p q (p' ∷ []), waiting))
    | inr known ↦ inr known
  ]
]
Waits-kept p (pushed_out {events} {q} x p' full w) few among =
    absurd (omega (arith, Waits-length-le-made w, few, full))
Waits-kept p (answered p' w) few among = elim (Waits-kept p w few among) [
  | inl waiting ↦ inl waiting
  | inr known ↦ inr (ground (arith, known))
]
Waits-kept p (settled {events} x known w) few among = elim (Waits-kept p w few among) [
  | inl waiting ↦ elim (Bool-cases (same_press p x)) [
    | inl same ↦ inr (is_in-same p x (answers events) same ∙ known)
    | inr other ↦ inl (rw other at waiting)
  ]
  | inr already ↦ inr already
]
Waits-kept p (nothing w) few among = Waits-kept p w few among
