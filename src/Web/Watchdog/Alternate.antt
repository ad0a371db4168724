-- ===== src/Web/Watchdog/Alternate.antt =====
-- The alerts of a device alternate.
use openring.Prelude.Yaml.{Value, Fields}
use openring.Prelude.{
  ℕ, String, ◌≡◌, refl, ap, subst, ◌∙◌, inl, inr, Bool-cases, false, Option, none, some,
  Option-cases, List, [], ◌∷◌, ◌++◌, filter, arith, Dict, lookup, insert, lookup-insert, ◌==◌,
  eq_iff, eq_refl,
}
use openring.Web.Devices.{Device}
use openring.Web.Watchdog.Base.{
  Health, online, offline, Alert, device_offline, device_recovered, health, transition,
  per_device_timeout, evaluate_once, run,
}

abbrev pub device_of : Alert → String
device_of (device_offline id _ _ _ _ _) = id
device_of (device_recovered id _ _ _) = id

abbrev pub alerts_of : String → List Alert → List Alert
alerts_of id = filter (λ alert. device_of alert == id)

-- The state after the alerts, where each of them reports a change; none where one does not.
abbrev pub replay : Health → List Alert → Option Health
replay h [] = some h
replay online (device_offline _ _ _ _ _ _ ∷ l) = replay offline l
replay online (device_recovered _ _ _ _ ∷ l) = none
replay offline (device_offline _ _ _ _ _ _ ∷ l) = none
replay offline (device_recovered _ _ _ _ ∷ l) = replay online l

replay-append :
    (h h' : Health) (k l : List Alert) → replay h k ≡ some h' → replay h (k ++ l) ≡ replay h' l
replay-append h h' [] l e = ground arith
replay-append online h' (device_offline _ _ _ _ _ _ ∷ k) l e = replay-append offline h' k l e
replay-append online h' (device_recovered _ _ _ _ ∷ k) l e = cc
replay-append offline h' (device_offline _ _ _ _ _ _ ∷ k) l e = cc
replay-append offline h' (device_recovered _ _ _ _ ∷ k) l e = replay-append online h' k l e

alerts_of-append :
    (id : String) (k l : List Alert) → alerts_of id (k ++ l) ≡ alerts_of id k ++ alerts_of id l
alerts_of-append id [] l = refl
alerts_of-append id (a ∷ k) l = ground (arith, alerts_of-append id k l)

-- From `state`, with the device known as `h`, to a state in which it is known, and the alerts on
-- the way replay the change.
abbrev pub Alternates : String → Health → List Alert → Dict Health → Type 0
Alternates id h alerts state' =
    (h' : Health) × (lookup id state' ≡ some h') × (replay h (alerts_of id alerts) ≡ some h')

Alternates-append :
    (id : String) (h : Health) (alerts later : List Alert) (mid last : Dict Health)
    → Alternates id h alerts mid
    → ((h' : Health) → lookup id mid ≡ some h' → Alternates id h' later last)
    → Alternates id h (alerts ++ later) last
Alternates-append id h alerts later mid last (h', known, replayed) rest =
    let (h'', known', replayed') = rest h' known in
    (
      h'',
      known',
      ap (replay h) (alerts_of-append id alerts later)
          ∙ (replay-append h h' (alerts_of id alerts) (alerts_of id later) replayed ∙ replayed'),
    )

transition_same :
    (now timeout : ℕ) (d : Device) (h new : Health)
    → replay h (alerts_of d.device_id (transition now timeout d (some h) new)) ≡ some new
unfolding transition
transition_same now timeout d online online = refl
transition_same now timeout d offline offline = refl
transition_same now timeout d online offline = rw (eq_refl d.device_id)
transition_same now timeout d offline online = rw (eq_refl d.device_id)

transition_other :
    (now timeout : ℕ) (id : String) (d : Device) (o : Option Health) (new : Health)
    → (d.device_id == id) ≡ false
    → alerts_of id (transition now timeout d o new) ≡ []
unfolding transition
transition_other now timeout id d none new other = refl
transition_other now timeout id d (some online) online other = refl
transition_other now timeout id d (some offline) offline other = refl
transition_other now timeout id d (some online) offline other = rw other
transition_other now timeout id d (some offline) online other = rw other

transition_self :
    (now timeout : ℕ) (d : Device) (state : Dict Health) (h new : Health)
    → lookup d.device_id state ≡ some h
    → Alternates d.device_id h
        (transition now timeout d (lookup d.device_id state) new)
        (insert d.device_id new state)
transition_self now timeout d state h new known = (
  new,
  lookup-insert d.device_id d.device_id new state ∙ rw (eq_refl d.device_id) refl,
  rw known (transition_same now timeout d h new),
)

-- What the pass does at one device.
transition-Alternates :
    (now timeout : ℕ) (id : String) (d : Device) (state : Dict Health) (h new : Health)
    → lookup id state ≡ some h
    → Alternates id h
        (transition now timeout d (lookup d.device_id state) new)
        (insert d.device_id new state)
transition-Alternates now timeout id d state h new known = elim (Bool-cases (d.device_id == id)) [
  | inl same ↦
      let e : d.device_id ≡ id = (eq_iff d.device_id id).0 same in
      subst
        (λ x.
          lookup x state ≡ some h
          → Alternates x h (transition now timeout d (lookup d.device_id state) new)
              (insert d.device_id new state))
        e (transition_self now timeout d state h new) known
  | inr other ↦ (
    h,
    lookup-insert d.device_id id new state ∙ (rw other known),
    ap (replay h) (transition_other now timeout id d (lookup d.device_id state) new other),
  )
]

module _ (float : Value → Option ℕ) where
  evaluate_once-Alternates :
      (cfg : Fields) (now : ℕ) (devices : List Device) (id : String) (state : Dict Health)
      (h : Health)
      → lookup id state ≡ some h
      → Alternates id h
          (evaluate_once float cfg now devices state).0
          (evaluate_once float cfg now devices state).1
  unfolding evaluate_once
  evaluate_once-Alternates cfg now [] id state h known = (h, known, refl)
  evaluate_once-Alternates cfg now (d ∷ devices) id state h known =
      elim (Bool-cases (d.device_id == "")) [
        | inl unnamed ↦ rw unnamed (evaluate_once-Alternates cfg now devices id state h known)
        | inr named ↦ elim (Option-cases (per_device_timeout float cfg d.device_id)) [
          | inl raises ↦ rw (named, raises) (h, known, refl)
          | inr (timeout, resolved) ↦
              let new = health now timeout d.last_seen_at in
              let mid = insert d.device_id new state in
              rw (named, resolved)
                (Alternates-append id h (transition now timeout d (lookup d.device_id state) new)
                  (evaluate_once float cfg now devices mid).0 mid
                  (evaluate_once float cfg now devices mid).1
                  (transition-Alternates now timeout id d state h new known)
                  (evaluate_once-Alternates cfg now devices id mid))
        ]
      ]

  -- Over any passes of the watchdog, whatever the configuration, the times and the table of devices,
  -- a device whose state is known stays known, and each of its alerts reports a change: offline after
  -- online and recovered after offline, from its state before to its state after.
  pub run-Alternates :
      (passes : List (Fields × ℕ × List Device)) (id : String) (state : Dict Health) (h : Health)
      → lookup id state ≡ some h
      → Alternates id h (run float passes state).0 (run float passes state).1
  unfolding run
  run-Alternates [] id state h known = (h, known, refl)
  run-Alternates ((cfg, now, devices) ∷ passes) id state h known =
      let (alerts, mid) = evaluate_once float cfg now devices state in
      Alternates-append id h alerts (run float passes mid).0 mid (run float passes mid).1
        (evaluate_once-Alternates cfg now devices id state h known) (run-Alternates passes id mid)
