-- ===== src/Notifier/Digest/Outcome.antt =====
-- What a tick does to the dates on which the digest is sent.
use openring.Prelude.{
  ℕ, String, true, false, ◌≡◌, ◌⊎◌, refl, ap, inl, inr, Bool-cases, Option, none, some,
  Option-cases, List, [], ◌∷◌, ◌&&◌, ◌++◌, arith, if◌then◌else◌,
}
use openring.Prelude.Yaml.{Value}
use openring.Notifier.Digest.Settings.{Scheduler, parse_time}
use openring.Notifier.Digest.Base.{
  Tick, Attempt, addressed, has_any, is_due, send_digest, sent_on, fire, tick, ZoneResult,
  zone_or_utc,
}

-- The local dates on which a dispatch counted as sent, in order.
abbrev pub sent_dates : List Attempt → List ℕ
sent_dates [] = []
sent_dates (a ∷ l) = if a.sent then a.date ∷ sent_dates l else sent_dates l

pub sent_dates-append : (k l : List Attempt) → sent_dates (k ++ l) ≡ sent_dates k ++ sent_dates l
sent_dates-append [] l = refl
sent_dates-append (a ∷ k) l = ground (arith, sent_dates-append k l)

-- What a tick on a date does: nothing is sent, or it is sent on that date for the first time.
abbrev pub Outcome : Scheduler → ℕ → Scheduler × List Attempt → Type 0
Outcome s today r =
    (r.0.tz_name ≡ s.tz_name)
    × (((sent_dates r.1 ≡ []) × (r.0.last_sent_date ≡ s.last_sent_date))
        ⊎ ((sent_dates r.1 ≡ today ∷ [])
            × (r.0.last_sent_date ≡ some today)
            × (sent_on s.last_sent_date today ≡ false)))

send_digest-date :
    (channels : List Value) (today : ℕ) (t : Tick)
    → (send_digest channels today t ≡ none)
      ⊎ ((a : Attempt) × (send_digest channels today t ≡ some a) × (a.date ≡ today))
unfolding send_digest
send_digest-date channels today t = elim (Option-cases t.generated) [
  | inl raised ↦ rw raised (inl refl)
  | inr (report, e) ↦ rw e (elim (Option-cases (addressed channels report)) [
    | inl keyless ↦ rw keyless (inl refl)
    | inr (report', e') ↦ rw e' (inr (_, refl, refl))
  ])
]

fire-Outcome :
    (s : Scheduler) (today : ℕ) (t : Tick)
    → sent_on s.last_sent_date today ≡ false
    → Outcome s today (fire s today t)
unfolding fire
fire-Outcome s today t fresh = elim (send_digest-date s.channels today t) [
  | inl nothing ↦ rw nothing (refl, inl (refl, refl))
  | inr (a, made, on) ↦ rw made (elim (Bool-cases a.sent) [
    | inl sent ↦ rw sent (refl, inr (ap (λ d. d ∷ []) on, refl, fresh))
    | inr lost ↦ rw lost (refl, inl (refl, refl))
  ])
]

is_due-fresh :
    (day : ℕ → ℕ) (s : Scheduler) (scheduled : ℕ) (now : ℕ × ℕ)
    → is_due day s scheduled now ≡ true
    → sent_on s.last_sent_date now.0 ≡ false
unfolding is_due
is_due-fresh day s scheduled now due = ground (arith, due)

module _ {Z : Type 0} (zone : String → ZoneResult Z) (utc : Z) (local : Z → ℕ → ℕ × ℕ) (day : ℕ → ℕ)
    (int : String → Option ℕ) where
  pub tick-Outcome :
      (s : Scheduler) (t : Tick) (z : Z)
      → zone_or_utc zone utc local day int s.tz_name ≡ some z
      → Outcome s (local z t.now).0 (tick zone utc local day int s t)
  unfolding tick
  tick-Outcome s t z usable = elim (Bool-cases (s.alive && s.enabled && has_any s.channels)) [
    | inr idle ↦ rw idle (refl, inl (refl, refl))
    | inl on ↦
        rw (on, usable)
          (elim (Option-cases (parse_time int s.time_str)) [
            | inl raised ↦ rw raised (refl, inl (refl, refl))
            | inr (scheduled, e) ↦
                let now = local z t.now in
                rw e (elim (Bool-cases (is_due day s scheduled now)) [
                  | inl due ↦ rw due (fire-Outcome s now.0 t (is_due-fresh day s scheduled now due))
                  | inr early ↦ rw early (refl, inl (refl, refl))
                ])
          ])
  ]

  pub tick_failed :
      (s : Scheduler) (t : Tick)
      → zone_or_utc zone utc local day int s.tz_name ≡ none
      → let r = tick zone utc local day int s t in (r.0.tz_name ≡ s.tz_name) × (sent_dates r.1 ≡ [])
  unfolding tick
  tick_failed s t raised = elim (Bool-cases (s.alive && s.enabled && has_any s.channels)) [
    | inr idle ↦ rw idle (refl, refl)
    | inl on ↦ rw (on, raised) (refl, refl)
  ]
