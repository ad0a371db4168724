-- ===== src/Notifier/Digest/Once.antt =====
-- How often the digest is sent.
use openring.Prelude.{
  ℕ, ◌≤◌, ◌<◌, String, false, ◌≡◌, refl, sym, subst, ◌∙◌, inl, inr, Option, none, some,
  Option-cases, List, [], ◌∷◌, ◌++◌, All, arith,
}
use openring.Prelude.Yaml.{Fields}
use openring.Notifier.Digest.Settings.{Scheduler, configure}
use openring.Notifier.Digest.Base.{
  Attempt, sent_on, tick, Call, ticked, configured, call, run, ZoneResult, zone_or_utc,
}
use openring.Notifier.Digest.Outcome.{
  sent_dates, sent_dates-append, Outcome, tick-Outcome, tick_failed,
}

-- Times that the ticks read, from a time on.
abbrev pub IsClock : ℕ → List Call → Type 0
IsClock since [] = Unit
IsClock since (ticked t ∷ cs) = (since ≤ t.now) × IsClock t.now cs
IsClock since (configured _ _ ∷ cs) = IsClock since cs

-- The time zone stays.
abbrev pub IsIn : String → Call → Type 0
IsIn tz_name (ticked t) = Unit
IsIn tz_name (configured _ name) = name ≡ tz_name

abbrev pub LastBy : Option ℕ → ℕ → Type 0
LastBy none today = Unit
LastBy (some last) today = last ≤ today

abbrev pub After : Option ℕ → ℕ → Type 0
After none date = Unit
After (some last) date = last < date

abbrev pub IsIncreasing : List ℕ → Type 0
IsIncreasing [] = Unit
IsIncreasing (d ∷ l) = All (λ e. d < e) l × IsIncreasing l

After-fresh :
    (last : Option ℕ) (today : ℕ)
    → LastBy last today
    → sent_on last today ≡ false
    → After last today
After-fresh none today by fresh = tt
After-fresh (some last) today by fresh = ground (arith, by, fresh)

LastBy-later : (last : Option ℕ) (a b : ℕ) → a ≤ b → LastBy last a → LastBy last b
LastBy-later none a b le by = tt
LastBy-later (some last) a b le by = omega (arith, le, by)

After-All :
    (last : Option ℕ) (d : ℕ) (l : List ℕ) → After last d → All (λ e. d < e) l → All (After last) l
After-All last d [] after h = tt
After-All none d (e ∷ l) after h = (tt, After-All none d l after h.1)
After-All (some last) d (e ∷ l) after h =
    (omega (arith, after, h.0), After-All (some last) d l after h.1)

-- Each date is after the one before it.
abbrev pub Follows : Option ℕ → List ℕ → Type 0
Follows last dates = All (After last) dates × IsIncreasing dates

LastBy-Outcome :
    (s : Scheduler) (today : ℕ) (r : Scheduler × List Attempt)
    → Outcome s today r
    → LastBy s.last_sent_date today
    → LastBy r.0.last_sent_date today
LastBy-Outcome s today r (_, inl (nothing, kept)) by = subst (λ l. LastBy l today) (sym kept) by
LastBy-Outcome s today r (_, inr (one, last, fresh)) by =
    subst (λ l. LastBy l today) (sym last) (omega arith)

Follows-Outcome :
    (s : Scheduler) (today : ℕ) (r : Scheduler × List Attempt) (later : List ℕ)
    → Outcome s today r
    → LastBy s.last_sent_date today
    → Follows r.0.last_sent_date later
    → Follows s.last_sent_date (sent_dates r.1 ++ later)
Follows-Outcome s today r later (_, inl (nothing, kept)) by h =
    rw nothing (subst (λ l. Follows l later) kept h)
Follows-Outcome s today r later (_, inr (one, last, fresh)) by h =
    let after = After-fresh s.last_sent_date today by fresh in
    let (next, rest) = subst (λ l. Follows l later) last h in
    rw one ((after, After-All s.last_sent_date today later after next), (next, rest))

configure-last :
    (s : Scheduler) (cfg : Fields) (tz : String)
    → (configure s cfg tz).last_sent_date ≡ s.last_sent_date
unfolding configure
configure-last s cfg tz = ground arith

configure-tz_name :
    (s : Scheduler) (cfg : Fields) (tz : String)
    → tz ≡ s.tz_name
    → (configure s cfg tz).tz_name ≡ s.tz_name
unfolding configure
configure-tz_name s cfg tz same = ground (arith, same)

module _ {Z : Type 0} (zone : String → ZoneResult Z) (utc : Z) (local : Z → ℕ → ℕ × ℕ) (day : ℕ → ℕ)
    (int : String → Option ℕ) where
  -- In a time zone that cannot be looked up nothing is sent.
  run_failed :
      (tz : String) (s : Scheduler) (cs : List Call)
      → s.tz_name ≡ tz
      → All (IsIn tz) cs
      → zone_or_utc zone utc local day int tz ≡ none
      → sent_dates (run zone utc local day int s cs).1 ≡ []
  unfolding run call
  run_failed tz s [] here stays raised = refl
  run_failed tz s (configured cfg name ∷ cs) here stays raised =
      run_failed tz (configure s cfg name) cs
        (configure-tz_name s cfg name (stays.0 ∙ sym here) ∙ here) stays.1 raised
  run_failed tz s (ticked t ∷ cs) here stays raised =
      let r = tick zone utc local day int s t in
      let (kept, nothing) =
        tick_failed zone utc local day int s t
          (subst (λ n. zone_or_utc zone utc local day int n ≡ none) (sym here) raised) in
      let later = run_failed tz r.0 cs (kept ∙ here) stays.1 raised in
      sent_dates-append r.1 _ ∙ rw (nothing, later) refl

  -- The last date is not after that of a time in the zone, where there is one.
  abbrev pub LastIn : Option Z → ℕ → Option ℕ → Type 0
  LastIn none since last = Unit
  LastIn (some z) since last = LastBy last (local z since).0

  -- No time has a local date before that of an earlier time.
  module _ (forward : (z : Z) (a b : ℕ) → a ≤ b → (local z a).0 ≤ (local z b).0) where
    run-Follows :
        (tz : String) (z : Z) (since : ℕ) (s : Scheduler) (cs : List Call)
        → zone_or_utc zone utc local day int tz ≡ some z
        → s.tz_name ≡ tz
        → All (IsIn tz) cs
        → IsClock since cs
        → LastBy s.last_sent_date (local z since).0
        → Follows s.last_sent_date (sent_dates (run zone utc local day int s cs).1)
    unfolding run call
    run-Follows tz z since s [] usable here stays clock by = (tt, tt)
    run-Follows tz z since s (configured cfg name ∷ cs) usable here stays clock by =
        let s' = configure s cfg name in
        let kept = configure-last s cfg name in
        subst (λ l. Follows l (sent_dates (run zone utc local day int s' cs).1)) kept
          (run-Follows tz z since s' cs usable
            (configure-tz_name s cfg name (stays.0 ∙ sym here) ∙ here) stays.1 clock
            (subst (λ l. LastBy l (local z since).0) (sym kept) by))
    run-Follows tz z since s (ticked t ∷ cs) usable here stays clock by =
        let today = (local z t.now).0 in
        let r = tick zone utc local day int s t in
        let later = (run zone utc local day int r.0 cs).1 in
        let done : Outcome s today r =
          tick-Outcome zone utc local day int s t z
            (subst (λ n. zone_or_utc zone utc local day int n ≡ some z) (sym here) usable) in
        let by_today = LastBy-later s.last_sent_date _ today (forward z since t.now clock.0) by in
        subst (Follows s.last_sent_date) (sym (sent_dates-append r.1 later)) (
          Follows-Outcome s today r (sent_dates later) done by_today (
            run-Follows tz z t.now r.0 cs usable (done.0 ∙ here) stays.1 clock.1
              (LastBy-Outcome s today r done by_today)))

    -- Where no configuration changes the time zone, the local date never goes back, no tick reads a
    -- time before `since` or before that of an earlier tick, and the last date on which a digest was
    -- sent is not after that of `since`, the local dates on which a digest is sent over any run of
    -- ticks and configurations increase strictly and are after that last date, so that no date has
    -- two.
    pub run_once_a_date :
        (since : ℕ) (s : Scheduler) (cs : List Call)
        → All (IsIn s.tz_name) cs
        → IsClock since cs
        → LastIn (zone_or_utc zone utc local day int s.tz_name) since s.last_sent_date
        → All (After s.last_sent_date) (sent_dates (run zone utc local day int s cs).1)
          × IsIncreasing (sent_dates (run zone utc local day int s cs).1)
    run_once_a_date since s cs stays clock by =
        elim (Option-cases (zone_or_utc zone utc local day int s.tz_name)) [
          | inl raised ↦ rw (run_failed s.tz_name s cs refl stays raised) (tt, tt)
          | inr (z, usable) ↦
              run-Follows s.tz_name z since s cs usable refl stays clock (rw usable at by)
        ]
