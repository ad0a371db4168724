-- ===== src/Notifier/Digest/Retry.antt =====
-- A digest that fails is sent again by the next tick, and one that is sent is not.
use openring.Prelude.{ℕ, String, Bool, true, ◌&&◌, ◌≡◌, Option, some, is_some, List, arith}
use openring.Prelude.Yaml.{Value}
use openring.Notifier.Digest.Settings.{Scheduler}
use openring.Notifier.Digest.Base.{
  Tick, addressed, and_then, sent_on, local_now, zone_or_utc, is_due, ZoneResult,
}

-- The report is generated, with its time, and its dispatch returns.
abbrev pub is_accepted : List Value → Tick → Bool
is_accepted channels t = is_some (and_then t.generated (addressed channels)) && t.dispatched

sent_on-same : (today : ℕ) → sent_on (some today) today ≡ true
sent_on-same today = ground arith

-- The ticks of one local date, in a zone.
module _ {Z : Type 0} (zone : String → ZoneResult Z) (utc : Z) (local : Z → ℕ → ℕ × ℕ) (day : ℕ → ℕ)
    (int : String → Option ℕ) (z : Z) (today : ℕ) where
  -- A tick on the date.
  abbrev pub IsOn : Tick → Type 0
  IsOn t = (local z t.now).0 ≡ today

  -- Its time zone is the zone, or unknown where the zone is UTC.
  abbrev pub IsZoned : Scheduler → Type 0
  IsZoned s = zone_or_utc zone utc local day int s.tz_name ≡ some z

  -- A tick on the date that finds the digest due.
  pub record IsDueAt (scheduled : ℕ) (s : Scheduler) (t : Tick) : Type 0 where
    pub on : IsOn t
    pub due_at : is_due day s scheduled (local_now zone utc local day int z t) ≡ true
