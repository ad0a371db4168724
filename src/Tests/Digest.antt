-- ===== src/Tests/Digest.antt =====
-- The digest scheduler on concrete inputs.
use openring.Prelude.{
  ℕ, ◌+◌, ◌*◌, ◌/◌, ◌%◌, ◌≤◌, ◌≡◌, refl, String, Bool, true, false, Option, none, some, List, [],
  ◌∷◌, ◌==◌, All, arith, if◌then◌else◌, lookup, insert,
}
use openring.Prelude.Yaml.{flag, number, text, items, nil, cons, Fields, end, field, get, truthy}
use openring.Notifier.Digest
use openring.Notifier.Digest.{Tick, Call, ticked, configured}
use openring.Notifier.Digest.Outcome.{sent_dates}
use openring.Notifier.Digest.Once.{After, IsIncreasing, run_once_a_date}

-- A zone is its offset in seconds east of UTC, and the clock counts seconds.
abbrev zone : String → Digest.ZoneResult ℕ
zone name =
    if name == "UTC"
    then Digest.found 0
    else if name == "Asia/Tokyo"
    then Digest.found 32400
    else if name == "/etc"
    then Digest.failed
    else Digest.not_found

abbrev local : ℕ → ℕ → ℕ × ℕ
local offset now = ((now + offset) / 86400, (now + offset) % 86400 * 1000000)

local_forward : (z a b : ℕ) → a ≤ b → (local z a).0 ≤ (local z b).0
local_forward z a b le = ground (arith, le)

abbrev first_day : ℕ → ℕ
first_day date = 1

abbrev int : String → Option ℕ
int s = if s == "07" then some 7 else if s == "30" then some 30 else none

abbrev settings : Fields
settings =
    field "enabled" (flag true)
      (field "time" (text "07:30") (field "channels" (items (cons (text "mail") nil)) end))

abbrev ready : Digest.Scheduler
ready = record Digest.created {
  enabled = true;
  time_str = text "07:30";
  channels = text "mail" ∷ [];
}

configured_ready : Digest.configure Digest.created settings "UTC" ≡ ready
unfolding Digest.configure get truthy
configured_ready = refl

-- A tick whose report is generated, and whose dispatch returns or not.
abbrev minute : ℕ → Bool → Tick
minute now returned = record {
  now = now;
  generated = some (("generated_at", text "now") ∷ []);
  dispatched = returned;
}

-- At 7:29 nothing is due, at 7:30 the dispatch fails, and at 7:31 it returns.
abbrev two_mornings : List Call
two_mornings =
    configured settings "UTC"
    ∷ ticked (minute 26940 true)
    ∷ ticked (minute 27000 false)
    ∷ ticked (minute 27060 true)
    ∷ ticked (minute 27120 true)
    ∷ ticked (minute 113460 true)
    ∷ []

two_sent :
    sent_dates (Digest.run zone 0 local first_day int Digest.created two_mornings).1 ≡ 0 ∷ 1 ∷ []
unfolding Digest.run get truthy lookup insert
two_sent = refl

-- A time that is no text ends the thread.
unquoted_time :
    (Digest.run zone 0 local first_day int Digest.created (
      configured (field "time" (number 630) settings) "UTC"
      ∷ ticked (minute 27000 true)
      ∷ [])).0.alive
    ≡ false
unfolding Digest.run get truthy lookup insert
unquoted_time = refl

-- A name that is an absolute path ends the thread, and an unknown one is UTC.
absolute_zone :
    Digest.run zone 0 local first_day int ready
      (configured settings "/etc" ∷ ticked (minute 27000 true) ∷ [])
    ≡ (record ready { alive = false; tz_name = "/etc" }, [])
unfolding Digest.run get truthy lookup insert
absolute_zone = refl

unknown_zone :
    sent_dates
      (Digest.run zone 0 local first_day int ready
        (configured settings "Mars" ∷ ticked (minute 27000 true) ∷ [])).1
    ≡ 0 ∷ []
unfolding Digest.run get truthy lookup insert
unknown_zone = refl

run_once_a_date_example :
    All
      (After none)
      (sent_dates (Digest.run zone 0 local first_day int Digest.created two_mornings).1)
    × IsIncreasing
        (sent_dates (Digest.run zone 0 local first_day int Digest.created two_mornings).1)
unfolding Digest.zone_or_utc
run_once_a_date_example =
    run_once_a_date zone 0 local first_day int local_forward 0 Digest.created two_mornings
      (refl, (tt, (tt, (tt, (tt, (tt, tt))))))
      (omega arith, (omega arith, (omega arith, (omega arith, (omega arith, tt))))) tt

abbrev morning : List Tick
morning = minute 27000 false ∷ minute 27060 true ∷ minute 27120 true ∷ []
