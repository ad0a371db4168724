-- ===== src/Tests/Watchdog.antt =====
-- The heartbeat watchdog on concrete inputs.
use openring.Prelude.Int.{pos}
use openring.Prelude.Yaml.{
  Value, null, flag, number, text, items, mapping, nil, cons, Fields, end, field, get,
}
use openring.Prelude.{ℕ, ◌≡◌, refl, false, Option, none, some, List, [], ◌∷◌, lookup, insert}
use openring.Web.Devices.{Device}
use openring.Web.Watchdog
use openring.Web.Watchdog.{Health, online, offline}
use openring.Web.Watchdog.Alternate.{Alternates, run-Alternates}

abbrev float : Value → Option ℕ
float (number n) = some n
float null = none
float (flag b) = none
float (text s) = none
float (items l) = none
float (mapping m) = none

abbrev door_seen : ℕ → Device
door_seen at = record {
  device_id = "door";
  label = "";
  token_hash = "h";
  created_at = 1;
  last_seen_at = some at;
  last_telemetry = none;
  disabled = false;
}

-- Thirty seconds for the door.
abbrev config : Fields
config =
    field "doorbells"
      (items (
        cons (text "gate") (
          cons
            (mapping
              (field "device_id" (text "door") (field "heartbeat_timeout_seconds" (number 30) end)))
            nil)))
      end

abbrev passes : List (Fields × ℕ × List Device)
passes =
    (config, 100, door_seen 90 ∷ [])
    ∷ (config, 130, door_seen 90 ∷ [])
    ∷ (config, 145, door_seen 90 ∷ [])
    ∷ (config, 160, door_seen 150 ∷ [])
    ∷ []

-- The first pass says nothing, though it is the first to see the device.
door_alerts : Watchdog.run float passes [] ≡ (
  Watchdog.device_offline "door" "door" (some 90) (some (pos 40)) 30 130
      ∷ Watchdog.device_recovered "door" "door" (some 150) 160
      ∷ [],
  ("door", online) ∷ [],
)
unfolding Watchdog.run Watchdog.evaluate_once get lookup insert
door_alerts = refl

known : lookup "door" (("door", online) ∷ []) ≡ some online
unfolding lookup
known = refl

run-Alternates_example :
    Alternates "door" online
      (Watchdog.run float passes (("door", online) ∷ [])).0
      (Watchdog.run float passes (("door", online) ∷ [])).1
run-Alternates_example = run-Alternates float passes "door" (("door", online) ∷ []) online known
