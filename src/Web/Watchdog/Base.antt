-- ===== src/Web/Watchdog/Base.antt =====
-- `_per_device_timeout` and `_evaluate_once`.
use openring.Prelude.Int.{ℤ, sub_ℕ}
use openring.Prelude.Yaml.{
  Value, null, flag, number, text, items, mapping, Items, nil, cons, Fields, get, truthy,
}
use openring.Prelude.{
  ℕ, ◌+◌, String, Bool, false, Option, none, some, List, [], ◌∷◌, ◌++◌, leb, if◌then◌else◌, Dict,
  lookup, insert, ◌==◌,
}
use openring.Web.Devices.{Device}

abbrev pub default_timeout_seconds : ℕ
default_timeout_seconds = 90

-- Whether a value is this text.
abbrev pub is_text : String → Option Value → Bool
is_text s (some (text t)) = t == s
is_text s (some null) = false
is_text s (some (flag b)) = false
is_text s (some (number n)) = false
is_text s (some (items l)) = false
is_text s (some (mapping m)) = false
is_text s none = false

abbrev pub or_else : ℕ → Option ℕ → ℕ
or_else default none = default
or_else default (some n) = n

module _ (float : Value → Option ℕ) where
  -- (cfg.get("system") or {}).get("heartbeat_timeout_seconds", …)
  unfoldable pub timeout_of_system : Value → Option ℕ
  timeout_of_system (mapping m) = elim (get "heartbeat_timeout_seconds" m) [
    | none ↦ some default_timeout_seconds
    | some v ↦ float v
  ]
  timeout_of_system null = none
  timeout_of_system (flag b) = none
  timeout_of_system (number n) = none
  timeout_of_system (text s) = none
  timeout_of_system (items l) = none

  unfoldable pub system_default : Fields → Option ℕ
  unfolding timeout_of_system
  system_default cfg = elim (get "system" cfg) [
    | none ↦ some default_timeout_seconds
    | some v ↦ if truthy v then timeout_of_system v else some default_timeout_seconds
  ]

  -- What the entry of the device overrides the default by.
  unfoldable pub override_of : ℕ → Option Value → ℕ
  override_of default none = default
  override_of default (some null) = default
  override_of default (some (flag b)) = or_else default (float (flag b))
  override_of default (some (number n)) = or_else default (float (number n))
  override_of default (some (text s)) = or_else default (float (text s))
  override_of default (some (items l)) = or_else default (float (items l))
  override_of default (some (mapping m)) = or_else default (float (mapping m))

  -- The loop over the doorbells, which breaks at the first entry of the device.
  unfoldable pub timeout_in : String → ℕ → Items → ℕ
  unfolding override_of
  timeout_in device_id default nil = default
  timeout_in device_id default (cons (mapping m) l) =
      if is_text device_id (get "device_id" m)
      then override_of default (get "heartbeat_timeout_seconds" m)
      else timeout_in device_id default l
  timeout_in device_id default (cons null l) = timeout_in device_id default l
  timeout_in device_id default (cons (flag b) l) = timeout_in device_id default l
  timeout_in device_id default (cons (number n) l) = timeout_in device_id default l
  timeout_in device_id default (cons (text s) l) = timeout_in device_id default l
  timeout_in device_id default (cons (items k) l) = timeout_in device_id default l

  -- `for entry in cfg.get("doorbells") or []`: the keys of a dict and the letters of a text are no
  -- dicts, and a number or a flag that is true cannot be iterated.
  unfoldable pub timeout_of_doorbells : String → ℕ → Option Value → Option ℕ
  unfolding timeout_in
  timeout_of_doorbells device_id default none = some default
  timeout_of_doorbells device_id default (some (items l)) = some (timeout_in device_id default l)
  timeout_of_doorbells device_id default (some null) = some default
  timeout_of_doorbells device_id default (some (text s)) = some default
  timeout_of_doorbells device_id default (some (mapping m)) = some default
  timeout_of_doorbells device_id default (some (flag b)) =
      if truthy (flag b) then none else some default
  timeout_of_doorbells device_id default (some (number n)) =
      if truthy (number n) then none else some default

  unfoldable pub per_device_timeout : Fields → String → Option ℕ
  unfolding system_default timeout_of_doorbells
  per_device_timeout cfg device_id = elim (system_default cfg) [
    | none ↦ none
    | some default ↦ timeout_of_doorbells device_id default (get "doorbells" cfg)
  ]

pub data Health : Type 0 where
  online offline : Health

pub data Alert : Type 0 where
  device_offline :
      (device_id label : String) (last_seen_at : Option ℕ) (offline_seconds : Option ℤ)
      (timeout_seconds timestamp : ℕ)
      → Alert
  device_recovered : (device_id label : String) (last_seen_at : Option ℕ) (timestamp : ℕ) → Alert

-- The new state of a device.
unfoldable pub health : ℕ → ℕ → Option ℕ → Health
health now timeout none = offline
health now timeout (some last_seen) = if leb now (last_seen + timeout) then online else offline

abbrev offline_seconds : ℕ → Option ℕ → Option ℤ
offline_seconds now none = none
offline_seconds now (some last_seen) = some (sub_ℕ now last_seen)

unfoldable pub alert_of : ℕ → ℕ → Device → Health → Alert
alert_of now timeout d offline =
    device_offline d.device_id (if d.label == "" then d.device_id else d.label) d.last_seen_at
      (offline_seconds now d.last_seen_at) timeout now
alert_of now timeout d online =
    device_recovered d.device_id (if d.label == "" then d.device_id else d.label) d.last_seen_at now

-- From the previous state to the new one: what is published.
unfoldable pub transition : ℕ → ℕ → Device → Option Health → Health → List Alert
unfolding alert_of
transition now timeout d none new = []
transition now timeout d (some online) online = []
transition now timeout d (some offline) offline = []
transition now timeout d (some online) offline = alert_of now timeout d offline ∷ []
transition now timeout d (some offline) online = alert_of now timeout d online ∷ []

module _ (float : Value → Option ℕ) where
  -- One pass over the devices. Writing a state that is already there changes nothing.
  unfoldable pub evaluate_once : Fields → ℕ → List Device → Dict Health → List Alert × Dict Health
  unfolding per_device_timeout health transition
  evaluate_once cfg now [] state = ([], state)
  evaluate_once cfg now (d ∷ devices) state =
      let skipped = evaluate_once cfg now devices state in
      if d.device_id == "" then skipped else elim (per_device_timeout float cfg d.device_id) [
        | none ↦ ([], state)
        | some timeout ↦
            let new = health now timeout d.last_seen_at in
            let (later, last) = evaluate_once cfg now devices (insert d.device_id new state) in
            (transition now timeout d (lookup d.device_id state) new ++ later, last)
      ]

  -- The passes of the thread, each with the configuration, the time and the devices.
  unfoldable pub run : List (Fields × ℕ × List Device) → Dict Health → List Alert × Dict Health
  run [] state = ([], state)
  run ((cfg, now, devices) ∷ passes) state =
      let (alerts, state') = evaluate_once cfg now devices state in
      let (later, last) = run passes state' in (alerts ++ later, last)
