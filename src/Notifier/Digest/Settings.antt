-- ===== src/Notifier/Digest/Settings.antt =====
-- `DigestScheduler`: its settings, `configure`, and the parse of the scheduled time.
use Prim.Native.Char.{Char, code}
use openring.Prelude.Yaml.{
  Value, null, flag, number, text, items, mapping, Items, nil, cons, Fields, end, field, get,
  truthy,
}
use openring.Prelude.{
  ℕ, ◌+◌, ◌*◌, String, Bool, true, false, ◌&&◌, Option, none, some, List, [], ◌∷◌, ltb, beq,
  if◌then◌else◌,
}

pub record Scheduler : Type 0 where
  pub enabled : Bool
  pub frequency : Value
  pub time_str : Value
  pub channels : List Value
  pub tz_name : String
  pub last_sent_date : Option ℕ
  -- The thread runs: an exception that leaves `_tick` ends it.
  pub alive : Bool

abbrev pub created : Scheduler
created = record {
  enabled = false;
  frequency = text "daily";
  time_str = text "07:00";
  channels = [];
  tz_name = "UTC";
  last_sent_date = none;
  alive = true;
}

-- report_cfg.get(key, default)
abbrev get_or : Value → Option Value → Value
get_or default none = default
get_or default (some v) = v

abbrev values : Items → List Value
values nil = []
values (cons v l) = v ∷ values l

abbrev keys : Fields → List Value
keys end = []
keys (field k v m) = text k ∷ keys m

abbrev letters : String → List Value
letters String.[] = []
letters (String.◌∷◌ c s) = text (String.◌∷◌ c String.[]) ∷ letters s

-- list(v), which raises TypeError on a value that is not iterable.
unfoldable pub list_of : Value → Option (List Value)
list_of (items l) = some (values l)
list_of (text s) = some (letters s)
list_of (mapping m) = some (keys m)
list_of null = none
list_of (flag b) = none
list_of (number n) = none

-- Where `list` raises, the fields before it are set.
unfoldable pub configure : Scheduler → Fields → String → Scheduler
unfolding list_of
configure s report_cfg tz_name =
    let s' = record s {
      enabled = truthy (get_or (flag false) (get "enabled" report_cfg));
      frequency = get_or (text "daily") (get "frequency" report_cfg);
      time_str = get_or (text "07:00") (get "time" report_cfg);
    } in
    elim (list_of (get_or (items nil) (get "channels" report_cfg))) [
      | none ↦ s'
      | some channels ↦ record s' { channels = channels; tz_name = tz_name }
    ]

abbrev push_letter : Char → List String → List String
push_letter c [] = String.◌∷◌ c String.[] ∷ []
push_letter c (part ∷ parts) = String.◌∷◌ c part ∷ parts

-- s.split(":")
unfoldable pub split : String → List String
split String.[] = String.[] ∷ []
split (String.◌∷◌ c s) =
    let parts = split s in if beq (code c) 58 then String.[] ∷ parts else push_letter c parts

-- A time of day in microseconds.
abbrev pub minutes : ℕ → ℕ → ℕ
minutes h m = (h * 60 + m) * 60000000

-- time(h, m), where both are in range, and time(7, 0) where they are not.
abbrev pub time_or_seven : Option ℕ → Option ℕ → ℕ
time_or_seven (some h) (some m) = if ltb h 24 && ltb m 60 then minutes h m else minutes 7 0
time_or_seven (some h) none = minutes 7 0
time_or_seven none m = minutes 7 0

abbrev first_two : (String → Option ℕ) → List String → ℕ
first_two int (h ∷ m ∷ _) = time_or_seven (int h) (int m)
first_two int (h ∷ []) = minutes 7 0
first_two int [] = minutes 7 0

-- The scheduled time, and `none` where `time_str` has no `split` and the tick raises.
unfoldable pub parse_time : (String → Option ℕ) → Value → Option ℕ
unfolding split
parse_time int (text s) = some (first_two int (split s))
parse_time int null = none
parse_time int (flag b) = none
parse_time int (number n) = none
parse_time int (items l) = none
parse_time int (mapping m) = none
