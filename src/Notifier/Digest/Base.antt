-- ===== src/Notifier/Digest/Base.antt =====
-- `DigestScheduler`: `_tick`, `_send_digest`, and runs of calls.
use openring.Prelude.Yaml.{
  Value, null, flag, number, text, items, mapping, Items, nil, cons, Fields,
}
use openring.Prelude.{
  ℕ, ◌+◌, ◌%◌, String, Bool, true, false, not, ◌&&◌, Option, none, some, List, [], ◌∷◌, ◌++◌, ltb,
  beq, if◌then◌else◌, Dict, lookup, insert, ◌==◌,
}
use openring.Notifier.Digest.Settings.{Scheduler, configure, parse_time}

abbrev pub is_text : String → Value → Bool
is_text s (text t) = t == s
is_text s null = false
is_text s (flag b) = false
is_text s (number n) = false
is_text s (items l) = false
is_text s (mapping m) = false

abbrev any_text : Value → Bool
any_text (text t) = true
any_text null = false
any_text (flag b) = false
any_text (number n) = false
any_text (items l) = false
any_text (mapping m) = false

-- ", ".join(channels) does not raise.
abbrev pub all_texts : List Value → Bool
all_texts [] = true
all_texts (v ∷ l) = any_text v && all_texts l

abbrev pub has_any : List Value → Bool
has_any [] = false
has_any (_ ∷ _) = true

abbrev pub Report : Type 0
Report = Dict Value

-- What one tick meets: the clock, the report that `digest.generate` returns unless it raises, and
-- whether the dispatch returns.
pub record Tick : Type 0 where
  pub now : ℕ
  pub generated : Option Report
  pub dispatched : Bool

-- A call of the dispatch, on the local date, and whether it counts as sent.
pub record Attempt : Type 0 where
  pub date : ℕ
  pub report : Report
  pub sent : Bool

abbrev of_values : List Value → Items
of_values [] = nil
of_values (v ∷ l) = cons v (of_values l)

-- The report as it is dispatched; `none` where it has no `generated_at`. 1.0 is the number 1.
unfoldable pub addressed : List Value → Report → Option Report
addressed channels report =
    let report' = insert "camera_name" (text "_system") (
      insert "confidence" (number 1) (
        insert "class_name" (text "digest")
          (insert "actions_triggered" (items (of_values channels)) report))) in
    elim (lookup "generated_at" report') [
      | none ↦ none
      | some generated_at ↦
          some (insert "snapshot_path" null (insert "timestamp" generated_at report'))
    ]

abbrev pub and_then {ℓ} : {A B : Type ℓ} → Option A → (A → Option B) → Option B
and_then none f = none
and_then (some a) f = f a

-- The dispatch that `_send_digest` makes, if any. The log line after it joins the channels, which
-- raises where one is not a text, so that the digest then counts as not sent.
unfoldable pub send_digest : List Value → ℕ → Tick → Option Attempt
unfolding addressed
send_digest channels today t = and_then (and_then t.generated (addressed channels)) (λ report.
    some (record { date = today; report = report; sent = t.dispatched && all_texts channels }))

-- today.weekday(), which is 0 on Mondays, of an ordinal.
abbrev pub weekday : ℕ → ℕ
weekday date = (date + 6) % 7

abbrev was_sent : Option Attempt → Bool
was_sent none = false
was_sent (some a) = a.sent

abbrev attempts : Option Attempt → List Attempt
attempts none = []
attempts (some a) = a ∷ []

abbrev pub sent_on : Option ℕ → ℕ → Bool
sent_on none today = false
sent_on (some last) today = beq last today

unfoldable pub fire : Scheduler → ℕ → Tick → Scheduler × List Attempt
unfolding send_digest
fire s today t =
    let attempt = send_digest s.channels today t in
    (if was_sent attempt then record s { last_sent_date = some today } else s, attempts attempt)

-- Whether the tests after the parse of the time let the digest be sent.
unfoldable pub is_due : (ℕ → ℕ) → Scheduler → ℕ → ℕ × ℕ → Bool
is_due day s scheduled now =
    not (sent_on s.last_sent_date now.0)
    && not (is_text "weekly" s.frequency && not (beq (weekday now.0) 0))
    && not (is_text "monthly" s.frequency && not (beq (day now.0) 1))
    && not (ltb now.1 scheduled)

pub data Call : Type 0 where
  ticked : Tick → Call
  configured : Fields → String → Call

-- What ZoneInfo does for a name: it returns, raises ZoneInfoNotFoundError or KeyError, or raises
-- another error, as ValueError for a name that is an absolute path.
pub data ZoneResult (Z : Type 0) : Type 0 where
  found : Z → ZoneResult Z
  not_found : ZoneResult Z
  failed : ZoneResult Z

module _ {Z : Type 0} (zone : String → ZoneResult Z) (utc : Z) (local : Z → ℕ → ℕ × ℕ) (day : ℕ → ℕ)
    (int : String → Option ℕ) where
  -- ZoneInfo(tz_name), and UTC where there is none of the name; `none` where the error leaves `_tick`.
  unfoldable pub zone_or_utc : String → Option Z
  zone_or_utc name = elim (zone name) [ found z ↦ some z | not_found ↦ some utc | failed ↦ none ]

  -- The local date and the time of day.
  abbrev pub local_now : Z → Tick → ℕ × ℕ
  local_now z t = local z t.now

  -- `_tick` in the thread's loop, which an error ends.
  unfoldable pub tick : Scheduler → Tick → Scheduler × List Attempt
  unfolding zone_or_utc parse_time is_due fire
  tick s t =
      if s.alive && s.enabled && has_any s.channels
      then elim (zone_or_utc s.tz_name) [
        | none ↦ (record s { alive = false }, [])
        | some z ↦ elim (parse_time int s.time_str) [
          | none ↦ (record s { alive = false }, [])
          | some scheduled ↦
              if is_due day s scheduled (local_now z t) then fire s (local_now z t).0 t else (s, [])
        ]
      ]
      else (s, [])

  unfoldable pub call : Scheduler → Call → Scheduler × List Attempt
  unfolding tick configure
  call s (ticked t) = tick s t
  call s (configured report_cfg tz_name) = (configure s report_cfg tz_name, [])

  unfoldable pub run : Scheduler → List Call → Scheduler × List Attempt
  unfolding call
  run s [] = (s, [])
  run s (c ∷ cs) =
      let (s', now_made) = call s c in
      let (s'', later_made) = run s' cs in (s'', now_made ++ later_made)
