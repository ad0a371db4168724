-- ===== src/Detector/Scheduler/Base.antt =====
-- `transitions_between`, `next_transition_after`, and the tick of the scheduler.
use openring.Prelude.{
  ℕ, zero, suc, ◌+◌, ◌-◌, ◌/◌, Bool, true, false, not, ◌&&◌, ◌||◌, Option, none, some, List, [],
  ◌∷◌, ◌++◌, ltb, leb, if◌then◌else◌,
}

abbrev pub day : ℕ
day = 86400

-- t.date()
abbrev pub date : ℕ → ℕ
date t = t / 86400

-- A time, and whether it arms or disarms.
abbrev pub Transition : Type 0
Transition = ℕ × Bool

-- list.sort(key=λ x. x[0]), which is stable.
unfoldable pub insert_by_time : Transition → List Transition → List Transition
insert_by_time x [] = x ∷ []
insert_by_time x (y ∷ l) = if leb x.0 y.0 then x ∷ y ∷ l else y ∷ insert_by_time x l

unfoldable pub sort_by_time : List Transition → List Transition
unfolding insert_by_time
sort_by_time [] = []
sort_by_time (x ∷ l) = insert_by_time x (sort_by_time l)

unfoldable pub candidate : ℕ → ℕ → Bool → Option ℕ → List Transition
candidate start end armed none = []
candidate start end armed (some t) = if ltb start t && leb t end then (t, armed) ∷ [] else []

unfoldable pub candidate_after : ℕ → Bool → Option ℕ → List Transition
candidate_after after armed none = []
candidate_after after armed (some t) = if ltb after t then (t, armed) ∷ [] else []

abbrev pub head_or {ℓ} : {A : Type ℓ} → Option A → List A → Option A
head_or otherwise [] = otherwise
head_or otherwise (x ∷ _) = some x

module _ (get_arm_time get_disarm_time : ℕ → Option ℕ) where
  -- The body of the loop over the dates.
  unfoldable pub of_date : ℕ → ℕ → ℕ → List Transition
  unfolding candidate
  of_date start end d =
      candidate start end true (get_arm_time d) ++ candidate start end false (get_disarm_time d)

  unfoldable pub of_dates : ℕ → ℕ → ℕ → ℕ → List Transition
  unfolding of_date
  of_dates start end zero d = []
  of_dates start end (suc n) d = of_date start end d ++ of_dates start end n (d + 1)

  unfoldable pub transitions_between : ℕ → ℕ → List Transition
  unfolding of_dates sort_by_time
  transitions_between start end =
      sort_by_time (of_dates start end (date end + 1 - date start) (date start))

  unfoldable pub next_from : ℕ → ℕ → ℕ → Option Transition
  unfolding candidate_after sort_by_time
  next_from after zero d = none
  next_from after (suc n) d = head_or (next_from after n (d + 1)) (
      sort_by_time (
        candidate_after after true (get_arm_time d)
        ++ candidate_after after false (get_disarm_time d)))

  unfoldable pub next_transition_after : ℕ → Option Transition
  unfolding next_from
  next_transition_after after = next_from after 3 (date after)

pub record Scheduler : Type 0 where
  pub enabled : Bool
  pub armed : Bool
  pub last_tick : ℕ
  -- The value of openring:rearm_at in Redis.
  pub rearm_at : Option ℕ

-- The readings of the clock in a tick, and whether Redis answers.
pub record Tick : Type 0 where
  pub now : ℕ
  pub rearm_now : ℕ
  pub allow_now : ℕ
  pub redis_up : Bool

-- The last of the items that a loop sets.
abbrev pub armed_after : Bool → List Transition → Bool
armed_after armed [] = armed
armed_after armed ((t, target) ∷ l) = armed_after target l

module _ (get_arm_time get_disarm_time : ℕ → Option ℕ) where
  unfoldable pub schedule_allows_rearm : Scheduler → ℕ → Bool
  unfolding transitions_between
  schedule_allows_rearm s now =
      if s.enabled
      then armed_after true (transitions_between get_arm_time get_disarm_time (now - day) now)
      else true

  unfoldable pub check_pending_rearm : Scheduler → Tick → Scheduler
  unfolding schedule_allows_rearm
  check_pending_rearm s c = elim s.rearm_at [
    | none ↦ s
    | some rearm_time ↦ if not c.redis_up || ltb c.rearm_now rearm_time then s else record s {
      rearm_at = none;
      armed = if schedule_allows_rearm s c.allow_now then true else s.armed;
    }
  ]

  -- The transitions that a tick fires, and the state after it.
  unfoldable pub tick : Scheduler → Tick → List Transition × Scheduler
  unfolding transitions_between check_pending_rearm
  tick s c =
      let fired =
        if s.enabled
        then transitions_between get_arm_time get_disarm_time s.last_tick c.now
        else [] in
      (
        fired,
        check_pending_rearm (record s { last_tick = c.now; armed = armed_after s.armed fired }) c,
      )

  unfoldable pub run : Scheduler → List Tick → List Transition × Scheduler
  run s [] = ([], s)
  run s (c ∷ cs) =
      let (fired, s') = tick s c in let (later, last) = run s' cs in (fired ++ later, last)
