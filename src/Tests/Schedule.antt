-- ===== src/Tests/Schedule.antt =====
-- The arm scheduler, the lock and the cooldown on concrete inputs.
use mathlib.Core.List.{Sublist}
use openring.Prelude.{
  ℕ, ◌+◌, ◌*◌, ◌≤◌, ◌≡◌, ◌⊎◌, refl, String, true, false, Option, none, some, List, [], ◌∷◌, map,
  ◌&&◌, lookup, insert, arith,
}
use openring.Detector.Scheduler
use openring.Detector.Scheduler.{date, Tick, Transition}
use openring.Detector.Scheduler.Fired.{count_of, one_if, is_in, OnDate}
use openring.Detector.Scheduler.Runs.{is_configured, last_now, run_fires_once}
use openring.Detector.Scheduler.Missed.{OtherDate}
use openring.Detector.FairLock
use openring.Detector.FairLock.{Lock, Run, start, later}
use openring.Detector.FairLock.Exclusion.{IsFair, Run-exclusive}
use openring.Detector.FairLock.Fifo.{Run_in_order}
use openring.Detector.Events
use openring.Detector.Events.{Call, Event, Stamp, Detection, Processor}
use openring.Detector.Events.Spaced.{IsSpaced, run-IsSpaced}

-- Every day at 22:00 and at 6:30 in UTC.
abbrev arm_time : ℕ → Option ℕ
arm_time d = some (d * 86400 + 79200)

abbrev disarm_time : ℕ → Option ℕ
disarm_time d = some (d * 86400 + 23400)

arm_time-OnDate : OnDate arm_time
arm_time-OnDate d t h = ground arith

abbrev evening : Scheduler.Scheduler
evening = record { enabled = true; armed = false; last_tick = 79190; rearm_at = some 80000 }

-- A tick at which every reading of the clock is the same.
abbrev tick_at : ℕ → Tick
tick_at now = record { now = now; rearm_now = now; allow_now = now; redis_up = true }

abbrev night : List Tick
night = tick_at 79200 ∷ tick_at 79260 ∷ tick_at 109810 ∷ []

night_fired : Scheduler.run arm_time disarm_time evening night ≡ (
  (79200, true) ∷ (109800, false) ∷ [],
  record { enabled = true; armed = false; last_tick = 109810; rearm_at = none },
)
unfolding Scheduler.run Scheduler.tick
night_fired = refl

run_fires_once_example :
    count_of 79200 true (Scheduler.run arm_time disarm_time evening night).0
    ≡ one_if (
        is_configured arm_time disarm_time 79200 true
        && is_in 79200 evening.last_tick (last_now evening.last_tick night))
run_fires_once_example =
    run_fires_once arm_time disarm_time 79200 true arm_time-OnDate evening night refl
      (omega arith, (omega arith, (omega arith, tt)))

-- 22:00 and 23:00, eight hours behind UTC.
abbrev late_arm : ℕ → Option ℕ
late_arm d = some (d * 86400 + 108000)

abbrev late_disarm : ℕ → Option ℕ
late_disarm d = some (d * 86400 + 111600)

late_arm-OtherDate : OtherDate late_arm
late_arm-OtherDate d t h same = let e : d * 86400 + 108000 ≡ t = ground arith in omega arith

late_disarm-OtherDate : OtherDate late_disarm
late_disarm-OtherDate d t h same = let e : d * 86400 + 111600 ≡ t = ground arith in omega arith

-- The first call returns, two calls queue, the second times out, and the third is handed the lock.
handed_on :
    Run FairLock.fresh_lock
      (1 ∷ 2 ∷ 3 ∷ [])
      (1 ∷ 3 ∷ [])
      (record { held = true; queue = []; signalled = 3 ∷ []; owners = [] })
unfolding FairLock.fresh_lock FairLock.enter FairLock.return_from_wait FairLock.time_out
    FairLock.release FairLock.contains FairLock.remove
handed_on =
    later
      (later
        (later
          (later
            (later (later start (FairLock.entered_free FairLock.fresh_lock 1 refl))
              (FairLock.woken _ 1 refl))
            (FairLock.entered_busy _ 2 refl))
          (FairLock.entered_busy _ 3 refl))
        (FairLock.timed_out _ 2))
      (FairLock.released _ 1 3 [] refl refl)

fresh_lock-IsFair : IsFair FairLock.fresh_lock
unfolding FairLock.fresh_lock
fresh_lock-IsFair = record { one_holder = refl; none_waits = λ free. refl }

Run-exclusive_example : (0 ≤ 1) × (◌≡◌ {A = List ℕ} [] [] ⊎ ◌≡◌ {A = ℕ} 1 1)
Run-exclusive_example = Run-exclusive handed_on

Run_in_order_example : Sublist {A = ℕ} (1 ∷ 3 ∷ []) (1 ∷ 2 ∷ 3 ∷ [])
unfolding FairLock.fresh_lock
Run_in_order_example = Run_in_order fresh_lock-IsFair handed_on

abbrev stamp : Stamp
stamp = record {
  timestamp = "2026-05-01T22:00:00+00:00";
  snapshot_path = none;
  feedback_token = "f0";
  inserted = true;
}

abbrev cat : Detection ℕ
cat = record { class_name = "cat"; detail = 90; stamp = stamp }

abbrev person : Detection ℕ
person = record { class_name = "person"; detail = 70; stamp = stamp }

abbrev call_at : ℕ → Call
call_at now = record {
  now = now;
  camera_name = "porch";
  actions_by_class = some (("person", "phone" ∷ []) ∷ []);
  groups_by_class = none;
}

abbrev idle : Processor ℕ
idle = record { last_event = []; detection_events = [] }

abbrev frames : List (Call × Detection ℕ)
frames =
    (call_at 100, cat)
    ∷ (call_at 100, cat)
    ∷ (call_at 120, person)
    ∷ (call_at 129, cat)
    ∷ (call_at 130, cat)
    ∷ []

abbrev shown : ℕ × Event ℕ → ℕ × String × Option (List String)
shown (now, e) = (now, e.class_name, e.actions_triggered)

frames_kept :
    map shown (Events.run 30 idle frames).0
    ≡ (100, "cat", none) ∷ (120, "person", some ("phone" ∷ [])) ∷ (130, "cat", none) ∷ []
unfolding Events.run Events.process_one lookup insert
frames_kept = refl

run-IsSpaced_example : IsSpaced 30 (Events.run 30 idle frames).0
run-IsSpaced_example = run-IsSpaced 30 idle frames

-- Before the clock has run for a cooldown, a first detection is taken for a repetition.
just_booted : (Events.run 30 idle ((call_at 20, person) ∷ [])).0 ≡ []
unfolding Events.run Events.process_one lookup
just_booted = refl
