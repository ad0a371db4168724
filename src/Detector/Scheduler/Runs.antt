-- ===== src/Detector/Scheduler/Runs.antt =====
-- Each configured time is fired just once over a run of ticks.
use openring.Prelude.{
  ℕ, ◌+◌, ◌≤◌, ◌≡◌, refl, ap, sym, ◌∙◌, Bool, true, false, ◌&&◌, Option, List, [], ◌∷◌, arith,
}
use mathlib.Core.Path.{ap₂}
use openring.Detector.Scheduler.Base.{date, Scheduler, Tick, check_pending_rearm, tick, run}
use openring.Detector.Scheduler.Fired.{
  is_at, is_in, one_if, count_of, count-append, count-tick, OnDate, getter,
}

tick_keeps :
    (get_arm_time get_disarm_time : ℕ → Option ℕ) (s : Scheduler) (c : Tick)
    → ((tick get_arm_time get_disarm_time s c).1.enabled ≡ s.enabled)
      × ((tick get_arm_time get_disarm_time s c).1.last_tick ≡ c.now)
unfolding tick check_pending_rearm
tick_keeps get_arm_time get_disarm_time s c = ground arith

-- The readings of the clock do not go back.
abbrev pub IsOrdered : ℕ → List Tick → Type 0
IsOrdered last [] = Unit
IsOrdered last (c ∷ cs) = (last ≤ c.now) × IsOrdered c.now cs

-- The reading of the last tick.
abbrev pub last_now : ℕ → List Tick → ℕ
last_now last [] = last
last_now last (c ∷ cs) = last_now c.now cs

last_now-ge : (last : ℕ) (cs : List Tick) → IsOrdered last cs → last ≤ last_now last cs
last_now-ge last [] h = omega arith
last_now-ge last (c ∷ cs) h = omega (arith, last_now-ge c.now cs h.1)

is_in_split :
    (t a b z : ℕ) (x : Bool)
    → a ≤ b
    → b ≤ z
    → one_if (x && is_in t a b) + one_if (x && is_in t b z) ≡ one_if (x && is_in t a z)
is_in_split t a b z true h k = ground arith
is_in_split t a b z false h k = ground arith

is_in_empty : (t a : ℕ) (x : Bool) → one_if (x && is_in t a a) ≡ 0
is_in_empty t a true = ground arith
is_in_empty t a false = refl

module _ (get_arm_time get_disarm_time : ℕ → Option ℕ) (t : ℕ) (armed : Bool) where
  -- Whether `t` is the time that is configured for its date.
  abbrev pub is_configured : Bool
  is_configured = is_at (getter get_arm_time get_disarm_time armed (date t)) t

module _ (get_arm_time get_disarm_time : ℕ → Option ℕ) (t : ℕ) (armed : Bool)
    (on : OnDate (getter get_arm_time get_disarm_time armed)) where
  count-run_from :
      (s : Scheduler) (last : ℕ) (cs : List Tick)
      → s.enabled ≡ true
      → s.last_tick ≡ last
      → IsOrdered last cs
      → count_of t armed (run get_arm_time get_disarm_time s cs).0
        ≡ one_if
            (is_configured get_arm_time get_disarm_time t armed && is_in t last (last_now last cs))
  unfolding run
  count-run_from s last [] enabled here ordered =
      sym (is_in_empty t last (is_configured get_arm_time get_disarm_time t armed))
  count-run_from s last (c ∷ cs) enabled here ordered =
      let (fired, s') = tick get_arm_time get_disarm_time s c in
      let kept = tick_keeps get_arm_time get_disarm_time s c in
      let rest = count-run_from s' c.now cs (kept.0 ∙ enabled) kept.1 ordered.1 in
      let counted : count_of t armed fired
          ≡ one_if (is_configured get_arm_time get_disarm_time t armed && is_in t last c.now) =
        count-tick get_arm_time get_disarm_time t armed on s c enabled
        ∙ ap
            (λ from.
              one_if (is_configured get_arm_time get_disarm_time t armed && is_in t from c.now))
            here in
      count-append t armed fired (run get_arm_time get_disarm_time s' cs).0
      ∙ (ap₂ ◌+◌ counted rest
          ∙ is_in_split t last c.now (last_now c.now cs)
              (is_configured get_arm_time get_disarm_time t armed) ordered.0
              (last_now-ge c.now cs ordered.1))

  -- Where each configured time lies on its own date in UTC and the clock does not go back, the ticks
  -- of an enabled schedule fire the transition at `t` once where it is configured and lies after the
  -- tick before them and up to the last of them, and never otherwise.
  pub run_fires_once :
      (s : Scheduler) (cs : List Tick)
      → s.enabled ≡ true
      → IsOrdered s.last_tick cs
      → count_of t armed (run get_arm_time get_disarm_time s cs).0
        ≡ one_if (
            is_configured get_arm_time get_disarm_time t armed
            && is_in t s.last_tick (last_now s.last_tick cs))
  run_fires_once s cs enabled ordered = count-run_from s s.last_tick cs enabled refl ordered
