-- ===== src/Detector/Scheduler/Missed.antt =====
-- A schedule in a time zone far from UTC.
use openring.Prelude.{
  ℕ, zero, suc, ◌+◌, ◌-◌, ◌≡◌, ◌≢◌, refl, ap, inl, inr, Bool, true, false, Option, some,
  Option-cases, [], arith,
}
use openring.Detector.Scheduler.Base.{
  date, candidate, of_date, of_dates, sort_by_time, transitions_between,
}

-- Each time that is given for a date lies on another date in UTC.
abbrev pub OtherDate : (ℕ → Option ℕ) → Type 0
OtherDate get = (d t : ℕ) → get d ≡ some t → date t ≢ d

candidate_missed :
    (start end : ℕ) (armed : Bool) (get : ℕ → Option ℕ)
    → OtherDate get
    → date start ≡ date end
    → candidate start end armed (get (date start)) ≡ []
unfolding candidate
candidate_missed start end armed get other same = elim (Option-cases (get (date start))) [
  | inl absent ↦ rw absent
  | inr (t, found) ↦ rw found (ground (arith, other (date start) t found))
]

module _ (get_arm_time get_disarm_time : ℕ → Option ℕ) where
  of_dates_one :
      (start end d n : ℕ)
      → n ≡ 1
      → of_date get_arm_time get_disarm_time start end d ≡ []
      → of_dates get_arm_time get_disarm_time start end n d ≡ []
  unfolding of_dates
  of_dates_one start end d zero one h = refl
  of_dates_one start end d (suc zero) one h = rw h
  of_dates_one start end d (suc (suc n)) one h = absurd (omega arith)

  -- Where the configured times of a date all lie on another date in UTC, as they do in a time zone
  -- far from it, an interval within one date of UTC has no transition, though a configured time may
  -- lie in it.
  pub transitions_between_missed :
      (start end : ℕ)
      → OtherDate get_arm_time
      → OtherDate get_disarm_time
      → date start ≡ date end
      → transitions_between get_arm_time get_disarm_time start end ≡ []
  unfolding transitions_between of_date
  transitions_between_missed start end arms disarms same = ap sort_by_time (
      of_dates_one start end (date start) (date end + 1 - date start) (omega arith) (
        ground (
          arith,
          candidate_missed start end true get_arm_time arms same,
          candidate_missed start end false get_disarm_time disarms same,
        )))
