-- ===== src/Web/Lockout/Retained.antt =====
-- What the deletion of old attempts keeps.
use openring.Prelude.{
  ℕ, ◌+◌, ◌-◌, ◌*◌, ◌≤◌, ◌<◌, le→leb, String, Bool, true, false, ◌≡◌, ◌≢◌, refl, Option, List, [],
  ◌∷◌, ◌++◌, arith, min, All, length,
}
use openring.Web.Lockout.Base.{
  Attempt, failures, check_lockout, max_retained, new_attempt, attempts_of, trim, record_attempt,
}
use openring.Web.Lockout.Counts.{
  attempts_of-drop_oldest, failures-drop_oldest_other, failures-drop_oldest-le, attempts_of-append,
  attempts_of-one, failures-one, failures-one_other, failures-append,
}

module _ (as_ : List Attempt) (username : String) (ip : Option String) (success : Bool)
    (now : ℕ) where
  -- After an attempt is recorded, the table has one more row of its name than before, and at most
  -- 1000.
  pub attempts_of-record_attempt :
      attempts_of username (record_attempt as_ username ip success now)
      ≡ min (attempts_of username as_ + 1) max_retained
  unfolding record_attempt trim
  attempts_of-record_attempt =
      let a = new_attempt username ip success now in
      ground (
        arith,
        attempts_of-one a,
        attempts_of-append username as_ a,
        attempts_of-drop_oldest username (attempts_of username (as_ ++ a ∷ []) - max_retained)
            (as_ ++ a ∷ []),
      )

  -- An attempt under one name changes the lockout of no other.
  pub check_lockout-record_attempt_other :
      (other : String) (max_attempts lockout_minutes later : ℕ)
      → username ≢ other
      → check_lockout
          (record_attempt as_ username ip success now)
          other
          max_attempts
          lockout_minutes
          later
        ≡ check_lockout as_ other max_attempts lockout_minutes later
  unfolding check_lockout record_attempt trim
  check_lockout-record_attempt_other other max_attempts lockout_minutes later differ =
      let a = new_attempt username ip success now in
      let window = lockout_minutes * 60 in
      ground (
        arith,
        failures-append other window later as_ a,
        failures-one_other a other window later differ,
        failures-drop_oldest_other username other window later
            (attempts_of username (as_ ++ a ∷ []) - max_retained) (as_ ++ a ∷ []) differ,
      )

-- A failed login that is still in the window counts, except that the oldest of 1000 rows is lost.
failures-record_attempt :
    (as_ : List Attempt) (username : String) (ip : Option String) (at lockout now : ℕ)
    → now < at + lockout
    → attempts_of username as_ ≤ max_retained
    → failures username lockout now as_ + 1
      ≤ failures username lockout now (record_attempt as_ username ip false at)
        + (attempts_of username as_ + 1 - max_retained)
unfolding record_attempt trim
failures-record_attempt as_ username ip at lockout now recent bounded =
    let a = new_attempt username ip false at in
    ground (
      arith,
      attempts_of-one a,
      attempts_of-append username as_ a,
      failures-append username lockout now as_ a,
      failures-one a lockout now refl recent,
      failures-drop_oldest-le username lockout now
          (attempts_of username (as_ ++ a ∷ []) - max_retained) (as_ ++ a ∷ []),
    )

-- Where a name has at most 1000 rows and is locked out, it is still so, at the same time, with a
-- further failure that is in the window.
pub check_lockout-record_attempt :
    (as_ : List Attempt) (username : String) (ip : Option String)
    (at max_attempts lockout_minutes now : ℕ)
    → now < at + lockout_minutes * 60
    → attempts_of username as_ ≤ max_retained
    → check_lockout as_ username max_attempts lockout_minutes now ≡ true
    → check_lockout
        (record_attempt as_ username ip false at)
        username
        max_attempts
        lockout_minutes
        now
      ≡ true
unfolding check_lockout
check_lockout-record_attempt as_ username ip at max_attempts lockout_minutes now recent bounded
      locked =
    ground (
      arith,
      locked,
      failures-record_attempt as_ username ip at (lockout_minutes * 60) now recent bounded,
    )

-- Failed logins at these times, one after the other.
unfoldable pub record_failures : List Attempt → String → Option String → List ℕ → List Attempt
record_failures as_ username ip [] = as_
record_failures as_ username ip (at ∷ times) =
    record_failures (record_attempt as_ username ip false at) username ip times

failures-record_failures :
    (as_ : List Attempt) (username : String) (ip : Option String) (times : List ℕ) (lockout now : ℕ)
    → All (λ at. now < at + lockout) times
    → attempts_of username as_ + length times ≤ max_retained
    → failures username lockout now as_ + length times
      ≤ failures username lockout now (record_failures as_ username ip times)
unfolding record_failures
failures-record_failures as_ username ip [] lockout now recent bounded = omega arith
failures-record_failures as_ username ip (at ∷ times) lockout now recent bounded =
    let next = record_attempt as_ username ip false at in
    let counted = attempts_of-record_attempt as_ username ip false at in
    let fits : attempts_of username next + length times ≤ max_retained =
      omega (arith, counted, bounded) in
    omega (
      arith,
      bounded,
      failures-record_attempt as_ username ip at lockout now recent.0 (omega (arith, bounded)),
      failures-record_failures next username ip times lockout now recent.1 fits,
    )

-- A name that fails as often as is allowed, within the window, is locked out, where its rows are at
-- most 1000 with these failures, however often it succeeded before.
pub check_lockout-record_failures :
    (as_ : List Attempt) (username : String) (ip : Option String) (times : List ℕ)
    (max_attempts lockout_minutes now : ℕ)
    → All (λ at. now < at + lockout_minutes * 60) times
    → attempts_of username as_ + length times ≤ max_retained
    → max_attempts ≤ length times
    → check_lockout
        (record_failures as_ username ip times)
        username
        max_attempts
        lockout_minutes
        now
      ≡ true
unfolding check_lockout
check_lockout-record_failures as_ username ip times max_attempts lockout_minutes now recent bounded
      enough =
    le→leb _ _ (
      omega (
        arith,
        enough,
        failures-record_failures as_ username ip times (lockout_minutes * 60) now recent bounded,
      ))
