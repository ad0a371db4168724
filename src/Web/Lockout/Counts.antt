-- ===== src/Web/Lockout/Counts.antt =====
-- How many rows and failures an insertion adds and a deletion takes.
use openring.Prelude.{
  ℕ, ◌+◌, ◌-◌, ◌≤◌, ◌<◌, zero, suc, String, false, ◌≡◌, ◌≢◌, refl, List, [], ◌∷◌, ◌++◌, arith,
  eq_iff, eq_refl,
}
use openring.Web.Lockout.Base.{Attempt, failures, attempts_of, drop_oldest}

pub attempts_of-drop_oldest :
    (username : String) (n : ℕ) (as_ : List Attempt)
    → attempts_of username (drop_oldest username n as_) ≡ attempts_of username as_ - n
unfolding attempts_of drop_oldest
attempts_of-drop_oldest username zero as_ = omega arith
attempts_of-drop_oldest username (suc n) [] = omega arith
attempts_of-drop_oldest username (suc n) (a ∷ as_) =
    ground
      (arith, attempts_of-drop_oldest username n as_, attempts_of-drop_oldest username (suc n) as_)

-- Rows of other names stay, in number and kind.
pub failures-drop_oldest_other :
    (username other : String) (lockout now n : ℕ) (as_ : List Attempt)
    → username ≢ other
    → failures other lockout now (drop_oldest username n as_) ≡ failures other lockout now as_
unfolding failures drop_oldest
failures-drop_oldest_other username other lockout now zero as_ differ = refl
failures-drop_oldest_other username other lockout now (suc n) [] differ = refl
failures-drop_oldest_other username other lockout now (suc n) (a ∷ as_) differ = ground (
  arith,
  eq_iff a.username username,
  eq_iff a.username other,
  failures-drop_oldest_other username other lockout now n as_ differ,
  failures-drop_oldest_other username other lockout now (suc n) as_ differ,
)

-- At most as many failures go as rows.
pub failures-drop_oldest-le :
    (username : String) (lockout now n : ℕ) (as_ : List Attempt)
    → failures username lockout now as_
      ≤ failures username lockout now (drop_oldest username n as_) + n
unfolding failures drop_oldest
failures-drop_oldest-le username lockout now zero as_ = omega arith
failures-drop_oldest-le username lockout now (suc n) [] = omega arith
failures-drop_oldest-le username lockout now (suc n) (a ∷ as_) = ground (
  arith,
  failures-drop_oldest-le username lockout now n as_,
  failures-drop_oldest-le username lockout now (suc n) as_,
)

pub attempts_of-append :
    (username : String) (as_ : List Attempt) (a : Attempt)
    → attempts_of username (as_ ++ a ∷ [])
      ≡ attempts_of username as_ + attempts_of username (a ∷ [])
unfolding attempts_of
attempts_of-append username [] a = omega arith
attempts_of-append username (b ∷ as_) a = ground (arith, attempts_of-append username as_ a)

pub attempts_of-one : (a : Attempt) → attempts_of a.username (a ∷ []) ≡ 1
unfolding attempts_of
attempts_of-one a = ground (arith, eq_refl a.username)

pub failures-one :
    (a : Attempt) (lockout now : ℕ)
    → a.success ≡ false
    → now < a.attempted_at + lockout
    → failures a.username lockout now (a ∷ []) ≡ 1
unfolding failures
failures-one a lockout now failed recent = ground (arith, failed, recent, eq_refl a.username)

pub failures-one_other :
    (a : Attempt) (other : String) (lockout now : ℕ)
    → a.username ≢ other
    → failures other lockout now (a ∷ []) ≡ 0
unfolding failures
failures-one_other a other lockout now differ = ground (arith, differ, eq_iff a.username other)

pub failures-append :
    (username : String) (lockout now : ℕ) (as_ : List Attempt) (a : Attempt)
    → failures username lockout now (as_ ++ a ∷ [])
      ≡ failures username lockout now as_ + failures username lockout now (a ∷ [])
unfolding failures
failures-append username lockout now [] a = omega arith
failures-append username lockout now (b ∷ as_) a =
    ground (arith, failures-append username lockout now as_ a)
