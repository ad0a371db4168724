-- ===== src/Web/Lockout/Base.antt =====
-- The attempts, `check_lockout` and `record_attempt`.
use openring.Prelude.{
  ℕ, ◌+◌, ◌-◌, ◌*◌, zero, suc, String, Bool, not, ◌&&◌, Option, List, [], ◌∷◌, ◌++◌, filter, length,
  ltb, leb, if◌then◌else◌, ◌==◌,
}

pub record Attempt : Type 0 where
  pub username : String
  pub ip_address : Option String
  pub success : Bool
  pub attempted_at : ℕ

-- SELECT COUNT(*) … WHERE username=? AND success=0 AND attempted_at > ?, where the cutoff is
-- `lockout` seconds before `now`
unfoldable pub failures : String → ℕ → ℕ → List Attempt → ℕ
failures username lockout now as_ = length (
    filter (λ a. a.username == username && (not a.success && ltb now (a.attempted_at + lockout)))
      as_)

unfoldable pub check_lockout : List Attempt → String → ℕ → ℕ → ℕ → Bool
unfolding failures
check_lockout as_ username max_attempts lockout_minutes now =
    leb max_attempts (failures username (lockout_minutes * 60) now as_)

abbrev pub new_attempt : String → Option String → Bool → ℕ → Attempt
new_attempt username ip success now = record {
  username = username;
  ip_address = ip;
  success = success;
  attempted_at = now;
}

abbrev pub max_retained : ℕ
max_retained = 1000

unfoldable pub attempts_of : String → List Attempt → ℕ
attempts_of username as_ = length (filter (λ a. a.username == username) as_)

-- Deletes the first `n` rows of the username: those whose id is not among the newest.
unfoldable pub drop_oldest : String → ℕ → List Attempt → List Attempt
drop_oldest username zero as_ = as_
drop_oldest username (suc n) [] = []
drop_oldest username (suc n) (a ∷ as_) =
    if a.username == username
    then drop_oldest username n as_
    else a ∷ drop_oldest username (suc n) as_

unfoldable pub trim : String → List Attempt → List Attempt
unfolding drop_oldest attempts_of
trim username as_ = drop_oldest username (attempts_of username as_ - max_retained) as_

unfoldable pub record_attempt : List Attempt → String → Option String → Bool → ℕ → List Attempt
unfolding trim
record_attempt as_ username ip success now =
    trim username (as_ ++ new_attempt username ip success now ∷ [])
