-- ===== src/Notifier/Queue/Backoff.antt =====
-- The retry delays.
use openring.Prelude.{ℕ, zero, suc, ◌*◌, ◌≤◌, ◌≡◌, min, arith}
use Prim.Native.Nat.{◌^◌}
use native.Mathlib.Nat.{pow-suc}
use openring.Notifier.Queue.Base.{backoff}

one-le-pow : (n : ℕ) → 1 ≤ 2 ^ n
one-le-pow zero = omega arith
one-le-pow (suc n) = omega (arith, one-le-pow n, pow-suc 2 n)

cap_reached : (n : ℕ) → 20 ≤ 2 ^ suc (suc (suc (suc (suc n))))
cap_reached n = omega (
  arith,
  one-le-pow n,
  pow-suc 2 n,
  pow-suc 2 (suc n),
  pow-suc 2 (suc (suc n)),
  pow-suc 2 (suc (suc (suc n))),
  pow-suc 2 (suc (suc (suc (suc n)))),
)

-- For every number of attempts the delay is thirty seconds doubled as often, and at most 600.
pub backoff-eq-min : (attempt : ℕ) → backoff attempt ≡ min (30 * 2 ^ attempt) 600
unfolding backoff
backoff-eq-min zero = ground arith
backoff-eq-min (suc zero) = ground arith
backoff-eq-min (suc (suc zero)) = ground arith
backoff-eq-min (suc (suc (suc zero))) = ground arith
backoff-eq-min (suc (suc (suc (suc zero)))) = ground arith
backoff-eq-min (suc (suc (suc (suc (suc n))))) = ground (arith, cap_reached n)

pub one-le-backoff : (attempt : ℕ) → 1 ≤ backoff attempt
one-le-backoff n = omega (arith, backoff-eq-min n, one-le-pow n)
