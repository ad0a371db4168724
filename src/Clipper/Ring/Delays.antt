-- ===== src/Clipper/Ring/Delays.antt =====
-- The delays of the supervisor in closed form.
use Prim.Native.Nat.{◌^◌}
use native.Mathlib.Nat.{pow-suc}
use openring.Prelude.{
  ℕ, suc, ◌*◌, min, ◌≡◌, ap, ◌∙◌, refl, inl, inr, List, [], ◌∷◌, leb, if◌then◌else◌, Bool-cases,
  arith,
}
use openring.Clipper.Ring.Base.{delay_after, delays, run_supervisor}

-- The delay after so many runs in a row that were not stable: two seconds doubled as often, and at
-- most thirty.
abbrev pub backoff : ℕ → ℕ → ℕ
backoff second failures = min (2 ^ failures * (2 * second)) (30 * second)

-- The delays after runs, the first of which follows `failures` of them that were not stable.
abbrev pub waits : ℕ → ℕ → List ℕ → List ℕ
waits second failures [] = []
waits second failures (run_seconds ∷ runs) =
    if leb (30 * second) run_seconds
    then 2 * second ∷ waits second 1 runs
    else backoff second failures ∷ waits second (suc failures) runs

double :
    (second failures : ℕ)
    → min (backoff second failures * 2) (30 * second) ≡ backoff second (suc failures)
double second failures =
    let product : 2 ^ suc failures * (2 * second) ≡ 2 * (2 ^ failures * (2 * second)) =
      rw (pow-suc 2 failures) (grind arith) in
    omega (arith, product)

once : (second : ℕ) → min (2 * second * 2) (30 * second) ≡ min (backoff second 0 * 2) (30 * second)
once second = omega arith

delays-eq :
    (second failures : ℕ) (runs : List ℕ)
    → delays second (backoff second failures) runs ≡ waits second failures runs
unfolding delays delay_after
delays-eq second failures [] = refl
delays-eq second failures (run_seconds ∷ runs) = elim (Bool-cases (leb (30 * second) run_seconds)) [
  | inl stable ↦ rw stable (
      ap (λ l. 2 * second ∷ l)
        (ap (λ d. delays second d runs) (once second ∙ double second 0) ∙ delays-eq second 1 runs))
  | inr short ↦ rw short (
      ap (λ l. backoff second failures ∷ l)
        (ap (λ d. delays second d runs) (double second failures)
          ∙ delays-eq second (suc failures) runs))
]

-- Over any runs of ffmpeg the supervisor waits two seconds after a stable run, and after any other one
-- two seconds doubled for each run before it since the last stable one, and at most thirty.
pub run_supervisor-eq-waits :
    (second : ℕ) (runs : List ℕ) → run_supervisor second runs ≡ waits second 0 runs
unfolding run_supervisor
run_supervisor-eq-waits second runs =
    ap (λ d. delays second d runs) (omega arith) ∙ delays-eq second 0 runs
