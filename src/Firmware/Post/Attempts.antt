-- ===== src/Firmware/Post/Attempts.antt =====
-- How many requests a post makes, how long it sleeps, and what it returns.
use openring.Prelude.{
  ℕ, zero, suc, ◌+◌, ◌*◌, ◌≤◌, min, ◌≡◌, refl, inl, inr, none, some, List, [], ◌∷◌, arith, length,
  All, Option-cases, subst,
}
use openring.Firmware.Post.Base.{Answer, final_status, Posted, returned, slept, attempts}

-- So many answers, from the one to the first attempt on, do not end the loop.
abbrev pub NoneFinal : (ℕ → Answer) → ℕ → ℕ → Type 0
NoneFinal answer first zero = Unit
NoneFinal answer first (suc n) =
    (final_status (answer first) ≡ none) × NoneFinal answer (first + 1) n

-- The first final answer, after `n` others, is returned; or there is none, and every attempt is made.
pub data Outcome (answer : ℕ → Answer) (left first : ℕ) (p : Posted) : Type 0 where
  answered :
      (n status : ℕ)
      → n ≤ left
      → NoneFinal answer first n
      → final_status (answer (first + n)) ≡ some status
      → p.response ≡ some status
      → p.requests ≡ n + 1
      → Outcome answer left first p
  exhausted :
      NoneFinal answer first (suc left)
      → p.response ≡ none
      → p.requests ≡ left + 1
      → Outcome answer left first p

Outcome-slept :
    (answer : ℕ → Answer) (left first delay : ℕ) (p : Posted)
    → final_status (answer first) ≡ none
    → Outcome answer left (first + 1) p
    → Outcome answer (suc left) first (slept delay p)
Outcome-slept answer left first delay p open_yet
      (answered n status few skipped final response requests) =
    let e : first + 1 + n ≡ first + suc n = omega arith in
    answered (suc n) status (omega arith) (open_yet, skipped)
      (subst (λ k. final_status (answer k) ≡ some status) e final) response (omega arith)
Outcome-slept answer left first delay p open_yet (exhausted skipped response requests) =
    exhausted (open_yet, skipped) response (omega arith)

Outcome-returned :
    (answer : ℕ → Answer) (left first status : ℕ)
    → final_status (answer first) ≡ some status
    → Outcome answer left first (returned status)
Outcome-returned answer left first status final =
    let e : first ≡ first + 0 = omega arith in
    answered 0 status (omega arith) tt (subst (λ k. final_status (answer k) ≡ some status) e final)
      refl (omega arith)

-- Whatever the host and the network answer, the loop ends within its attempts: it returns the first
-- answer that is a success or a client error, without a further request, and where there is none it
-- makes every attempt and returns nothing.
pub attempts-Outcome :
    (answer : ℕ → Answer) (left first delay : ℕ)
    → Outcome answer left first (attempts answer left first delay)
unfolding attempts
attempts-Outcome answer zero first delay = elim (Option-cases (final_status (answer first))) [
  | inl open_yet ↦ rw (open_yet, attempts) (exhausted (open_yet, tt) refl (omega arith))
  | inr (status, final) ↦ rw (final, attempts) (Outcome-returned answer zero first status final)
]
attempts-Outcome answer (suc left) first delay = elim (Option-cases (final_status (answer first))) [
  | inl open_yet ↦
      rw (open_yet, attempts)
        (Outcome-slept answer left first delay _ open_yet
          (attempts-Outcome answer left (first + 1) (min (delay * 2) 60)))
  | inr (status, final) ↦
      rw (final, attempts) (Outcome-returned answer (suc left) first status final)
]

abbrev pub total : List ℕ → ℕ
total [] = 0
total (t ∷ ts) = t + total ts

-- The sleeps of a post whose first delay is at most a minute: none is longer than a minute, and there
-- is one between any two requests and none after the last.
pub attempts_sleeps :
    (answer : ℕ → Answer) (left first delay : ℕ)
    → delay ≤ 60
    → let p = attempts answer left first delay in
      All (λ t. t ≤ 60) p.sleeps × (length p.sleeps + 1 ≡ p.requests)
unfolding attempts
attempts_sleeps answer zero first delay short = ground arith
attempts_sleeps answer (suc left) first delay short =
    let rest = attempts_sleeps answer left (first + 1) (min (delay * 2) 60) (omega arith) in
    elim (Option-cases (final_status (answer first))) [
      | inl open_yet ↦ rw (open_yet, attempts) ((short, rest.0), omega (arith, rest.1))
      | inr (status, final) ↦ rw (final, attempts) (tt, omega arith)
    ]
