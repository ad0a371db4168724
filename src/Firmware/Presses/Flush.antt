-- ===== src/Firmware/Presses/Flush.antt =====
-- A flush ends, and it leaves the presses from the first one on that the host did not settle.
use openring.Prelude.{
  ℕ, zero, suc, ◌+◌, ◌≤◌, ◌<◌, Bool, true, false, ◌≡◌, refl, ap, ◌∙◌, inl, inr, Option, some, List,
  [], ◌∷◌, length, arith, Bool-cases, eq_refl, if◌then◌else◌,
}
use openring.Firmware.Presses.Base.{
  Press, same_press, Store, save, pop_if_first, discard, is_settled, flush_queue, flush,
}

-- The presses from the first one on whose request is not settled, the first request being the n-th.
abbrev pub unsettled : (ℕ → Press → Option ℕ) → ℕ → List Press → List Press
unsettled post n [] = []
unsettled post n (p ∷ q) =
    let rest = unsettled post (n + 1) q in if is_settled (post n p) then rest else p ∷ q

popped : (p : Press) (q : List Press) (s : Store) → s.queue ≡ p ∷ q → pop_if_first p s.queue ≡ q
unfolding pop_if_first same_press
popped p q s first =
    ap (pop_if_first p) first ∙ ground (arith, eq_refl p.timestamp, eq_refl p.device_id)

discard-queue :
    (written : Bool) (p : Press) (q : List Press) (s : Store)
    → s.queue ≡ p ∷ q
    → (discard written p s).queue ≡ q
unfolding discard save
discard-queue written p q s first = elim (Bool-cases written) [
  | inl done ↦ rw done (popped p q s first)
  | inr lost ↦ rw lost (popped p q s first)
]

module _ (post : ℕ → Press → Option ℕ) (written : Bool) where
  flush_again :
      (fuel : ℕ) (s : Store) (n : ℕ) (p : Press) (q : List Press)
      → s.queue ≡ p ∷ q
      → is_settled (post n p) ≡ true
      → flush post written (suc fuel) s n ≡ flush post written fuel (discard written p s) (n + 1)
  unfolding flush flush_queue
  flush_again fuel s n p q e done =
      ap (flush_queue (flush post written fuel) post written n s) e ∙ rw (done, flush_queue) refl

  flush_stops :
      (fuel : ℕ) (s : Store) (n : ℕ) (p : Press) (q : List Press)
      → s.queue ≡ p ∷ q
      → is_settled (post n p) ≡ false
      → flush post written (suc fuel) s n ≡ some (s, n + 1)
  unfolding flush flush_queue
  flush_stops fuel s n p q e undone =
      ap (flush_queue (flush post written fuel) post written n s) e ∙ rw (undone, flush_queue) refl

  flush_empty :
      (fuel : ℕ) (s : Store) (n : ℕ)
      → s.queue ≡ []
      → flush post written (suc fuel) s n ≡ some (s, n)
  unfolding flush flush_queue
  flush_empty fuel s n e = ap (flush_queue (flush post written fuel) post written n s) e

  flush_from :
      (fuel : ℕ) (s : Store) (n : ℕ) (q : List Press)
      → s.queue ≡ q
      → length q < fuel
      → (s' : Store) × (n' : ℕ) × (flush post written fuel s n ≡ some (s', n'))
        × (s'.queue ≡ unsettled post n q)
        × (n' ≤ n + length q)
  flush_from zero s n q e enough = absurd (omega arith)
  flush_from (suc fuel) s n [] e enough = (s, n, flush_empty fuel s n e, e, omega arith)
  flush_from (suc fuel) s n (p ∷ q) e enough = elim (Bool-cases (is_settled (post n p))) [
    | inl done ↦
        let (s', n', ended, left, few) =
          flush_from fuel (discard written p s) (n + 1) q (discard-queue written p q s e)
            (omega (arith, enough)) in
        (s', n', flush_again fuel s n p q e done ∙ ended, left ∙ rw done refl, omega (arith, few))
    | inr undone ↦ (s, n + 1, flush_stops fuel s n p q e undone, e ∙ rw undone refl, omega arith)
  ]

  -- With more fuel than presses wait a flush that runs alone ends, after at most one request for each
  -- press, and it leaves the presses from the first one on whose request gets no final response.
  pub flush_ends :
      (fuel : ℕ) (s : Store) (n : ℕ)
      → length s.queue < fuel
      → (s' : Store) × (n' : ℕ) × (flush post written fuel s n ≡ some (s', n'))
        × (s'.queue ≡ unsettled post n s.queue)
        × (n' ≤ n + length s.queue)
  flush_ends fuel s n enough = flush_from fuel s n s.queue refl enough
