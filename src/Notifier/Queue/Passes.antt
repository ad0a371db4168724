-- ===== src/Notifier/Queue/Passes.antt =====
-- What a retry pass leaves in the queue.
use openring.Prelude.{
  ℕ, ◌+◌, ◌≤◌, ◌<◌, ◌≡◌, ◌⊎◌, refl, ap, ◌∙◌, Bool, true, false, ◌≢◌, inl, inr, Bool-cases, none,
  some, List, [], ◌∷◌, filter, is_empty, leb, arith, if◌then◌else◌, Dict, lookup, Option-cases, All,
  eq_iff,
}
use openring.Notifier.Queue.Base.{
  QueueEntry, Notifier, Queue, save, visit, remove, remove_all, same_entry, to_remove, process_due,
  visited_entries, try_entry, index_notifiers,
}
use openring.Notifier.Queue.Backoff.{one-le-backoff}

-- The entries that the pass keeps, in order.
abbrev pub kept : {E : Type 0} → List (QueueEntry E × Bool) → List (QueueEntry E)
kept [] = []
kept ((e, done) ∷ r) = let rest = kept r in if done then rest else e ∷ rest

-- A visited entry joins `to_remove` only if it is still due and its channel is active.
abbrev Marked : {E : Type 0} → ℕ → Dict Notifier → QueueEntry E × Bool → Type 0
Marked now targets (e, true) = (e.next_retry ≤ now) × (lookup e.notifier_type targets ≢ none)
Marked now targets (e, false) = (now < e.next_retry) ⊎ (lookup e.notifier_type targets ≡ none)

module _ {E : Type 0} (send : ℕ → Notifier → E → Bool) where
  try_entry-Marked :
      (now i : ℕ) (targets : Dict Notifier) (target : Notifier) (e : QueueEntry E)
      → leb e.next_retry now ≡ true
      → lookup e.notifier_type targets ≡ some target
      → Marked now targets (try_entry send now i target e)
  unfolding try_entry
  try_entry-Marked now i targets target e due found = ground (arith, one-le-backoff (e.attempt + 1))

  module _ (now : ℕ) (targets : Dict Notifier) (i : ℕ) (e : QueueEntry E)
      (es : List (QueueEntry E)) where
    visit-early :
        leb e.next_retry now ≡ false
        → visit send now targets i (e ∷ es) ≡ (e, false) ∷ visit send now targets i es
    unfolding visit
    visit-early h = ground arith

    visit-absent :
        leb e.next_retry now ≡ true
        → lookup e.notifier_type targets ≡ none
        → visit send now targets i (e ∷ es) ≡ (e, false) ∷ visit send now targets i es
    unfolding visit
    visit-absent h k = ground arith

    visit-found :
        (target : Notifier)
        → leb e.next_retry now ≡ true
        → lookup e.notifier_type targets ≡ some target
        → visit send now targets i (e ∷ es)
          ≡ try_entry send now i target e ∷ visit send now targets (i + 1) es
    unfolding visit
    visit-found target h k = ground arith

  visit-Marked :
      (now : ℕ) (targets : Dict Notifier) (i : ℕ) (es : List (QueueEntry E))
      → All (Marked now targets) (visit send now targets i es)
  unfolding visit
  visit-Marked now targets i [] = tt
  visit-Marked now targets i (e ∷ es) =
      let rest = visit-Marked now targets i es in
      elim (Bool-cases (leb e.next_retry now)) [
        | inl due ↦ elim (Option-cases (lookup e.notifier_type targets)) [
          | inl absent ↦ rw (visit-absent now targets i e es due absent) (inr absent, rest)
          | inr (target, found) ↦ rw (visit-found now targets i e es target due found) (
            try_entry-Marked now i targets target e due found,
            visit-Marked now targets (i + 1) es,
          )
        ]
        | inr early ↦ rw (visit-early now targets i e es early) (inl (ground arith), rest)
      ]

  kept-visit_none_due :
      (now : ℕ) (targets : Dict Notifier) (i : ℕ) (es : List (QueueEntry E))
      → is_empty (filter (λ e. leb e.next_retry now) es) ≡ true
      → kept (visit send now targets i es) ≡ es
  unfolding visit
  kept-visit_none_due now targets i [] h = refl
  kept-visit_none_due now targets i (e ∷ es) h =
      ground (arith, kept-visit_none_due now targets i es)

-- What is true of every entry that stays: its retry lies in the future, or its channel is gone.
abbrev pub Settled : {E : Type 0} → ℕ → Dict Notifier → QueueEntry E → Type 0
Settled now targets e = (now < e.next_retry) ⊎ (lookup e.notifier_type targets ≡ none)

kept-Settled :
    {E : Type 0} (now : ℕ) (targets : Dict Notifier) (vs : List (QueueEntry E × Bool))
    → All (Marked now targets) vs
    → All (Settled now targets) (kept vs)
kept-Settled now targets [] h = tt
kept-Settled now targets ((e, true) ∷ vs) h = kept-Settled now targets vs h.1
kept-Settled now targets ((e, false) ∷ vs) h = (h.0, kept-Settled now targets vs h.1)

module _ {E : Type 0} (same : E → E → Bool) where
  same_entry-fields :
      (a b : QueueEntry E)
      → same_entry same a b ≡ true
      → (a.notifier_type ≡ b.notifier_type) × (a.next_retry ≡ b.next_retry)
  unfolding same_entry
  same_entry-fields a b h = ground (arith, eq_iff a.notifier_type b.notifier_type)

  remove_all-skip :
      (e : QueueEntry E) (rs es : List (QueueEntry E))
      → All (λ a. same_entry same e a ≡ false) rs
      → remove_all same rs (e ∷ es) ≡ e ∷ remove_all same rs es
  unfolding remove_all remove
  remove_all-skip e [] es h = refl
  remove_all-skip e (a ∷ rs) es h = rw h.0 (remove_all-skip e rs (remove same a es) h.1)

  -- An entry that stays equals none that is removed.
  other_removed :
      (now : ℕ) (targets : Dict Notifier) (e : QueueEntry E) (vs : List (QueueEntry E × Bool))
      → Marked now targets (e, false)
      → All (Marked now targets) vs
      → All (λ a. same_entry same e a ≡ false) (to_remove vs)
  unfolding to_remove
  other_removed now targets e [] m h = tt
  other_removed now targets e ((a, false) ∷ vs) m h = other_removed now targets e vs m h.1
  other_removed now targets e ((a, true) ∷ vs) m h =
      (differ (same_entry same e a) refl, other_removed now targets e vs m h.1)
    where
      differ : (b : Bool) → same_entry same e a ≡ b → b ≡ false
      differ false p = refl
      differ true p = ground (arith, same_entry-fields e a p)

  module _ (same_refl : (a : E) → same a a ≡ true) where
    same_entry_refl : (a : QueueEntry E) → same_entry same a a ≡ true
    unfolding same_entry
    same_entry_refl a = ground (arith, same_refl a.event, eq_iff a.notifier_type a.notifier_type)

    remove_head : (e : QueueEntry E) (es : List (QueueEntry E)) → remove same e (e ∷ es) ≡ es
    unfolding remove
    remove_head e es = rw (same_entry_refl e)

    remove_all-eq-kept :
        (now : ℕ) (targets : Dict Notifier) (vs : List (QueueEntry E × Bool))
        → All (Marked now targets) vs
        → remove_all same (to_remove vs) (visited_entries vs) ≡ kept vs
    unfolding remove_all to_remove
    remove_all-eq-kept now targets [] h = refl
    remove_all-eq-kept now targets ((e, true) ∷ vs) h =
        ap (remove_all same (to_remove vs)) (remove_head e (visited_entries vs))
        ∙ remove_all-eq-kept now targets vs h.1
    remove_all-eq-kept now targets ((e, false) ∷ vs) h =
        remove_all-skip e (to_remove vs) (visited_entries vs)
          (other_removed now targets e vs h.0 h.1)
        ∙ ap (◌∷◌ e) (remove_all-eq-kept now targets vs h.1)

    module _ (send : ℕ → Notifier → E → Bool) (written : Bool) where
      -- Where equality of events is reflexive, a retry pass removes just the entries that its loop
      -- marked, though `remove` goes by equality and takes the first match; and every entry that
      -- stays has its next retry in the future or no active channel.
      pub process_due-Settled :
          (q : Queue E) (notifiers : List Notifier) (now : ℕ)
          → let targets = index_notifiers [] notifiers in
            let q' = process_due send same written q notifiers now in
            (q'.entries ≡ kept (visit send now targets 0 q.entries))
            × All (Settled now targets) q'.entries
      unfolding process_due save
      process_due-Settled q notifiers now =
          let targets = index_notifiers [] notifiers in
          let q' = process_due send same written q notifiers now in
          let marked = visit-Marked send now targets 0 q.entries in
          let settled = kept-Settled now targets (visit send now targets 0 q.entries) marked in
          let e : q'.entries ≡ kept (visit send now targets 0 q.entries) = ground (
            arith,
            remove_all-eq-kept now targets (visit send now targets 0 q.entries) marked,
            kept-visit_none_due send now targets 0 q.entries,
          ) in
          (e, rw e settled)
