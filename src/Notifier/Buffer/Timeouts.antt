-- ===== src/Notifier/Buffer/Timeouts.antt =====
-- The invariant that ties the dict to the heap, and what an expiry does to it.
use openring.Prelude.{
  ℕ, ◌≤◌, ◌<◌, String, true, false, ◌≡◌, ap, subst, sym, ◌∙◌, ◌⊎◌, inl, inr, Bool-cases, some, List,
  [], ◌∷◌, arith, All, leb, Dict, lookup, erase, lookup-erase, ◌==◌, eq_iff,
}
use openring.Notifier.Buffer.Base.{Pending, Dispatched, is_entry, expire}

module _ {E : Type 0} where
  abbrev pub In : Pending E → List (Pending E) → Type 0
  In p [] = ⊥
  In p (q ∷ l) = (p ≡ q) ⊎ In p l

  abbrev pub IsSorted : List (Pending E) → Type 0
  IsSorted [] = Unit
  IsSorted (p ∷ l) = All (λ q. p.deadline ≤ q.deadline) l × IsSorted l

  -- The heap is in order, and each pending entry is in it, under its own token.
  pub record IsQueued (pending : Dict (Pending E)) (heap : List (Pending E)) : Type 0 where
    pub sorted : IsSorted heap
    pub in_heap :
        (k : String) (p : Pending E)
        → lookup k pending ≡ some p
        → (p.feedback_token ≡ k) × In p heap

  abbrev pub NoneDue : ℕ → Dict (Pending E) → Type 0
  NoneDue now pending = (k : String) (p : Pending E) → lookup k pending ≡ some p → now < p.deadline

  pub In-All :
      (P : Pending E → Type 0) (p : Pending E) (l : List (Pending E)) → All P l → In p l → P p
  In-All P p [] h m = absurd m
  In-All P p (q ∷ l) h (inl e) = subst P (sym e) h.0
  In-All P p (q ∷ l) h (inr m) = In-All P p l h.1 m

  module _ (now : ℕ) (pending : Dict (Pending E)) (p : Pending E) (heap : List (Pending E))
      (h : IsQueued pending (p ∷ heap)) where
    not_due : leb p.deadline now ≡ false → NoneDue now pending
    not_due late k q e = elim ((h.in_heap k q e).1) [
      | inl same ↦
          let d : q.deadline ≡ p.deadline = ap (λ (x : Pending E). x.deadline) same in ground arith
      | inr later ↦
          let d : p.deadline ≤ q.deadline =
            In-All (λ x. p.deadline ≤ x.deadline) q heap h.sorted.0 later in
          ground arith
    ]

    stale_elsewhere :
        (k : String) (q : Pending E)
        → is_entry p (lookup p.feedback_token pending) ≡ false
        → lookup k pending ≡ some q
        → q.feedback_token ≡ k
        → q ≡ p
        → ⊥
    stale_elsewhere k q stale e token same =
        let t : p.feedback_token ≡ k =
          ap (λ (x : Pending E). x.feedback_token) (sym same) ∙ token in
        let i : q.ident ≡ p.ident = ap (λ (x : Pending E). x.ident) same in
        let l : lookup p.feedback_token pending ≡ some q = ap (λ x. lookup x pending) t ∙ e in
        let s : is_entry p (some q) ≡ false = rw l at stale in ground arith

    pub skip_stale : is_entry p (lookup p.feedback_token pending) ≡ false → IsQueued pending heap
    skip_stale stale = record {
      sorted = h.sorted.1;
      in_heap = λ k q e.
          let (token, place) = h.in_heap k q e in
          elim place [
            | inl same ↦ absurd (stale_elsewhere k q stale e token same)
            | inr later ↦ (token, later)
          ];
    }

    still_there :
        (k : String) (q : Pending E)
        → lookup k (erase p.feedback_token pending) ≡ some q
        → ((p.feedback_token == k) ≡ false) × (lookup k pending ≡ some q)
    still_there k q e = ground (arith, lookup-erase p.feedback_token k pending)

    pub take_entry : IsQueued (erase p.feedback_token pending) heap
    take_entry = record {
      sorted = h.sorted.1;
      in_heap = λ k q e.
          let (other, before) = still_there k q e in
          let (token, place) = h.in_heap k q before in
          elim place [
            | inl same ↦ absurd (
                let t : p.feedback_token ≡ k =
                  ap (λ (x : Pending E). x.feedback_token) (sym same) ∙ token in
                ground (arith, eq_iff p.feedback_token k))
            | inr later ↦ (token, later)
          ];
    }

module _ {E R : Type 0} where
  module _ (now : ℕ) (pending : Dict (Pending E)) (p : Pending E) (heap : List (Pending E)) where
    pub expire-late :
        leb p.deadline now ≡ false → expire {R = R} now pending (p ∷ heap) ≡ ([], pending, p ∷ heap)
    unfolding expire
    expire-late late = ground arith

    pub expire-stale :
        leb p.deadline now ≡ true
        → is_entry p (lookup p.feedback_token pending) ≡ false
        → expire {R = R} now pending (p ∷ heap) ≡ expire now pending heap
    unfolding expire
    expire-stale due stale = ground arith

    pub expire-current :
        leb p.deadline now ≡ true
        → is_entry p (lookup p.feedback_token pending) ≡ true
        → expire {R = R} now pending (p ∷ heap) ≡ (
          Dispatched.bare p.event ∷ (expire now (erase p.feedback_token pending) heap).0,
          (expire {R = R} now (erase p.feedback_token pending) heap).1,
          (expire {R = R} now (erase p.feedback_token pending) heap).2,
        )
    unfolding expire
    expire-current due current = ground arith

module _ {E : Type 0} (R : Type 0) where
  abbrev pub Settles : ℕ → List (Dispatched E R) × Dict (Pending E) × List (Pending E) → Type 0
  Settles now r = IsQueued r.1 r.2 × NoneDue now r.1

  pub expire-Settles :
      (now : ℕ) (pending : Dict (Pending E)) (heap : List (Pending E))
      → IsQueued pending heap
      → Settles now (expire {R = R} now pending heap)
  unfolding expire
  expire-Settles now pending [] h = (h, λ k p e. absurd (h.in_heap k p e).1)
  expire-Settles now pending (p ∷ heap) h = elim (Bool-cases (leb p.deadline now)) [
    | inl due ↦ elim (Bool-cases (is_entry p (lookup p.feedback_token pending))) [
      | inl current ↦ rw (expire-current now pending p heap due current) (
          expire-Settles now (erase p.feedback_token pending) heap
            (take_entry now pending p heap h))
      | inr stale ↦
          rw (expire-stale now pending p heap due stale)
            (expire-Settles now pending heap (skip_stale now pending p heap h stale))
    ]
    | inr late ↦ rw (expire-late now pending p heap late) (h, not_due now pending p heap h late)
  ]
