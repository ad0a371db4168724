-- ===== src/Notifier/Buffer/Distinct.antt =====
-- The entries' identities, and the tokens of the dict, are all different.
use openring.Prelude.{
  ℕ, ◌+◌, ◌<◌, String, true, false, ◌≡◌, refl, inl, inr, Bool-cases, Option-cases, none, List, [],
  ◌∷◌, arith, All, All-map, beq, leb, ltb, Dict, lookup, insert, erase, lookup-insert, lookup-erase,
  ◌==◌, eq_iff,
}
use openring.Notifier.Buffer.Base.{
  Pending, Buffer, push, is_entry, expire, submit_detection, submit_recognition, poll, Call,
  detection, recognition, polling, stopping, flush_all, call,
}
use openring.Notifier.Buffer.Timeouts.{In, In-All, expire-late, expire-stale, expire-current}
use openring.Notifier.Buffer.Runs.{push-All, IsReady, call-IsReady}

module _ {E : Type 0} where
  abbrev pub IsDistinct : List (Pending E) → Type 0
  IsDistinct [] = Unit
  IsDistinct (p ∷ l) = All (λ q. beq q.ident p.ident ≡ false) l × IsDistinct l

  -- No identity has been given that is not below the number.
  abbrev pub IsBelow : ℕ → List (Pending E) → Type 0
  IsBelow n = All (λ p. p.ident < n)

  -- No token stands twice.
  abbrev pub IsKeyed : Dict (Pending E) → Type 0
  IsKeyed [] = Unit
  IsKeyed ((k, p) ∷ m) = (lookup k m ≡ none) × IsKeyed m

  -- An entry of the heap that has the identity of its head is the head.
  pub same_entry :
      (p q : Pending E) (heap : List (Pending E))
      → IsDistinct (p ∷ heap)
      → In q (p ∷ heap)
      → beq q.ident p.ident ≡ true
      → q ≡ p
  same_entry p q heap h (inl same) e = same
  same_entry p q heap h (inr later) e =
      let other : beq q.ident p.ident ≡ false =
        In-All (λ x. beq x.ident p.ident ≡ false) q heap h.0 later in
      absurd (ground (arith, other, e))

  push-IsDistinct :
      (p : Pending E) (l : List (Pending E))
      → IsBelow p.ident l
      → IsDistinct l
      → IsDistinct (push p l)
  unfolding push
  push-IsDistinct p [] below h = (tt, tt)
  push-IsDistinct p (q ∷ l) below h = elim (Bool-cases (ltb p.deadline q.deadline)) [
    | inl before ↦ rw before (
      All-map (λ x. x.ident < p.ident) (λ x. beq x.ident p.ident ≡ false) (λ x k. ground (arith, k))
          (q ∷ l) below,
      h,
    )
    | inr after ↦
        let new : beq p.ident q.ident ≡ false = ground (arith, below.0) in
        rw after
          (push-All (λ x. beq x.ident q.ident ≡ false) p l new h.0, push-IsDistinct p l below.1 h.1)
  ]

  push-IsBelow :
      (p : Pending E) (l : List (Pending E)) → IsBelow p.ident l → IsBelow (p.ident + 1) (push p l)
  push-IsBelow p l below =
      push-All (λ x. x.ident < p.ident + 1) p l (omega arith)
        (All-map (λ x. x.ident < p.ident) (λ x. x.ident < p.ident + 1) (λ x k. omega (arith, k)) l
          below)

  insert-IsKeyed :
      (k : String) (p : Pending E) (m : Dict (Pending E)) → IsKeyed m → IsKeyed (insert k p m)
  unfolding insert lookup
  insert-IsKeyed k p [] h = (refl, tt)
  insert-IsKeyed k p ((j, q) ∷ m) h = elim (Bool-cases (j == k)) [
    | inl same ↦ rw same h
    | inr other ↦
        let apart : lookup j (insert k p m) ≡ none =
          ground (arith, lookup-insert k j p m, eq_iff k j, eq_iff j k, other, h.0) in
        rw other (apart, insert-IsKeyed k p m h.1)
  ]

  pub erase-IsKeyed : (k : String) (m : Dict (Pending E)) → IsKeyed m → IsKeyed (erase k m)
  unfolding erase
  erase-IsKeyed k [] h = tt
  erase-IsKeyed k ((j, q) ∷ m) h = elim (Bool-cases (j == k)) [
    | inl same ↦ rw same (erase-IsKeyed k m h.1)
    | inr other ↦
        let apart : lookup j (erase k m) ≡ none = ground (arith, lookup-erase k j m, h.0) in
        rw other (apart, erase-IsKeyed k m h.1)
  ]

module _ {E : Type 0} (R : Type 0) where
  expire-Keeps :
      (n now : ℕ) (pending : Dict (Pending E)) (heap : List (Pending E))
      → IsKeyed pending
      → IsDistinct heap
      → IsBelow n heap
      → let r = expire {R = R} now pending heap in IsKeyed r.1 × IsDistinct r.2 × IsBelow n r.2
  unfolding expire
  expire-Keeps n now pending [] keyed distinct below = (keyed, tt, tt)
  expire-Keeps n now pending (p ∷ heap) keyed distinct below =
      elim (Bool-cases (leb p.deadline now)) [
        | inl due ↦ elim (Bool-cases (is_entry p (lookup p.feedback_token pending))) [
          | inl current ↦ rw (expire-current {R = R} now pending p heap due current) (
              expire-Keeps n now (erase p.feedback_token pending) heap
                (erase-IsKeyed p.feedback_token pending keyed) distinct.1 below.1)
          | inr stale ↦
              rw (expire-stale {R = R} now pending p heap due stale)
                (expire-Keeps n now pending heap keyed distinct.1 below.1)
        ]
        | inr late ↦ rw (expire-late {R = R} now pending p heap late) (keyed, distinct, below)
      ]

-- The dict and the heap agree, no token and no identity stands twice, and those to come are new.
pub record IsNumbered {E : Type 0} (b : Buffer E) : Type 0 where
  pub queued : IsReady b
  pub keyed : IsKeyed b.pending
  pub distinct : IsDistinct b.heap
  pub below : IsBelow b.next_ident b.heap

abbrev Counted : {E : Type 0} → Buffer E → Type 0
Counted b = IsKeyed b.pending × IsDistinct b.heap × IsBelow b.next_ident b.heap

module _ {E R : Type 0} where
  call-Counted : (b : Buffer E) (c : Call E R) → IsNumbered b → Counted (call b c).1
  unfolding call submit_detection submit_recognition poll flush_all
  call-Counted b (detection token event now) h = elim (Bool-cases (token == "")) [
    | inl anonymous ↦ rw (anonymous, submit_detection) (h.keyed, h.distinct, h.below)
    | inr tagged ↦
        rw (tagged, submit_detection)
          (
            insert-IsKeyed token _ b.pending h.keyed,
            push-IsDistinct _ b.heap h.below h.distinct,
            push-IsBelow _ b.heap h.below,
          )
  ]
  call-Counted b (recognition token r) h = elim (Bool-cases (token == "")) [
    | inl anonymous ↦ rw (anonymous, submit_recognition) (h.keyed, h.distinct, h.below)
    | inr tagged ↦ elim (Option-cases (lookup token b.pending)) [
      | inl absent ↦ rw (tagged, absent, submit_recognition) (h.keyed, h.distinct, h.below)
      | inr (entry, found) ↦
          rw (tagged, found, submit_recognition)
            (erase-IsKeyed token b.pending h.keyed, h.distinct, h.below)
    ]
  ]
  call-Counted b (polling now) h =
      expire-Keeps R b.next_ident now b.pending b.heap h.keyed h.distinct h.below
  call-Counted b stopping h = (tt, tt, tt)

  pub call-IsNumbered : (b : Buffer E) (c : Call E R) → IsNumbered b → IsNumbered (call b c).1
  call-IsNumbered b c h =
      let (keyed, distinct, below) = call-Counted b c h in
      record {
        queued = call-IsReady b c h.queued;
        keyed = keyed;
        distinct = distinct;
        below = below;
      }
