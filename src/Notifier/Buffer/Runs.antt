-- ===== src/Notifier/Buffer/Runs.antt =====
-- No detection waits past its deadline.
use openring.Prelude.{
  ℕ, ◌≤◌, String, true, false, ◌≡◌, refl, subst, inl, inr, Bool-cases, Option-cases, some, List, [],
  ◌∷◌, arith, All, All-map, ltb, if◌then◌else◌, Dict, lookup, insert, erase, lookup-insert,
  lookup-erase, ◌==◌, eq_iff,
}
use openring.Notifier.Buffer.Base.{
  Pending, Buffer, push, submit_detection, submit_recognition, poll, Call, detection, recognition,
  polling, stopping, flush_all, call, run,
}
use openring.Notifier.Buffer.Timeouts.{In, IsSorted, IsQueued, NoneDue, expire-Settles}

module _ {E : Type 0} where
  pub push-All :
      (P : Pending E → Type 0) (p : Pending E) (l : List (Pending E))
      → P p
      → All P l
      → All P (push p l)
  unfolding push
  push-All P p [] hp h = (hp, tt)
  push-All P p (q ∷ l) hp h =
      elim (ltb p.deadline q.deadline) as (λ b. All P (if b then p ∷ q ∷ l else q ∷ push p l)) [
        | true ↦ (hp, h)
        | false ↦ (h.0, push-All P p l hp h.1)
      ]

  push-IsSorted : (p : Pending E) (l : List (Pending E)) → IsSorted l → IsSorted (push p l)
  unfolding push
  push-IsSorted p [] h = (tt, tt)
  push-IsSorted p (q ∷ l) h = elim (Bool-cases (ltb p.deadline q.deadline)) [
    | inl before ↦
        let pq : p.deadline ≤ q.deadline = ground arith in
        rw before (
          (
            pq,
            All-map (λ x. q.deadline ≤ x.deadline) (λ x. p.deadline ≤ x.deadline)
                (λ x k. omega arith) l h.0,
          ),
          h,
        )
    | inr after ↦
        let qp : q.deadline ≤ p.deadline = ground arith in
        rw after (push-All (λ x. q.deadline ≤ x.deadline) p l qp h.0, push-IsSorted p l h.1)
  ]

  In-push : (p : Pending E) (l : List (Pending E)) → In p (push p l)
  unfolding push
  In-push p [] = inl refl
  In-push p (q ∷ l) =
      elim (ltb p.deadline q.deadline) as (λ b. In p (if b then p ∷ q ∷ l else q ∷ push p l)) [
        | true ↦ inl refl
        | false ↦ inr (In-push p l)
      ]

  In-push_old : (p q : Pending E) (l : List (Pending E)) → In q l → In q (push p l)
  unfolding push
  In-push_old p q [] m = absurd m
  In-push_old p q (x ∷ l) m =
      elim (ltb p.deadline x.deadline) as (λ b. In q (if b then p ∷ x ∷ l else x ∷ push p l)) [
        | true ↦ inr m
        | false ↦ elim m [ inl e ↦ inl e | inr m' ↦ inr (In-push_old p q l m') ]
      ]

  -- A new entry under its token, in the dict and in the heap.
  submit-IsQueued :
      (pending : Dict (Pending E)) (heap : List (Pending E)) (p : Pending E)
      → IsQueued pending heap
      → IsQueued (insert p.feedback_token p pending) (push p heap)
  submit-IsQueued pending heap p h = record {
    sorted = push-IsSorted p heap h.sorted;
    in_heap = λ k q e. elim (Bool-cases (p.feedback_token == k)) [
      | inl same ↦
          let pq : p ≡ q = ground (arith, lookup-insert p.feedback_token k p pending) in
          let t : p.feedback_token ≡ k = ground (arith, eq_iff p.feedback_token k) in
          subst (λ (x : Pending E). (x.feedback_token ≡ k) × In x (push p heap)) pq
            (t, In-push p heap)
      | inr other ↦
          let before : lookup k pending ≡ some q =
            ground (arith, lookup-insert p.feedback_token k p pending) in
          let (token, place) = h.in_heap k q before in (token, In-push_old p q heap place)
    ];
  }

  forget-IsQueued :
      (pending : Dict (Pending E)) (heap : List (Pending E)) (token : String)
      → IsQueued pending heap
      → IsQueued (erase token pending) heap
  forget-IsQueued pending heap token h = record {
    sorted = h.sorted;
    in_heap = λ k q e. h.in_heap k q (ground (arith, lookup-erase token k pending));
  }

none_pending : {E : Type 0} (k : String) (q : Pending E) → lookup {V = Pending E} k [] ≡ some q → ⊥
unfolding lookup
none_pending k q e = ground (arith, e)

abbrev pub IsReady : {E : Type 0} → Buffer E → Type 0
IsReady b = IsQueued b.pending b.heap

module _ {E R : Type 0} where
  pub call-IsReady : (b : Buffer E) (c : Call E R) → IsReady b → IsReady (call b c).1
  unfolding call submit_detection submit_recognition poll flush_all
  call-IsReady b (detection token event now) h = elim (Bool-cases (token == "")) [
    | inl anonymous ↦ rw (anonymous, submit_detection) h
    | inr tagged ↦ rw (tagged, submit_detection) (submit-IsQueued b.pending b.heap _ h)
  ]
  call-IsReady b (recognition token r) h = elim (Bool-cases (token == "")) [
    | inl anonymous ↦ rw (anonymous, submit_recognition) h
    | inr tagged ↦ elim (Option-cases (lookup token b.pending)) [
      | inl absent ↦ rw (tagged, absent, submit_recognition) h
      | inr (entry, found) ↦
          rw (tagged, found, submit_recognition) (forget-IsQueued b.pending b.heap token h)
    ]
  ]
  call-IsReady b (polling now) h = (expire-Settles R now b.pending b.heap h).0
  call-IsReady b stopping h = record { sorted = tt; in_heap = λ k q e. absurd (none_pending k q e) }

  run-IsReady : (b : Buffer E) (cs : List (Call E R)) → IsReady b → IsReady (run b cs).1
  unfolding run
  run-IsReady b [] h = h
  run-IsReady b (c ∷ cs) h = run-IsReady (call b c).1 cs (call-IsReady b c h)

  -- After any calls on a buffer whose dict and heap agree, a pass of the poll thread at any time
  -- leaves no detection pending whose deadline has come.
  pub run-poll-NoneDue :
      (b : Buffer E) (cs : List (Call E R)) (now : ℕ)
      → IsReady b
      → NoneDue now (poll {R = R} (run b cs).1 now).1.pending
  unfolding poll
  run-poll-NoneDue b cs now h =
      let b' = (run b cs).1 in (expire-Settles R now b'.pending b'.heap (run-IsReady b cs h)).1
