-- ===== src/Notifier/Buffer/Counts.antt =====
-- What becomes of each detection, counted over whole runs.
use openring.Prelude.{
  ℕ, ◌+◌, String, Bool, ◌≡◌, refl, ap, sym, ◌∙◌, inl, inr, Bool-cases, Option-cases, Option, none,
  some, List, [], ◌∷◌, ◌++◌, map, arith, leb, if◌then◌else◌, Dict, lookup, insert, erase, ◌==◌,
  eq_iff,
}
use openring.Notifier.Buffer.Base.{
  Pending, Buffer, Dispatched, bare, annotated, is_entry, expire, submit_detection,
  submit_recognition, poll, flush_all, Call, detection, recognition, polling, stopping, call, run,
}
use openring.Notifier.Buffer.Timeouts.{
  IsQueued, skip_stale, take_entry, expire-late, expire-stale, expire-current,
}
use openring.Notifier.Buffer.Distinct.{
  IsDistinct, IsKeyed, same_entry, erase-IsKeyed, IsNumbered, call-IsNumbered,
}

-- The number of events that pass a test.
module _ {E : Type 0} (test : E → Bool) where
  abbrev pub count_event : E → ℕ
  count_event e = if test e then 1 else 0

  abbrev pub count_pending : Dict (Pending E) → ℕ
  count_pending [] = 0
  count_pending ((k, p) ∷ m) = count_event p.event + count_pending m

  abbrev count_found : Option (Pending E) → ℕ
  count_found none = 0
  count_found (some p) = count_event p.event

  insert_count :
      (k : String) (p : Pending E) (m : Dict (Pending E))
      → count_pending (insert k p m) + count_found (lookup k m)
        ≡ count_pending m + count_event p.event
  unfolding insert lookup
  insert_count k p [] = omega arith
  insert_count k p ((j, q) ∷ m) = elim (Bool-cases (j == k)) [
    | inl same ↦ rw same (omega arith)
    | inr other ↦ rw other (omega (arith, insert_count k p m))
  ]

  erase_absent :
      (k : String) (m : Dict (Pending E))
      → lookup k m ≡ none
      → count_pending (erase k m) ≡ count_pending m
  unfolding erase lookup
  erase_absent k [] absent = refl
  erase_absent k ((j, q) ∷ m) absent = elim (Bool-cases (j == k)) [
    | inl same ↦ cc (rw same at absent)
    | inr other ↦
        rw other (ap (λ n. count_event q.event + n) (erase_absent k m (rw other at absent)))
  ]

  module _ {R : Type 0} where
    abbrev count_one : Dispatched E R → ℕ
    count_one (bare e) = count_event e
    count_one (annotated e r) = count_event e

    abbrev pub count_sent : List (Dispatched E R) → ℕ
    count_sent [] = 0
    count_sent (d ∷ l) = count_one d + count_sent l

    abbrev pub count_submitted : List (Call E R) → ℕ
    count_submitted [] = 0
    count_submitted (detection _ e _ ∷ cs) = count_event e + count_submitted cs
    count_submitted (recognition _ _ ∷ cs) = count_submitted cs
    count_submitted (polling _ ∷ cs) = count_submitted cs
    count_submitted (stopping ∷ cs) = count_submitted cs

    sent_append : (k l : List (Dispatched E R)) → count_sent (k ++ l) ≡ count_sent k + count_sent l
    sent_append [] l = omega arith
    sent_append (d ∷ k) l = omega (arith, sent_append k l)

  -- What is pending under a token is one of what is pending.
  erase_count :
      (k : String) (m : Dict (Pending E))
      → IsKeyed m
      → count_pending (erase k m) + count_found (lookup k m) ≡ count_pending m
  unfolding erase lookup
  erase_count k [] keyed = refl
  erase_count k ((j, q) ∷ m) keyed = elim (Bool-cases (j == k)) [
    | inl same ↦
        let absent : lookup k m ≡ none =
          ap (λ i. lookup i m) (sym ((eq_iff j k).0 same)) ∙ keyed.0 in
        rw same (omega (arith, erase_absent k m absent))
    | inr other ↦ rw other (omega (arith, erase_count k m keyed.1))
  ]

  module _ (R : Type 0) where
    sent_flushed :
        (m : Dict (Pending E))
        → count_sent {R = R} (map (λ entry. bare entry.1.event) m) ≡ count_pending m
    sent_flushed [] = refl
    sent_flushed ((k, p) ∷ m) = ap (λ n. count_event p.event + n) (sent_flushed m)

    -- A pass of the poll thread sends what it takes from the dict.
    expire_count :
        (now : ℕ) (pending : Dict (Pending E)) (heap : List (Pending E))
        → IsQueued pending heap
        → IsKeyed pending
        → IsDistinct heap
        → count_sent (expire {R = R} now pending heap).0
            + count_pending (expire {R = R} now pending heap).1
          ≡ count_pending pending
    unfolding expire
    expire_count now pending [] h keyed distinct = omega arith
    expire_count now pending (p ∷ heap) h keyed distinct =
        let token = p.feedback_token in
        elim (Bool-cases (leb p.deadline now)) [
          | inr late ↦ rw (expire-late {R = R} now pending p heap late) (omega arith)
          | inl due ↦ elim (Bool-cases (is_entry p (lookup token pending))) [
            | inr stale ↦ rw (expire-stale {R = R} now pending p heap due stale) (
                expire_count now pending heap (skip_stale now pending p heap h stale) keyed
                  distinct.1)
            | inl current ↦ elim (Option-cases (lookup token pending)) [
              | inl absent ↦ cc (rw absent at current)
              | inr (q, found) ↦
                  let same =
                    same_entry p q heap distinct (h.in_heap token q found).1
                      (rw found at current) in
                  let event = ap (λ (x : Pending E). count_event x.event) same in
                  let taken = erase_count token pending keyed in
                  let rest =
                    expire_count now (erase token pending) heap (take_entry now pending p heap h)
                      (erase-IsKeyed token pending keyed) distinct.1 in
                  rw (expire-current {R = R} now pending p heap due current)
                    (omega (arith, event, rest, rw found at taken))
            ]
          ]
        ]

  module _ {R : Type 0} where
    -- The event that a call takes out of the dict to make place for its own.
    abbrev pub replaced_by : Buffer E → Call E R → ℕ
    replaced_by b (detection token _ _) =
        if token == "" then 0 else count_found (lookup token b.pending)
    replaced_by b (recognition _ _) = 0
    replaced_by b (polling _) = 0
    replaced_by b stopping = 0

    -- The events that are replaced in a run, each by a later detection with its token.
    unfoldable pub count_replaced : Buffer E → List (Call E R) → ℕ
    count_replaced b [] = 0
    count_replaced b (c ∷ cs) = replaced_by b c + count_replaced (call b c).1 cs

    abbrev of_call : Call E R → ℕ
    of_call c = count_submitted (c ∷ [])

    submitted_cons :
        (c : Call E R) (cs : List (Call E R))
        → count_submitted (c ∷ cs) ≡ of_call c + count_submitted cs
    submitted_cons (detection _ _ _) cs = omega arith
    submitted_cons (recognition _ _) cs = omega arith
    submitted_cons (polling _) cs = omega arith
    submitted_cons stopping cs = omega arith

    call_count :
        (b : Buffer E) (c : Call E R)
        → IsNumbered b
        → count_sent (call b c).0 + count_pending (call b c).1.pending + replaced_by b c
          ≡ count_pending b.pending + of_call c
    unfolding call submit_detection submit_recognition poll flush_all
    call_count b (detection token event now) h = elim (Bool-cases (token == "")) [
      | inl anonymous ↦ rw (anonymous, submit_detection) (omega arith)
      | inr tagged ↦ rw (tagged, submit_detection) (omega (arith, insert_count token _ b.pending))
    ]
    call_count b (recognition token r) h = elim (Bool-cases (token == "")) [
      | inl anonymous ↦ rw (anonymous, submit_recognition) (omega arith)
      | inr tagged ↦ elim (Option-cases (lookup token b.pending)) [
        | inl absent ↦ rw (tagged, absent, submit_recognition) (omega arith)
        | inr (entry, found) ↦
            let e = erase_count token b.pending h.keyed in
            rw (tagged, found, submit_recognition) (omega (arith, rw found at e))
      ]
    ]
    call_count b (polling now) h =
        omega (arith, expire_count R now b.pending b.heap h.queued h.keyed h.distinct)
    call_count b stopping h = omega (arith, sent_flushed R b.pending)

    -- From a buffer whose dict and heap agree, in which no token and no entry stands twice, over any
    -- calls, flushes by `stop` included, and for every test on events: as many of the events that pass
    -- it were pending before or are submitted as are dispatched, still pending at the end, or replaced
    -- by a later detection with the same token while they were pending. So none is lost, and none is
    -- dispatched more often than it came.
    pub run_count :
        (b : Buffer E) (cs : List (Call E R))
        → IsNumbered b
        → count_sent (run b cs).0 + count_pending (run b cs).1.pending + count_replaced b cs
          ≡ count_pending b.pending + count_submitted cs
    unfolding run count_replaced
    run_count b [] h = omega arith
    run_count b (c ∷ cs) h = omega (
      arith,
      call_count b c h,
      run_count (call b c).1 cs (call-IsNumbered b c h),
      submitted_cons c cs,
      sent_append (call b c).0 (run (call b c).1 cs).0,
    )
