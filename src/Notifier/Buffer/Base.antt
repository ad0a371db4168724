-- ===== src/Notifier/Buffer/Base.antt =====
-- The state of `RecognitionBuffer` and its methods. `E` is the type of events and `R` that of
-- recognitions.
use openring.Prelude.{
  ℕ, ◌+◌, String, Bool, true, false, Option, none, some, List, [], ◌∷◌, ◌++◌, map, leb, ltb, beq,
  if◌then◌else◌, Dict, lookup, insert, erase, ◌==◌,
}

pub record Pending (E : Type 0) : Type 0 where
  pub ident : ℕ
  pub feedback_token : String
  pub event : E
  pub deadline : ℕ

pub record Buffer (E : Type 0) : Type 0 where
  pub coalesce : ℕ
  pub pending : Dict (Pending E)
  pub heap : List (Pending E)
  pub next_ident : ℕ

-- What `on_dispatch` is called with: an event alone, or with its recognition.
pub data Dispatched (E R : Type 0) : Type 0 where
  bare : E → Dispatched E R
  annotated : E → R → Dispatched E R

module _ {E : Type 0} where
  -- heapq.heappush
  unfoldable pub push : Pending E → List (Pending E) → List (Pending E)
  push p [] = p ∷ []
  push p (q ∷ heap) = if ltb p.deadline q.deadline then p ∷ q ∷ heap else q ∷ push p heap

  abbrev pub is_entry : Pending E → Option (Pending E) → Bool
  is_entry p none = false
  is_entry p (some q) = beq q.ident p.ident

  -- The inner `while` of `_run`: entries whose deadline has come leave the heap, and those that are
  -- still the pending entry of their token are dispatched bare.
  unfoldable pub expire :
      {R : Type 0}
      → ℕ
      → Dict (Pending E)
      → List (Pending E)
      → List (Dispatched E R) × Dict (Pending E) × List (Pending E)
  expire now pending [] = ([], pending, [])
  expire now pending (p ∷ heap) = elim (leb p.deadline now) [
    | false ↦ ([], pending, p ∷ heap)
    | true ↦ elim (is_entry p (lookup p.feedback_token pending)) [
      | false ↦ expire now pending heap
      | true ↦
          let (sent, pending', heap') = expire now (erase p.feedback_token pending) heap in
          (bare p.event ∷ sent, pending', heap')
    ]
  ]

module _ {E R : Type 0} where
  -- `token` is the event's feedback token, "" where it has none.
  unfoldable pub submit_detection : Buffer E → String → E → ℕ → List (Dispatched E R) × Buffer E
  unfolding push
  submit_detection b token event now =
      if token == ""
      then (bare event ∷ [], b)
      else (let entry : Pending E = record {
        ident = b.next_ident;
        feedback_token = token;
        event = event;
        deadline = now + b.coalesce;
      } in
          (
            [],
            record b {
              pending = insert token entry b.pending;
              heap = push entry b.heap;
              next_ident = b.next_ident + 1;
            },
          ))

  unfoldable pub submit_recognition : Buffer E → String → R → List (Dispatched E R) × Buffer E
  submit_recognition b token recognition =
      if token == "" then ([], b) else elim (lookup token b.pending) [
        | none ↦ ([], b)
        | some entry ↦
            (annotated entry.event recognition ∷ [], record b { pending = erase token b.pending })
      ]

  -- One pass of the poll thread.
  unfoldable pub poll : Buffer E → ℕ → List (Dispatched E R) × Buffer E
  unfolding expire
  poll b now =
      let (sent, pending, heap) = expire now b.pending b.heap in
      (sent, record b { pending = pending; heap = heap })

  unfoldable pub flush_all : Buffer E → List (Dispatched E R) × Buffer E
  flush_all b = (map (λ entry. bare entry.1.event) b.pending, record b { pending = []; heap = [] })

-- The calls of the other threads, `stop` with its flush among them, and the passes of the poll thread,
-- in the order of the lock.
pub data Call (E R : Type 0) : Type 0 where
  detection : String → E → ℕ → Call E R
  recognition : String → R → Call E R
  polling : ℕ → Call E R
  stopping : Call E R

module _ {E R : Type 0} where
  unfoldable pub call : Buffer E → Call E R → List (Dispatched E R) × Buffer E
  call b (detection token event now) = submit_detection b token event now
  call b (recognition token r) = submit_recognition b token r
  call b (polling now) = poll b now
  call b stopping = flush_all b

  unfoldable pub run : Buffer E → List (Call E R) → List (Dispatched E R) × Buffer E
  run b [] = ([], b)
  run b (c ∷ cs) = let (sent, b') = call b c in let (later, b'') = run b' cs in (sent ++ later, b'')
