-- ===== src/Detector/Publisher/Order.antt =====
-- What an outage does to the events: nothing while the buffer has room, and never to their order.
use openring.Prelude.{
  ℕ, zero, suc, ◌+◌, ◌≤◌, ◌<◌, ◌≡◌, refl, ap, sym, subst, Option, ◌∙◌, inl, inr, Bool-cases, none,
  some, List, [], ◌∷◌, ◌++◌, map, length, length-append, length-drop, drop, ltb, arith,
}
use mathlib.Core.List.{Sublist, append_assoc, append-nil}
use mathlib.Core.List.Sublist
use openring.Prelude.Flow.{flow-eq, flow-Sublist}
use openring.Detector.Publisher.Base.{buffer_max, append, flush_buffer, finish, publish, run}

module _ {P : Type 0} where
  -- A flush loses nothing and keeps the order; unless a call raised, nothing stays.
  flush_buffer-append :
      (up : ℕ) (buffer : List P) → (flush_buffer up buffer).0 ++ (flush_buffer up buffer).1 ≡ buffer
  unfolding flush_buffer
  flush_buffer-append up [] = refl
  flush_buffer-append zero (p ∷ buffer) = refl
  flush_buffer-append (suc up) (p ∷ buffer) = ap (λ l. p ∷ l) (flush_buffer-append up buffer)

  flush_buffer_done :
      (up left : ℕ) (buffer : List P)
      → (flush_buffer up buffer).2 ≡ some left
      → (flush_buffer up buffer).1 ≡ []
  unfolding flush_buffer
  flush_buffer_done up left [] h = refl
  flush_buffer_done zero left (p ∷ buffer) h = cc
  flush_buffer_done (suc up) left (p ∷ buffer) h = flush_buffer_done up left buffer h

  flush_buffer-length :
      (up : ℕ) (buffer : List P) → length (flush_buffer up buffer).1 ≤ length buffer
  flush_buffer-length up buffer = omega (
    arith,
    length-append (flush_buffer up buffer).0 (flush_buffer up buffer).1,
    ap length (flush_buffer-append up buffer),
  )

  append_room :
      (buffer : List P) (p : P) → length buffer < buffer_max → append buffer p ≡ buffer ++ p ∷ []
  unfolding append
  append_room buffer p h = ground arith

  append-length :
      (buffer : List P) (p : P) → length buffer ≤ buffer_max → length (append buffer p) ≤ buffer_max
  unfolding append
  append-length buffer p h =
      ground (arith, length-append buffer (p ∷ []), length-drop 1 (buffer ++ p ∷ []))

  drop-Sublist : (n : ℕ) (l : List P) → Sublist (drop n l) l
  drop-Sublist zero l = Sublist.refl l
  drop-Sublist (suc n) [] = Sublist.refl []
  drop-Sublist (suc n) (x ∷ l) = Sublist.cons x (drop-Sublist n l)

  append-Sublist : (buffer : List P) (p : P) → Sublist (append buffer p) (buffer ++ p ∷ [])
  unfolding append
  append-Sublist buffer p = elim (Bool-cases (ltb (length buffer) buffer_max)) [
    | inl room ↦ rw room (Sublist.refl (buffer ++ p ∷ []))
    | inr full ↦ rw full (drop-Sublist 1 (buffer ++ p ∷ []))
  ]

  module _ (sent kept buffer : List P) (payload : P) (split : sent ++ kept ≡ buffer) where
    appended : sent ++ (kept ++ payload ∷ []) ≡ buffer ++ payload ∷ []
    appended = sym (append_assoc sent kept (payload ∷ [])) ∙ ap (λ l. l ++ payload ∷ []) split

    sent_too : kept ≡ [] → (sent ++ payload ∷ []) ++ kept ≡ buffer ++ payload ∷ []
    sent_too none_left =
        ap (λ l. (sent ++ payload ∷ []) ++ l) none_left
        ∙ (append-nil (sent ++ payload ∷ [])
            ∙ (ap (λ l. sent ++ (l ++ payload ∷ [])) (sym none_left) ∙ appended))

    finish-append :
        (left : Option ℕ)
        → ((n : ℕ) → left ≡ some n → kept ≡ [])
        → length kept < buffer_max
        → (finish sent kept payload left).0 ++ (finish sent kept payload left).1
          ≡ buffer ++ payload ∷ []
    unfolding finish
    finish-append none done room = ap (λ l. sent ++ l) (append_room kept payload room) ∙ appended
    finish-append (some zero) done room =
        ap (λ l. sent ++ l) (append_room kept payload room) ∙ appended
    finish-append (some (suc n)) done room = sent_too (done (suc n) refl)

    finish-Sublist :
        (left : Option ℕ)
        → ((n : ℕ) → left ≡ some n → kept ≡ [])
        → Sublist
            ((finish sent kept payload left).0 ++ (finish sent kept payload left).1)
            (buffer ++ payload ∷ [])
    unfolding finish
    finish-Sublist none done =
        subst (Sublist (sent ++ append kept payload)) appended
          (Sublist.append (Sublist.refl sent) (append-Sublist kept payload))
    finish-Sublist (some zero) done =
        subst (Sublist (sent ++ append kept payload)) appended
          (Sublist.append (Sublist.refl sent) (append-Sublist kept payload))
    finish-Sublist (some (suc n)) done =
        subst (λ l. Sublist l (buffer ++ payload ∷ [])) (sym (sent_too (done (suc n) refl)))
          (Sublist.refl (buffer ++ payload ∷ []))

module _ {E P : Type 0} (to_payload : E → P) where
  publish-append :
      (buffer : List P) (event : E) (up : ℕ)
      → length buffer < buffer_max
      → (publish to_payload buffer event up).0 ++ (publish to_payload buffer event up).1
        ≡ buffer ++ to_payload event ∷ []
  unfolding publish
  publish-append buffer event up room =
      let (sent, kept, left) = flush_buffer up buffer in
      finish-append sent kept buffer (to_payload event) (flush_buffer-append up buffer) left
        (λ n. flush_buffer_done up n buffer) (omega (arith, flush_buffer-length up buffer))

  publish-Sublist :
      (buffer : List P) (event : E) (up : ℕ)
      → Sublist
          ((publish to_payload buffer event up).0 ++ (publish to_payload buffer event up).1)
          (buffer ++ to_payload event ∷ [])
  unfolding publish
  publish-Sublist buffer event up =
      let (sent, kept, left) = flush_buffer up buffer in
      finish-Sublist sent kept buffer (to_payload event) (flush_buffer-append up buffer) left
        (λ n. flush_buffer_done up n buffer)

  publish-length :
      (buffer : List P) (event : E) (up : ℕ)
      → length buffer ≤ buffer_max
      → length (publish to_payload buffer event up).1 ≤ buffer_max
  unfolding publish
  publish-length buffer event up bounded = ground (
    arith,
    flush_buffer-length up buffer,
    append-length (flush_buffer up buffer).1 (to_payload event),
  )

  -- The payloads of a run's events, in order.
  abbrev pub payloads : List (E × ℕ) → List P
  payloads calls = map (λ call. to_payload call.0) calls

  -- Where the buffer has room for every event of a run, what the run sends and then the buffer are
  -- what the buffer held and then the run's events: whatever the outages, none is lost, sent twice
  -- or overtaken.
  pub run_lossless :
      (buffer : List P) (calls : List (E × ℕ))
      → length buffer + length calls ≤ buffer_max
      → (run to_payload buffer calls).0 ++ (run to_payload buffer calls).1
        ≡ buffer ++ payloads calls
  unfolding run
  run_lossless buffer [] room = sym (append-nil buffer)
  run_lossless buffer ((event, up) ∷ calls) room =
      let (sent, buffer') = publish to_payload buffer event up in
      let step : sent ++ buffer' ≡ buffer ++ to_payload event ∷ [] =
        publish-append buffer event up (omega arith) in
      let grown : length buffer' ≤ length buffer + 1 = omega (
        arith,
        ap length step,
        length-append sent buffer',
        length-append buffer (to_payload event ∷ []),
      ) in
      flow-eq buffer buffer' (run to_payload buffer' calls).1 (to_payload event ∷ [])
        (payloads calls) sent (run to_payload buffer' calls).0 step
        (run_lossless buffer' calls (omega (arith, grown)))

  -- From a buffer of at most 256 every run leaves one of at most 256; and what the run sends and
  -- then the buffer are in the order of what the buffer held and then the run's events, each at most
  -- once.
  pub run_in_order :
      (buffer : List P) (calls : List (E × ℕ))
      → length buffer ≤ buffer_max
      → (length (run to_payload buffer calls).1 ≤ buffer_max)
        × Sublist
            ((run to_payload buffer calls).0 ++ (run to_payload buffer calls).1)
            (buffer ++ payloads calls)
  unfolding run
  run_in_order buffer [] bounded =
      (bounded, subst (Sublist buffer) (sym (append-nil buffer)) (Sublist.refl buffer))
  run_in_order buffer ((event, up) ∷ calls) bounded =
      let (sent, buffer') = publish to_payload buffer event up in
      let rest = run_in_order buffer' calls (publish-length buffer event up bounded) in
      (
        rest.0,
        flow-Sublist buffer buffer' (run to_payload buffer' calls).1 (to_payload event ∷ [])
            (payloads calls) sent (run to_payload buffer' calls).0 (publish-Sublist buffer event up)
            rest.1,
      )
