-- ===== src/Detector/Publisher/Base.antt =====
-- The buffer, `publish` and `_flush_buffer`.
use openring.Prelude.{
  ℕ, zero, suc, Option, none, some, List, [], ◌∷◌, ◌++◌, length, drop, ltb, if◌then◌else◌,
}

abbrev pub buffer_max : ℕ
buffer_max = 256

-- deque(maxlen=_BUFFER_MAX).append: where it is full, the oldest goes.
unfoldable pub append : {P : Type 0} → List P → P → List P
append buffer payload =
    if ltb (length buffer) buffer_max
    then buffer ++ payload ∷ []
    else drop 1 (buffer ++ payload ∷ [])

-- What a flush sends, what stays in the buffer, and how many calls would still return; none where
-- one raised.
unfoldable pub flush_buffer : {P : Type 0} → ℕ → List P → List P × List P × Option ℕ
flush_buffer up [] = ([], [], some up)
flush_buffer zero (payload ∷ buffer) = ([], payload ∷ buffer, none)
flush_buffer (suc up) (payload ∷ buffer) =
    let (sent, kept, left) = flush_buffer up buffer in (payload ∷ sent, kept, left)

-- The call that publishes the event itself, and the handler that buffers it.
unfoldable pub finish : {P : Type 0} → List P → List P → P → Option ℕ → List P × List P
finish sent kept payload none = (sent, append kept payload)
finish sent kept payload (some zero) = (sent, append kept payload)
finish sent kept payload (some (suc _)) = (sent ++ payload ∷ [], kept)

-- What a call sends, and the buffer after it.
unfoldable pub publish : {E P : Type 0} → (E → P) → List P → E → ℕ → List P × List P
unfolding flush_buffer append finish
publish to_payload buffer event up =
    let (sent, kept, left) = flush_buffer up buffer in finish sent kept (to_payload event) left

-- A run of calls, each with its event and its outcome.
unfoldable pub run : {E P : Type 0} → (E → P) → List P → List (E × ℕ) → List P × List P
run to_payload buffer [] = ([], buffer)
run to_payload buffer ((event, up) ∷ calls) =
    let (sent, buffer') = publish to_payload buffer event up in
    let (later, last) = run to_payload buffer' calls in (sent ++ later, last)
