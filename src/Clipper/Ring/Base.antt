-- ===== src/Clipper/Ring/Base.antt =====
-- `segments_in_window`, `restrict_ring_size`, and the delays of `_run_supervisor`.
use openring.Prelude.{
  ℕ, ◌*◌, min, String, Bool, ◌&&◌, Option, none, some, List, [], ◌∷◌, map, leb, if◌then◌else◌, ◌==◌,
}

-- An entry of the ring of a camera; `modified` is none where `stat` raises.
pub record Entry : Type 0 where
  pub path : String
  pub suffix : String
  pub is_file : Bool
  pub modified : Option ℕ

-- A segment with its time, as the tuples of the list of candidates.
abbrev pub Segment : Type 0
Segment = ℕ × String

abbrev pub is_segment : Entry → Bool
is_segment e = e.is_file && e.suffix == ".ts"

-- start_ts <= mtime <= end_ts
abbrev pub in_window : ℕ → ℕ → ℕ → Bool
in_window start_ts end_ts mtime = leb start_ts mtime && leb mtime end_ts

-- The body of the loop at an entry whose `stat` gives the time.
unfoldable pub add_candidate : ℕ → ℕ → Entry → Option ℕ → List Segment → List Segment
add_candidate start_ts end_ts e none rest = rest
add_candidate start_ts end_ts e (some mtime) rest =
    if in_window start_ts end_ts mtime then (mtime, e.path) ∷ rest else rest

unfoldable pub candidates : ℕ → ℕ → List Entry → List Segment
unfolding add_candidate
candidates start_ts end_ts [] = []
candidates start_ts end_ts (e ∷ es) =
    let rest = candidates start_ts end_ts es in
    if is_segment e then add_candidate start_ts end_ts e e.modified rest else rest

-- list.sort(key=lambda x: x[0]), which keeps the order of segments of one time.
unfoldable pub insert_by_time : Segment → List Segment → List Segment
insert_by_time x [] = x ∷ []
insert_by_time x (y ∷ l) =
    let rest = insert_by_time x l in if leb x.0 y.0 then x ∷ y ∷ l else y ∷ rest

unfoldable pub sort_by_time : List Segment → List Segment
unfolding insert_by_time
sort_by_time [] = []
sort_by_time (x ∷ l) = insert_by_time x (sort_by_time l)

-- The entries are none where the ring is no directory.
unfoldable pub segments_in_window : ℕ → ℕ → List Entry → List String
unfolding candidates sort_by_time
segments_in_window start_ts end_ts es =
    map (λ x. x.1) (sort_by_time (candidates start_ts end_ts es))

-- The time of a stable run and the delays, in a unit of which a second has `second`.
module _ (second : ℕ) where
  -- `delay` at the wait after a run.
  unfoldable pub delay_after : ℕ → ℕ → ℕ
  delay_after delay run_seconds = if leb (30 * second) run_seconds then 2 * second else delay

  -- What the loop of `_run_supervisor` waits for after each of the runs of ffmpeg.
  unfoldable pub delays : ℕ → List ℕ → List ℕ
  unfolding delay_after
  delays delay [] = []
  delays delay (run_seconds ∷ runs) =
      let now = delay_after delay run_seconds in now ∷ delays (min (now * 2) (30 * second)) runs

  unfoldable pub run_supervisor : List ℕ → List ℕ
  unfolding delays
  run_supervisor runs = delays (2 * second) runs
