-- ===== src/Clipper/Clips/Sound.antt =====
-- The table over the tasks of the pool: one row for each token, of a clip or of a failure.
use openring.Prelude.Yaml.{Value}
use openring.Prelude.{
  ℕ, String, Bool, true, false, not, ◌||◌, ◌≡◌, refl, inl, inr, Option, none, some, List, [], ◌∷◌,
  length, All, is_some, is_empty, Bool-cases, arith, ◌==◌, ◌≤◌,
}
use openring.Shared.Signing.{Event}
use openring.Clipper.Settings.{ClipperSettings}
use openring.Clipper.Clips.Table.{Row, insert_clip, insert_failure, failure_row}
use openring.Clipper.Clips.Base.{
  clip_row, Written, raised, failed, written, is_token, World, token_of, file_name, record_clip,
  segments_of, make_clip, Task, run,
}
use openring.Clipper.Clips.Rows.{IsKeyed, All-upsert, upsert-IsKeyed}

-- A row of a clip, which has segments and a size, or of a failure, which has none.
abbrev pub Status : Option String → Option ℕ → ℕ → Type 0
Status none size segments_used = (is_some size ≡ true) × (1 ≤ segments_used)
Status (some error) size segments_used = segments_used ≡ 0

pub record IsSound (r : Row) : Type 0 where
  pub token : is_token r.feedback_token ≡ true
  pub status : Status r.error r.size_bytes r.segments_used

pub record IsWell (rows : List Row) : Type 0 where
  pub keyed : IsKeyed rows
  pub sound : All IsSound rows

insert_failure-IsWell :
    (stored : Bool) (token camera now error : String) (rows : List Row)
    → is_token token ≡ true
    → IsWell rows
    → IsWell (insert_failure stored token camera now error rows)
unfolding insert_failure
insert_failure-IsWell false token camera now error rows valid h = h
insert_failure-IsWell true token camera now error rows valid h =
    let update = λ (r : Row). record r { error = some error; segments_used = 0 } in
    let new = failure_row token camera now error in
    record {
      keyed = upsert-IsKeyed update new (λ r. refl) rows h.keyed;
      sound =
          All-upsert update new (λ r. refl) IsSound rows
            (λ r its. record { token = its.token; status = refl })
            (record { token = valid; status = refl }) h.sound;
    }

insert_clip-IsWell :
    (stored : Bool) (new : Row) (rows : List Row)
    → is_token new.feedback_token ≡ true
    → Status none new.size_bytes new.segments_used
    → new.error ≡ none
    → IsWell rows
    → IsWell (insert_clip stored new rows)
unfolding insert_clip
insert_clip-IsWell false new rows valid status fine h = h
insert_clip-IsWell true new rows valid status fine h =
    let update = λ (r : Row). record new {
      feedback_token = r.feedback_token;
      camera_name = r.camera_name;
      created_at = r.created_at;
      error = none;
    } in
    record {
      keyed = upsert-IsKeyed update new (λ r. refl) rows h.keyed;
      sound =
          All-upsert update new (λ r. refl) IsSound rows
            (λ r its. record { token = its.token; status = status })
            (record { token = valid; status = rw fine status }) h.sound;
    }

one-le-length : (l : List String) → is_empty l ≡ false → 1 ≤ length l
one-le-length [] h = cc h
one-le-length (x ∷ l) h = omega arith

module _ (repr : Value → String) (fromisoformat : String → Option ℕ)
    (in_dir : String → String → String) (message : ℕ → ℕ → String) (head_500 : String → String)
    (second : ℕ) where
  record_clip-IsWell :
      (s : ClipperSettings) (token camera : String) (w : World) (segments : List String)
      (o : Written) (rows : List Row)
      → is_token token ≡ true
      → is_empty segments ≡ false
      → IsWell rows
      → IsWell (
          record_clip repr fromisoformat in_dir message head_500 second s token camera w segments o
            rows)
  unfolding record_clip
  record_clip-IsWell s token camera w segments raised rows valid found h = h
  record_clip-IsWell s token camera w segments failed rows valid found h =
      insert_failure-IsWell w.stored token camera w.created_at (head_500 "ffmpeg concat failed")
        rows valid h
  record_clip-IsWell s token camera w segments (written size) rows valid found h =
      let path = in_dir s.clips_dir (file_name token) in
      insert_clip-IsWell w.stored (clip_row s token camera path w.created_at size (length segments))
        rows valid (refl, one-le-length segments found) refl h

  make_clip-IsWell :
      (s : ClipperSettings) (camera : String) (w : World) (event : Event) (rows : List Row)
      → IsWell rows
      → IsWell
          (make_clip repr fromisoformat in_dir message head_500 second s camera w event rows).rows
  unfolding make_clip
  make_clip-IsWell s camera w event rows h =
      let token = token_of repr event in
      let segments = segments_of repr fromisoformat in_dir message head_500 second s w event in
      elim (Bool-cases (token == "" || not (is_token token))) [
        | inl refused ↦ rw refused h
        | inr fine ↦
            let valid : is_token token ≡ true = ground (arith, fine) in
            rw fine (elim (Bool-cases (is_empty segments)) [
              | inl empty ↦
                  rw empty (insert_failure-IsWell w.stored token camera w.created_at _ rows valid h)
              | inr found ↦
                  rw found (record_clip-IsWell s token camera w segments _ rows valid found h)
            ])
      ]

  -- Over any tasks, whatever their events, settings, rings and runs of ffmpeg and whichever statements
  -- fail, the table keeps at most one row for a token; each row has a token of the pattern, and has no
  -- error but a size and segments, or has an error and no segments.
  pub run-IsWell :
      (ts : List (Task repr fromisoformat in_dir message head_500 second)) (rows : List Row)
      → IsWell rows
      → IsWell (run repr fromisoformat in_dir message head_500 second ts rows)
  unfolding run
  run-IsWell [] rows h = h
  run-IsWell (t ∷ ts) rows h =
      run-IsWell ts _ (make_clip-IsWell t.settings t.camera t.world t.event rows h)
