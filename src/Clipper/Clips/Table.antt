-- ===== src/Clipper/Clips/Table.antt =====
-- The table `clips` and its statements.
use openring.Prelude.{ℕ, String, Bool, Option, none, some, List, [], ◌∷◌, if◌then◌else◌, ◌==◌}

-- A row of `clips`, less its id.
pub record Row : Type 0 where
  pub feedback_token : String
  pub camera_name : String
  pub clip_path : String
  pub pre_roll_seconds : Option ℕ
  pub post_roll_seconds : Option ℕ
  pub duration_seconds : Option ℕ
  pub size_bytes : Option ℕ
  pub segments_used : ℕ
  pub created_at : String
  pub error : Option String

-- INSERT INTO clips … ON CONFLICT(feedback_token) DO UPDATE
unfoldable pub upsert : (Row → Row) → Row → List Row → List Row
upsert update new [] = new ∷ []
upsert update new (r ∷ rows) =
    let rest = upsert update new rows in
    if r.feedback_token == new.feedback_token then update r ∷ rows else r ∷ rest

-- `insert_clip` of a row without an error; `stored` is false where the statement fails.
unfoldable pub insert_clip : Bool → Row → List Row → List Row
unfolding upsert
insert_clip stored new rows =
    if stored
    then upsert
        (λ r. record r {
          clip_path = new.clip_path;
          pre_roll_seconds = new.pre_roll_seconds;
          post_roll_seconds = new.post_roll_seconds;
          duration_seconds = new.duration_seconds;
          size_bytes = new.size_bytes;
          segments_used = new.segments_used;
          error = none;
        })
        new rows
    else rows

abbrev pub failure_row : String → String → String → String → Row
failure_row token camera now error = record {
  feedback_token = token;
  camera_name = camera;
  clip_path = "";
  pre_roll_seconds = none;
  post_roll_seconds = none;
  duration_seconds = none;
  size_bytes = none;
  segments_used = 0;
  created_at = now;
  error = some error;
}

-- `insert_failure`, with the text of the error cut to 500 characters.
unfoldable pub insert_failure : Bool → String → String → String → String → List Row → List Row
unfolding upsert
insert_failure stored token camera now error rows =
    if stored
    then upsert (λ r. record r { error = some error; segments_used = 0 })
        (failure_row token camera now error) rows
    else rows

-- SELECT * FROM clips WHERE feedback_token = ?
unfoldable pub row_of : String → List Row → Option Row
row_of token [] = none
row_of token (r ∷ rows) =
    let rest = row_of token rows in if r.feedback_token == token then some r else rest

unfoldable pub get_clip_for_token : String → List Row → Option Row
unfolding row_of
get_clip_for_token token rows = if token == "" then none else row_of token rows
