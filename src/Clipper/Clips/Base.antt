-- ===== src/Clipper/Clips/Base.antt =====
-- `write_clip` and `_make_clip`.
use Prim.Native.Char.{Char, code}
use openring.Prelude.Yaml.{Value, text, str_of}
use openring.Prelude.Text.{join}
use openring.Prelude.{
  ℕ, zero, suc, ◌+◌, ◌-◌, ◌*◌, String, Bool, true, not, ◌&&◌, ◌||◌, Option, none, some, List, [],
  ◌∷◌, length, is_empty, beq, leb, if◌then◌else◌, lookup, ◌==◌,
}
use openring.Shared.Signing.{Event}
use openring.Clipper.Ring.{Entry, segments_in_window}
use openring.Clipper.Settings.{ClipperSettings}
use openring.Clipper.Clips.Table.{Row, insert_clip, insert_failure}

-- What `write_clip` meets: whether ffmpeg is there, whether the list of segments can be written, the
-- exit code, or none where ffmpeg cannot be run or is timed out, and the size of the file.
pub record Ffmpeg : Type 0 where
  pub present : Bool
  pub listing_written : Bool
  pub returncode : Option ℕ
  pub size : Option ℕ

-- What `write_clip` does: it raises, or returns None or a size.
pub data Written : Type 0 where
  raised failed : Written
  written : ℕ → Written

abbrev pub size_written : Option ℕ → Written
size_written none = failed
size_written (some size) = written size

-- After the run: result.returncode != 0, and the `stat`.
unfoldable pub finished : Option ℕ → Option ℕ → Written
finished none size = failed
finished (some zero) size = size_written size
finished (some (suc code)) size = failed

unfoldable pub write_clip : Ffmpeg → List String → Written
unfolding finished
write_clip f segments =
    if is_empty segments || not f.present
    then failed
    else if not f.listing_written
    then raised
    else finished f.returncode f.size

-- [a-zA-Z0-9_-]
abbrev pub is_token_char : Char → Bool
is_token_char c =
    (leb 97 (code c) && leb (code c) 122)
    || (leb 65 (code c) && leb (code c) 90)
    || (leb 48 (code c) && leb (code c) 57)
    || beq (code c) 95
    || beq (code c) 45

-- Characters of the class up to the end, or up to a line feed at the end, before which `$` matches too.
unfoldable pub all_token_chars : String → Bool
all_token_chars String.[] = true
all_token_chars (String.◌∷◌ c s) =
    (beq (code c) 10 && s == "") || (is_token_char c && all_token_chars s)

unfoldable pub count_token_chars : String → ℕ
count_token_chars String.[] = 0
count_token_chars (String.◌∷◌ c s) =
    if is_token_char c then suc (count_token_chars s) else count_token_chars s

-- `_FEEDBACK_TOKEN_RE.match`
unfoldable pub is_token : String → Bool
unfolding all_token_chars count_token_chars
is_token s = all_token_chars s && leb 8 (count_token_chars s) && leb (count_token_chars s) 128

abbrev pub or_now : ℕ → Option ℕ → ℕ
or_now now none = now
or_now now (some t) = t

module _ (fromisoformat : String → Option ℕ) where
  abbrev pub text_ts : ℕ → String → ℕ
  text_ts now raw = if raw == "" then now else or_now now (fromisoformat raw)

  unfoldable pub parse_event_ts : ℕ → Event → ℕ
  parse_event_ts now event = elim (lookup "timestamp" event) [
    | some (text raw) ↦ text_ts now raw
    | _ ↦ now
  ]

-- What a task finds: the clock, the ring after its sleep, ffmpeg, the clock and the success of the
-- statement that it makes.
pub record World : Type 0 where
  pub now : ℕ
  pub ring : List Entry
  pub ffmpeg : Ffmpeg
  pub created_at : String
  pub stored : Bool

-- The table after a task, and the name of the file that it has ffmpeg write.
pub record Made : Type 0 where
  pub rows : List Row
  pub output : Option String

-- str(event.get("feedback_token", ""))
abbrev pub token_of : (Value → String) → Event → String
token_of repr event = elim (lookup "feedback_token" event) [ none ↦ "" | some v ↦ str_of repr v ]

abbrev pub file_name : String → String
file_name token = join token ".mp4"

-- The row of a clip at a path.
abbrev pub clip_row : ClipperSettings → String → String → String → String → ℕ → ℕ → Row
clip_row s token camera path now size segments_used = record {
  feedback_token = token;
  camera_name = camera;
  clip_path = path;
  pre_roll_seconds = some s.pre_roll_seconds;
  post_roll_seconds = some s.post_roll_seconds;
  duration_seconds = some (s.pre_roll_seconds + s.post_roll_seconds);
  size_bytes = some size;
  segments_used = segments_used;
  created_at = now;
  error = none;
}

-- A second has `second` units of time; `in_dir` is the path of a name in a directory, `message` the text
-- of an error, and `head_500` its first 500 characters.
module _ (repr : Value → String) (fromisoformat : String → Option ℕ)
    (in_dir : String → String → String) (message : ℕ → ℕ → String) (head_500 : String → String)
    (second : ℕ) where
  -- The end of `_make_clip`, by what `write_clip` does.
  unfoldable pub record_clip :
      ClipperSettings → String → String → World → List String → Written → List Row → List Row
  record_clip s token camera w segments raised rows = rows
  record_clip s token camera w segments failed rows =
      insert_failure w.stored token camera w.created_at (head_500 "ffmpeg concat failed") rows
  record_clip s token camera w segments (written size) rows =
      insert_clip w.stored
        (clip_row s token camera (in_dir s.clips_dir (file_name token)) w.created_at size
          (length segments))
        rows

  abbrev pub window_start : ClipperSettings → ℕ → ℕ
  window_start s event_ts = event_ts - s.pre_roll_seconds - s.segment_seconds * second

  abbrev pub window_end : ClipperSettings → ℕ → ℕ
  window_end s event_ts = event_ts + s.post_roll_seconds + s.segment_seconds * second

  unfoldable pub segments_of : ClipperSettings → World → Event → List String
  unfolding parse_event_ts segments_in_window
  segments_of s w event =
      let event_ts = parse_event_ts fromisoformat w.now event in
      segments_in_window (window_start s event_ts) (window_end s event_ts) w.ring

  -- `_make_clip` for an event of the segmenter's camera. A negative start of a window is taken for zero.
  unfoldable pub make_clip : ClipperSettings → String → World → Event → List Row → Made
  unfolding segments_of record_clip write_clip is_token insert_failure insert_clip
  make_clip s camera w event rows =
      let token = token_of repr event in
      let event_ts = parse_event_ts fromisoformat w.now event in
      let segments = segments_of s w event in
      if token == "" || not (is_token token)
      then record { rows = rows; output = none }
      else if is_empty segments
      then record {
        rows =
            insert_failure w.stored token camera w.created_at
              (head_500 (message (window_start s event_ts) (window_end s event_ts))) rows;
        output = none;
      }
      else record {
        rows = record_clip s token camera w segments (write_clip w.ffmpeg segments) rows;
        output =
            if w.ffmpeg.present && w.ffmpeg.listing_written then some (file_name token) else none;
      }

  -- A task of the pool.
  pub record Task : Type 0 where
    pub settings : ClipperSettings
    pub camera : String
    pub world : World
    pub event : Event

  -- The table after the tasks, in the order in which they take the lock of the table.
  unfoldable pub run : List Task → List Row → List Row
  unfolding make_clip
  run [] rows = rows
  run (t ∷ ts) rows = run ts (make_clip t.settings t.camera t.world t.event rows).rows
