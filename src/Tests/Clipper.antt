-- ===== src/Tests/Clipper.antt =====
-- services/clipper on concrete inputs.
use openring.Prelude.Yaml.{
  str_of, truthy, get, Value, null, flag, number, text, items, mapping, Items, nil, cons, Fields,
  end, field,
}
use openring.Prelude.Int.{ℤ, pos}
use openring.Prelude.Text.{lower, join, contains}
use openring.Prelude.{
  insert, ℕ, String, true, false, ◌≡◌, refl, Dict, Option, none, some, List, [], ◌∷◌, lookup,
  if◌then◌else◌, ◌==◌,
}
use openring.Shared.Signing
use openring.Shared.Signing.{Event}
use openring.Clipper.Ring
use openring.Clipper.Ring.Order.{IsListing, segments_in_window-IsListing}
use openring.Clipper.Settings
use openring.Clipper.Settings.{ClipperSettings}
use openring.Clipper.Clips
use openring.Clipper.Clips.{World, Ffmpeg, Task}
use openring.Clipper.Clips.Recorded.{Recorded}
use openring.Clipper.Clips.Names.{make_clip_stays}
use openring.Clipper.Clips.Sound.{IsWell, run-IsWell}
use openring.Clipper.Events
use openring.Clipper.Events.{object}
use openring.Clipper.Events.Wanted.{IsWanted, handle-IsWanted}
use openring.Clipper.Reload
use openring.Clipper.Reload.Tracked.{IsNamed, IsTracked, run-IsTracked}

abbrev entry : String → String → Option ℕ → Ring.Entry
entry path suffix modified = record {
  path = path;
  suffix = suffix;
  is_file = true;
  modified = modified;
}

-- The ring has wrapped: the first file is the newest.
abbrev ring : List Ring.Entry
ring =
    entry "seg_000.ts" ".ts" (some 104)
    ∷ entry "seg_001.ts" ".ts" (some 98)
    ∷ entry "seg_002.ts" ".ts" (some 101)
    ∷ entry "seg_003.ts" ".ts" none
    ∷ entry "seg_004.ts" ".ts" (some 50)
    ∷ entry "notes.txt" ".txt" (some 100)
    ∷ []

window : Ring.segments_in_window 94 106 ring ≡ "seg_001.ts" ∷ "seg_002.ts" ∷ "seg_000.ts" ∷ []
unfolding Ring.segments_in_window
window = refl

segments_in_window-IsListing_example : IsListing 94 106 ring (Ring.segments_in_window 94 106 ring)
segments_in_window-IsListing_example = segments_in_window-IsListing 94 106 ring

-- Two crashes, a stable run, and five more crashes.
restarts :
    Ring.run_supervisor 1 (3 ∷ 1 ∷ 40 ∷ 2 ∷ 2 ∷ 2 ∷ 2 ∷ 2 ∷ [])
    ≡ 2 ∷ 4 ∷ 2 ∷ 4 ∷ 8 ∷ 16 ∷ 30 ∷ 30 ∷ []
unfolding Ring.run_supervisor
restarts = refl

abbrev no_text : Value → String
no_text v = "?"

abbrev as_number : Value → Option ℕ
as_number (number n) = some n
as_number null = none
as_number (flag b) = none
as_number (text s) = none
as_number (items l) = none
as_number (mapping m) = none

abbrev as_integer : Value → Option ℤ
as_integer (number n) = some (pos n)
as_integer null = none
as_integer (flag b) = none
as_integer (text s) = none
as_integer (items l) = none
as_integer (mapping m) = none

abbrev camera : String → Fields
camera name = field "name" (text name) (field "rtsp_url" (text "rtsp://cam") end)

abbrev config : Items → Fields → Fields
config cameras clipper = field "clipper" (mapping clipper) (field "cameras" (items cameras) end)

abbrev enabled_only : Fields
enabled_only = field "enabled" (flag true) end

-- A section with an empty list of classes gets the default ones.
empty_classes :
    Settings.from_yaml no_text as_number as_number as_integer 1 1 (
      config nil (
        field "enabled"
          (flag true)
          (field "trigger_classes" (items nil) (field "segments_per_camera" (number 2) end))))
    ≡ some record (Settings.defaults 1 1) { enabled = true; segments_per_camera = 8 }
unfolding Settings.from_yaml get truthy
empty_classes = refl

abbrev settings : ClipperSettings
settings = record (Settings.defaults 1 1) { enabled = true }

abbrev noon : String → Option ℕ
noon s = if s == "noon" then some 100 else none

abbrev in_dir : String → String → String
in_dir dir name = join dir (join "/" name)

abbrev press : Event
press =
    ("feedback_token", text "0123456789abcdef")
    ∷ ("timestamp", text "noon")
    ∷ ("camera_name", text "front")
    ∷ ("class_name", text "doorbell_press")
    ∷ ("confidence", number 100)
    ∷ []

abbrev works : Ffmpeg
works = record { present = true; listing_written = true; returncode = some 0; size = some 9000 }

abbrev found : List Ring.Entry → Ffmpeg → World
found ring ffmpeg = record {
  now = 103;
  ring = ring;
  ffmpeg = ffmpeg;
  created_at = "later";
  stored = true;
}

abbrev message : ℕ → ℕ → String
message start_ts end_ts = "no segments"

-- The clip of the press, from three segments.
pressed :
    (Clips.make_clip no_text noon in_dir message
      (λ s. s)
      1
      settings
      "front"
      (found ring works)
      press
      []).rows
    ≡ Clips.clip_row settings "0123456789abcdef" "front" "/data/clips/0123456789abcdef.mp4" "later"
        9000 3
      ∷ []
unfolding Clips.make_clip lookup join str_of
pressed = refl

-- The same event again, with an empty ring: the clip that is there is marked with an error.
pressed_again :
    Clips.run no_text noon in_dir message
      (λ s. s)
      1
      (record { settings = settings; camera = "front"; world = found ring works; event = press }
        ∷ record { settings = settings; camera = "front"; world = found [] works; event = press }
        ∷ [])
      []
    ≡ record (Clips.clip_row settings "0123456789abcdef" "front" "/data/clips/0123456789abcdef.mp4"
        "later" 9000 3) { error = some "no segments"; segments_used = 0 }
      ∷ []
unfolding Clips.run Clips.make_clip lookup join str_of
pressed_again = refl

output :
    (Clips.make_clip no_text noon in_dir message
      (λ s. s)
      1
      settings
      "front"
      (found ring works)
      press
      []).output
    ≡ some "0123456789abcdef.mp4"
unfolding Clips.make_clip lookup join str_of
output = refl

make_clip_stays_example : contains "0123456789abcdef.mp4" "/" ≡ false
make_clip_stays_example =
    make_clip_stays no_text noon in_dir message (λ s. s) 1 settings "front" (found ring works) press
      [] "0123456789abcdef.mp4" output

abbrev tasks : List (Task no_text noon in_dir message (λ s. s) 1)
tasks =
    record { settings = settings; camera = "front"; world = found ring works; event = press }
    ∷ record { settings = settings; camera = "front"; world = found [] works; event = press }
    ∷ []

run-IsWell_example : IsWell (Clips.run no_text noon in_dir message (λ s. s) 1 tasks [])
run-IsWell_example =
    run-IsWell no_text noon in_dir message (λ s. s) 1 tasks [] (record { keyed = tt; sound = tt })

-- A digest that is the number of fields.
abbrev signed_press : Event
signed_press = ("_sig", text "k") ∷ press

abbrev segmenters : Dict String
segmenters = ("front", "first") ∷ []

submitted :
    Events.handle as_number
      (λ e. some e)
      (λ (k : String) e. k)
      (some "k")
      settings
      segmenters
      "message"
      (object signed_press)
    ≡ Events.submitted "first"
unfolding Events.handle Signing.verify_event Settings.applies_to lookup Signing.digest
    Signing.compare_digest truthy lower
submitted = refl

handle-IsWanted_example :
    (event : Event) × (object signed_press ≡ object event)
    × IsWanted as_number (λ e. some e) (λ (k : String) e. k) "k" settings segmenters "first" event
handle-IsWanted_example =
    handle-IsWanted as_number (λ e. some e) (λ (k : String) e. k) "k" settings segmenters "message"
      (object signed_press) "first" submitted

abbrev two_cameras : Fields
two_cameras =
    config (cons (mapping (camera "front")) (cons (mapping (camera "side")) nil)) enabled_only

abbrev twins : Fields
twins = config (cons (mapping (camera "front")) (cons (mapping (camera "front")) nil)) enabled_only

abbrev started : Reload.State
started = record { settings = Settings.defaults 1 1; segmenters = []; running = []; started = 0 }

-- A reload in which every segmenter starts.
abbrev well : Fields → Reload.Reload
well cfg = record { cfg = cfg; starts = λ name. true }

-- Of two cameras with one name, the first one's segmenter runs on after the next reload.
twins_leak :
    (Reload.run no_text as_number as_number as_integer 1 1
      (well twins ∷ well two_cameras ∷ [])
      started).running
    ≡ 0 ∷ 2 ∷ 3 ∷ []
unfolding Reload.run Settings.from_yaml Settings.load_cameras get truthy insert
twins_leak = refl

-- Where the second camera's segmenter does not start, the first one's runs on after the next reload.
failed_leak :
    (Reload.run no_text as_number as_number as_integer 1 1
      (record { cfg = two_cameras; starts = λ name. name == "front" } ∷ well two_cameras ∷ [])
      started).running
    ≡ 0 ∷ 1 ∷ 2 ∷ []
unfolding Reload.run Settings.from_yaml Settings.load_cameras get truthy insert
failed_leak = refl

two-IsNamed : IsNamed (well two_cameras)
unfolding Settings.load_cameras Reload.name_of get truthy
two-IsNamed = record {
  cameras = camera "front" ∷ camera "side" ∷ [];
  listed = refl;
  names = "front" ∷ "side" ∷ [];
  named = refl;
  fresh = (refl, (refl, tt));
  start = (refl, (refl, tt));
}

run-IsTracked_example : IsTracked (
    Reload.run no_text as_number as_number as_integer 1 1
      (well two_cameras ∷ well two_cameras ∷ [])
      started)
run-IsTracked_example =
    run-IsTracked no_text as_number as_number as_integer 1 1
      (well two_cameras ∷ well two_cameras ∷ []) started (two-IsNamed, (two-IsNamed, tt)) refl
