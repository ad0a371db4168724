-- ===== src/Clipper/Clips/Recorded.antt =====
-- What `_make_clip` records of an event.
use openring.Prelude.{ℕ, String, true, ◌≡◌, none, some, List, length, is_some}
use openring.Clipper.Clips.Table.{Row}
use openring.Clipper.Clips.Base.{Ffmpeg, failed, written, write_clip}

-- The row for what `write_clip` did with the segments.
pub data Recorded (ffmpeg : Ffmpeg) (segments : List String) (path : String) (r : Row)
    : Type 0 where
  clip :
      (size : ℕ)
      → write_clip ffmpeg segments ≡ written size
      → r.error ≡ none
      → r.size_bytes ≡ some size
      → r.segments_used ≡ length segments
      → r.clip_path ≡ path
      → Recorded ffmpeg segments path r
  failure :
      write_clip ffmpeg segments ≡ failed
      → is_some r.error ≡ true
      → r.segments_used ≡ 0
      → Recorded ffmpeg segments path r
