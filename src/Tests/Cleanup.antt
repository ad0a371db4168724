-- ===== src/Tests/Cleanup.antt =====
-- services/detector/src/cleanup.py on concrete inputs.
use openring.Prelude.{
  ℕ, String, Bool, ◌≡◌, refl, true, Option, none, some, List, [], ◌∷◌, inl, ◌==◌,
}
use openring.Detector.Cleanup
use openring.Detector.Cleanup.{Entry, Row, World, Conditions, Pass}
use openring.Detector.Cleanup.Labelled.{IsKept, run-IsKept}
use openring.Detector.Cleanup.Exact.{IsCalm}
use openring.Detector.Cleanup.Retained.{retained, prune-eq-retained}

abbrev snapshot : String → Option ℕ → Entry
snapshot path modified = record {
  path = path;
  stem = path;
  suffix = ".jpg";
  is_file = true;
  modified = modified;
  unlinks = true;
}

abbrev clip : String → ℕ → Entry
clip token modified = record {
  path = token;
  stem = token;
  suffix = ".mp4";
  is_file = true;
  modified = some modified;
  unlinks = true;
}

abbrev row : String → Option String → String → Option String → Row
row timestamp feedback token snapshot_path = record {
  timestamp = timestamp;
  camera_name = "front";
  feedback = feedback;
  feedback_token = some token;
  snapshot_path = snapshot_path;
}

-- A clip that is still written, and a row of the system itself.
abbrev part : Entry
part = record (clip "p" 7) { suffix = ".part" }

abbrev system_row : Row
system_row = record (row "old" none "s" none) { camera_name = "_system" }

abbrev world : World
world = record {
  snapshots = snapshot "1.jpg" (some 5) ∷ snapshot "2.jpg" (some 50) ∷ [];
  clips = clip "l" 5 ∷ clip "u" 6 ∷ clip "n" 50 ∷ part ∷ [];
  detection_events =
      row "old" (some "person") "l" (some "1.jpg")
      ∷ row "old" none "u" none
      ∷ system_row
      ∷ row "new" none "n" (some "2.jpg")
      ∷ [];
  clip_rows = some "l" ∷ some "u" ∷ some "n" ∷ [];
  visit_sessions = "old" ∷ "new" ∷ [];
  system_metrics = "old" ∷ [];
}

abbrev fine : Conditions
fine = record {
  snapshots_list = true;
  clips_list = true;
  paths_clear = true;
  labels_read = true;
  rows_delete = true;
  tables_prune = true;
}

abbrev earlier : String → String → Bool
earlier s t = s == "old"

abbrev passes : List Pass
passes =
    record { retention_days = 3; now = 50; conditions = fine }
    ∷ record { retention_days = 0; now = 60; conditions = fine }
    ∷ []

-- The labelled event loses its old snapshot, and its clip is kept.
cleaned : Cleanup.run earlier (λ t. "cutoff") 10 true passes world ≡ record {
  snapshots = snapshot "2.jpg" (some 50) ∷ [];
  clips = clip "l" 5 ∷ clip "n" 50 ∷ part ∷ [];
  detection_events =
      row "old" (some "person") "l" none ∷ system_row ∷ row "new" none "n" (some "2.jpg") ∷ [];
  clip_rows = some "l" ∷ some "n" ∷ [];
  visit_sessions = "new" ∷ [];
  system_metrics = [];
}
unfolding Cleanup.run
cleaned = refl

-- The first file is deleted before `stat` raises on the second: the row keeps its path.
broken_off :
    Cleanup.prune_snapshots 20 fine
      record world { snapshots = snapshot "1.jpg" (some 5) ∷ snapshot "2.jpg" none ∷ [] }
    ≡ record world { snapshots = snapshot "2.jpg" none ∷ [] }
unfolding Cleanup.prune_snapshots
broken_off = refl

kept : IsKept (clip "l" 5) world
unfolding Cleanup.is_labelled
kept = record { labelled = refl; file = inl refl; row = inl refl }

run-IsKept_example : IsKept (clip "l" 5) (Cleanup.run earlier (λ t. "cutoff") 10 true passes world)
run-IsKept_example =
    run-IsKept earlier (λ t. "cutoff") 10 true passes (clip "l" 5) world (refl, (refl, tt)) kept

calm : IsCalm fine world
calm = record {
  snapshots_list = refl;
  clips_list = refl;
  paths_clear = refl;
  labels_read = refl;
  rows_delete = refl;
  tables_prune = refl;
  readable = (refl, (refl, tt));
  snapshots_unlink = (refl, (refl, tt));
  clips_unlink = (refl, (refl, (refl, (refl, tt))));
}

prune-eq-retained_example :
    Cleanup.prune earlier (λ t. "cutoff") 10 true 20 fine world ≡ retained earlier "cutoff" 20 world
prune-eq-retained_example = prune-eq-retained earlier (λ t. "cutoff") 10 20 fine world calm
