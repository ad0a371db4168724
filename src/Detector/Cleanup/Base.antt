-- ===== src/Detector/Cleanup/Base.antt =====
-- The files and tables that `RetentionCleaner` prunes, and its `_run`.
use openring.Prelude.{
  ℕ, ◌-◌, ◌*◌, String, Bool, true, false, not, ◌&&◌, ◌||◌, Option, none, some, List, [], ◌∷◌,
  filter, map, any, ltb, leb, is_some, is_empty, if◌then◌else◌, ◌==◌,
}

-- An entry of a directory. `modified` is none where `stat` raises, and `unlinks` false where
-- `unlink` does.
pub record Entry : Type 0 where
  pub path : String
  pub stem : String
  pub suffix : String
  pub is_file : Bool
  pub modified : Option ℕ
  pub unlinks : Bool

-- A row of `detection_events`.
pub record Row : Type 0 where
  pub timestamp : String
  pub camera_name : String
  pub feedback : Option String
  pub feedback_token : Option String
  pub snapshot_path : Option String

-- The directories, and the tables with the columns that are read: the tokens of `clips`, the start
-- times of `visit_sessions`, and the times of `system_metrics`.
pub record World : Type 0 where
  pub snapshots : List Entry
  pub clips : List Entry
  pub detection_events : List Row
  pub clip_rows : List (Option String)
  pub visit_sessions : List String
  pub system_metrics : List String

-- Which listings and database calls of a run succeed.
pub record Conditions : Type 0 where
  pub snapshots_list : Bool
  pub clips_list : Bool
  pub paths_clear : Bool
  pub labels_read : Bool
  pub rows_delete : Bool
  pub tables_prune : Bool

abbrev pub mem : String → List String → Bool
mem s = any (λ t. t == s)

abbrev pub mem_option : Option String → List String → Bool
mem_option none l = false
mem_option (some s) l = mem s l

-- What a pass over the snapshots leaves and has deleted, and whether it raised.
pub record Scan : Type 0 where
  pub kept : List Entry
  pub deleted : List String
  pub raised : Bool

abbrev pub keep : Entry → Scan → Scan
keep e r = record { kept = e ∷ r.kept; deleted = r.deleted; raised = r.raised }

abbrev pub delete : Entry → Scan → Scan
delete e r = record { kept = r.kept; deleted = e.path ∷ r.deleted; raised = r.raised }

-- mtime < cutoff
abbrev pub is_old : ℕ → Option ℕ → Bool
is_old cutoff none = false
is_old cutoff (some t) = ltb t cutoff

-- The loop of `_prune_snapshots`; an error of the listing comes after its entries.
unfoldable pub scan : ℕ → Bool → List Entry → Scan
scan cutoff listed [] = record { kept = []; deleted = []; raised = not listed }
scan cutoff listed (e ∷ es) =
    let rest = scan cutoff listed es in
    if not e.is_file
    then keep e rest
    else if not (is_some e.modified)
    then record { kept = e ∷ es; deleted = []; raised = true }
    else if is_old cutoff e.modified && e.unlinks
    then delete e rest
    else keep e rest

-- UPDATE detection_events SET snapshot_path = NULL WHERE snapshot_path IN (…)
unfoldable pub clear_path : List String → Row → Row
clear_path paths r =
    if mem_option r.snapshot_path paths then record r { snapshot_path = none } else r

unfoldable pub clear_db_paths : Bool → List String → List Row → List Row
unfolding clear_path
clear_db_paths ok paths rows = if ok then map (clear_path paths) rows else rows

unfoldable pub prune_snapshots : ℕ → Conditions → World → World
unfolding scan clear_db_paths
prune_snapshots cutoff c w =
    let s = scan cutoff c.snapshots_list w.snapshots in
    record w {
      snapshots = s.kept;
      detection_events =
          if s.raised || is_empty s.deleted
          then w.detection_events
          else clear_db_paths c.paths_clear s.deleted w.detection_events;
    }

-- Whether the loop of `_prune_clips` takes the entry: an old .mp4 file with a stem.
unfoldable pub is_candidate : ℕ → Entry → Bool
is_candidate cutoff e =
    e.is_file && e.suffix == ".mp4" && is_old cutoff e.modified && not (e.stem == "")

-- SELECT … WHERE feedback IS NOT NULL AND feedback_token = ?
unfoldable pub is_labelled : List Row → String → Bool
is_labelled rows token =
    any (λ r. is_some r.feedback && mem_option r.feedback_token (token ∷ [])) rows

-- `token in labelled_tokens`; where the query fails, no token is.
unfoldable pub in_labelled_tokens : Bool → List Row → String → Bool
unfolding is_labelled
in_labelled_tokens ok rows token = ok && is_labelled rows token

unfoldable pub is_deletable : ℕ → Conditions → List Row → Entry → Bool
unfolding is_candidate in_labelled_tokens
is_deletable cutoff c rows e =
    is_candidate cutoff e && not (in_labelled_tokens c.labels_read rows e.stem)

-- The clips that are deleted.
abbrev pub goes : ℕ → Conditions → List Row → Entry → Bool
goes cutoff c rows e = is_deletable cutoff c rows e && e.unlinks

-- DELETE FROM clips WHERE feedback_token IN (…)
unfoldable pub delete_clip_rows : List Entry → List (Option String) → List (Option String)
delete_clip_rows gone = filter (λ token. not (mem_option token (map (λ e. e.stem) gone)))

unfoldable pub prune_clips : ℕ → Conditions → World → World
unfolding is_deletable delete_clip_rows
prune_clips cutoff c w =
    let gone = filter (goes cutoff c w.detection_events) w.clips in
    if not c.clips_list then w else record w {
      clips = filter (λ e. not (goes cutoff c w.detection_events e)) w.clips;
      clip_rows = if c.rows_delete then delete_clip_rows gone w.clip_rows else w.clip_rows;
    }

-- A pass of the thread's loop.
pub record Pass : Type 0 where
  pub retention_days : ℕ
  pub now : ℕ
  pub conditions : Conditions

-- `<` on texts in SQLite is a parameter.
module _ (earlier : String → String → Bool) where
  -- WHERE timestamp < ? AND feedback IS NULL AND camera_name != '_system'
  unfoldable pub is_expired : String → Row → Bool
  is_expired cutoff_iso r =
      earlier r.timestamp cutoff_iso && not (is_some r.feedback) && not (r.camera_name == "_system")

  -- One transaction: where a statement fails, nothing is deleted.
  unfoldable pub prune_db : String → Bool → World → World
  unfolding is_expired
  prune_db cutoff_iso ok w =
      if ok
      then record w {
        detection_events = filter (λ r. not (is_expired cutoff_iso r)) w.detection_events;
        visit_sessions = filter (λ t. not (earlier t cutoff_iso)) w.visit_sessions;
        system_metrics = filter (λ t. not (earlier t cutoff_iso)) w.system_metrics;
      }
      else w

  -- `_run` at a time, in a unit of which a day has `day`; `isoformat` prints a time, and
  -- `has_clips` tells whether there is a directory of clips.
  module _ (isoformat : ℕ → String) (day : ℕ) (has_clips : Bool) where
    -- The steps after the cutoff is known.
    unfoldable pub prune : ℕ → Conditions → World → World
    unfolding prune_snapshots prune_clips prune_db
    prune cutoff c w =
        let w' = prune_snapshots cutoff c w in
        prune_db (isoformat cutoff) c.tables_prune
          (if has_clips then prune_clips cutoff c w' else w')

    -- Zero stands for any number of days that is not positive.
    unfoldable pub run_once : ℕ → ℕ → Conditions → World → World
    unfolding prune
    run_once retention_days now c w =
        if leb retention_days 0 then w else prune (now - retention_days * day) c w

    -- The passes of the loop.
    unfoldable pub run : List Pass → World → World
    unfolding run_once
    run [] w = w
    run (p ∷ ps) w = run ps (run_once p.retention_days p.now p.conditions w)
