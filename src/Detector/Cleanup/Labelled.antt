-- ===== src/Detector/Cleanup/Labelled.antt =====
-- What belongs to a labelled event stays.
use openring.Prelude.{
  Among, Among-filter, ℕ, String, Bool, true, false, not, ◌&&◌, ◌||◌, ◌≡◌, refl, sym, subst, ◌∙◌,
  inl, inr, Option, some, List, [], ◌∷◌, filter, map, is_some, is_empty, if◌then◌else◌, Bool-cases,
  arith, ◌==◌, eq_iff, All, leb, ◌-◌, ◌*◌,
}
use openring.Detector.Cleanup.Base.{
  Entry, Row, World, Conditions, scan, mem, mem_option, clear_path, clear_db_paths, prune_snapshots,
  is_labelled, in_labelled_tokens, is_deletable, goes, delete_clip_rows, prune_clips, is_expired,
  prune_db, prune, run_once, Pass, run,
}

-- Some row with the token is labelled, whatever becomes of its snapshot path.
clear_path-label :
    (paths : List String) (r : Row) (token : String)
    → (is_some (clear_path paths r).feedback
        && mem_option (clear_path paths r).feedback_token (token ∷ []))
      ≡ (is_some r.feedback && mem_option r.feedback_token (token ∷ []))
unfolding clear_path
clear_path-label paths r token = elim (Bool-cases (mem_option r.snapshot_path paths)) [
  | inl cleared ↦ rw cleared refl
  | inr left ↦ rw left refl
]

clear_db_paths-label :
    (ok : Bool) (paths : List String) (rows : List Row) (token : String)
    → is_labelled (clear_db_paths ok paths rows) token ≡ is_labelled rows token
unfolding clear_db_paths is_labelled
clear_db_paths-label false paths rows token = refl
clear_db_paths-label true paths [] token = refl
clear_db_paths-label true paths (r ∷ rows) token =
    ground (arith, clear_path-label paths r token, clear_db_paths-label true paths rows token)

pub prune_snapshots-label :
    (cutoff : ℕ) (c : Conditions) (w : World) (token : String)
    → is_labelled (prune_snapshots cutoff c w).detection_events token
      ≡ is_labelled w.detection_events token
unfolding prune_snapshots
prune_snapshots-label cutoff c w token =
    let s = scan cutoff c.snapshots_list w.snapshots in
    elim (Bool-cases (s.raised || is_empty s.deleted)) [
      | inl none_cleared ↦ rw none_cleared refl
      | inr some_cleared ↦
          rw some_cleared (clear_db_paths-label c.paths_clear s.deleted w.detection_events token)
    ]

-- A labelled clip is not deleted, and no deleted clip has its token.
module _ (cutoff : ℕ) (c : Conditions) (rows : List Row) (read : c.labels_read ≡ true) where
  labelled_stays : (e : Entry) → is_labelled rows e.stem ≡ true → not (goes cutoff c rows e) ≡ true
  unfolding is_deletable in_labelled_tokens
  labelled_stays e labelled = rw (read, labelled) (ground arith)

  labelled_not_gone :
      (token : String) (clips : List Entry)
      → is_labelled rows token ≡ true
      → mem token (map (λ e. e.stem) (filter (goes cutoff c rows) clips)) ≡ false
  labelled_not_gone token [] labelled = refl
  labelled_not_gone token (e ∷ clips) labelled = elim (Bool-cases (goes cutoff c rows e)) [
    | inr stays ↦ rw stays (labelled_not_gone token clips labelled)
    | inl leaves ↦ elim (Bool-cases (e.stem == token)) [
      | inr other ↦ rw leaves (rw other (labelled_not_gone token clips labelled))
      | inl same ↦
          let its : is_labelled rows e.stem ≡ true =
            subst (λ t. is_labelled rows t ≡ true) (sym ((eq_iff e.stem token).0 same)) labelled in
          cc (rw leaves at (labelled_stays e its))
    ]
  ]

-- The clip of a labelled event, in the directory and in the table.
pub record IsKept (e : Entry) (w : World) : Type 0 where
  pub labelled : is_labelled w.detection_events e.stem ≡ true
  pub file : Among e w.clips
  pub row : Among (some e.stem) w.clip_rows

rows-Among :
    (ok : Bool) (token : String) (gone : List Entry) (rows : List (Option String))
    → mem token (map (λ e. e.stem) gone) ≡ false
    → Among (some token) rows
    → Among (some token) (if ok then delete_clip_rows gone rows else rows)
unfolding delete_clip_rows
rows-Among false token gone rows stays h = h
rows-Among true token gone rows stays h =
    Among-filter (λ t. not (mem_option t (map (λ e. e.stem) gone))) (some token) rows
      (rw stays refl) h

prune_clips-IsKept :
    (cutoff : ℕ) (c : Conditions) (e : Entry) (w : World)
    → c.labels_read ≡ true
    → IsKept e w
    → IsKept e (prune_clips cutoff c w)
unfolding prune_clips
prune_clips-IsKept cutoff c e w read h = elim (Bool-cases c.clips_list) [
  | inr unlisted ↦ rw unlisted h
  | inl listed ↦
      let rows = w.detection_events in
      let gone = filter (goes cutoff c rows) w.clips in
      let stays = labelled_not_gone cutoff c rows read e.stem w.clips h.labelled in
      rw listed (record {
        labelled = h.labelled;
        file =
            Among-filter (λ x. not (goes cutoff c rows x)) e w.clips
              (labelled_stays cutoff c rows read e h.labelled) h.file;
        row = rows-Among c.rows_delete e.stem gone w.clip_rows stays h.row;
      })
]

prune_snapshots-IsKept :
    (cutoff : ℕ) (c : Conditions) (e : Entry) (w : World)
    → IsKept e w
    → IsKept e (prune_snapshots cutoff c w)
unfolding prune_snapshots
prune_snapshots-IsKept cutoff c e w h = record {
  labelled = prune_snapshots-label cutoff c w e.stem ∙ h.labelled;
  file = h.file;
  row = h.row;
}

module _ (earlier : String → String → Bool) where
  unexpired-label :
      (cutoff_iso : String) (rows : List Row) (token : String)
      → is_labelled (filter (λ r. not (is_expired earlier cutoff_iso r)) rows) token
        ≡ is_labelled rows token
  unfolding is_labelled is_expired
  unexpired-label cutoff_iso [] token = refl
  unexpired-label cutoff_iso (r ∷ rows) token =
      ground (arith, unexpired-label cutoff_iso rows token)

  prune_db-IsKept :
      (cutoff_iso : String) (ok : Bool) (e : Entry) (w : World)
      → IsKept e w
      → IsKept e (prune_db earlier cutoff_iso ok w)
  unfolding prune_db
  prune_db-IsKept cutoff_iso false e w h = h
  prune_db-IsKept cutoff_iso true e w h = record {
    labelled = unexpired-label cutoff_iso w.detection_events e.stem ∙ h.labelled;
    file = h.file;
    row = h.row;
  }

  module _ (isoformat : ℕ → String) (day : ℕ) (has_clips : Bool) where
    prune-IsKept :
        (cutoff : ℕ) (c : Conditions) (e : Entry) (w : World)
        → c.labels_read ≡ true
        → IsKept e w
        → IsKept e (prune earlier isoformat day has_clips cutoff c w)
    unfolding prune
    prune-IsKept cutoff c e w read h =
        let after = prune_snapshots-IsKept cutoff c e w h in
        let w' = prune_snapshots cutoff c w in
        prune_db-IsKept (isoformat cutoff) c.tables_prune e
          (if has_clips then prune_clips cutoff c w' else w')
          (elim has_clips as (λ b. IsKept e (if b then prune_clips cutoff c w' else w')) [
            | true ↦ prune_clips-IsKept cutoff c e w' read after
            | false ↦ after
          ])

    run_once-IsKept :
        (retention_days now : ℕ) (c : Conditions) (e : Entry) (w : World)
        → c.labels_read ≡ true
        → IsKept e w
        → IsKept e (run_once earlier isoformat day has_clips retention_days now c w)
    unfolding run_once
    run_once-IsKept retention_days now c e w read h = elim (Bool-cases (leb retention_days 0)) [
      | inl disabled ↦ rw disabled h
      | inr enabled ↦ rw enabled (prune-IsKept (now - retention_days * day) c e w read h)
    ]

    -- Where the query for labels succeeds in every pass, whatever else fails, a labelled event with a
    -- clip keeps its label, the clip's file and its row in the table over any passes at any times.
    pub run-IsKept :
        (ps : List Pass) (e : Entry) (w : World)
        → All (λ p. p.conditions.labels_read ≡ true) ps
        → IsKept e w
        → IsKept e (run earlier isoformat day has_clips ps w)
    unfolding run
    run-IsKept [] e w read h = h
    run-IsKept (p ∷ ps) e w read h =
        run-IsKept ps e
          (run_once earlier isoformat day has_clips p.retention_days p.now p.conditions w) read.1
          (run_once-IsKept p.retention_days p.now p.conditions e w read.0 h)
