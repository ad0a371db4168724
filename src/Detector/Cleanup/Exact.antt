-- ===== src/Detector/Cleanup/Exact.antt =====
-- What a pass in which nothing fails leaves, by the tests that the code makes.
use openring.Prelude.{
  ℕ, String, Bool, true, not, ◌&&◌, ◌≡◌, refl, ap, subst, ◌∙◌, inl, inr, List, [], ◌∷◌, filter, map,
  Bool-cases, arith, All,
}
use openring.Detector.Cleanup.Base.{
  Entry, Row, World, mem_option, Conditions, scan, is_old, clear_path, prune_snapshots,
  is_candidate, is_labelled, in_labelled_tokens, is_deletable, goes, delete_clip_rows, prune_clips,
  is_expired, prune_db, prune,
}
use openring.Detector.Cleanup.Scanned.{AllStat, scan-cons, leaves}
use openring.Detector.Cleanup.Paths.{prune_snapshots-kept, prune_snapshots-rows}
use openring.Detector.Cleanup.Labelled.{prune_snapshots-label}

-- No entry fails to be looked at or deleted.
abbrev pub AllUnlink : List Entry → Type 0
AllUnlink = All (λ e. e.unlinks ≡ true)

-- A file from before the cutoff.
abbrev pub is_stale : ℕ → Entry → Bool
is_stale cutoff e = e.is_file && is_old cutoff e.modified

-- The clip of an event without a label, from before the cutoff.
abbrev pub is_stale_clip : ℕ → List Row → Entry → Bool
is_stale_clip cutoff rows e = is_candidate cutoff e && not (is_labelled rows e.stem)

stale_leaves : (cutoff : ℕ) (e : Entry) → e.unlinks ≡ true → leaves cutoff e ≡ is_stale cutoff e
stale_leaves cutoff e unlinks = rw unlinks (ground arith)

scan_none : (cutoff : ℕ) → ((scan cutoff true []).kept ≡ []) × ((scan cutoff true []).deleted ≡ [])
unfolding scan
scan_none cutoff = (refl, refl)

-- The pass over the snapshots sorts them into those that are left and those that are deleted.
stale_scan :
    (cutoff : ℕ) (es : List Entry)
    → AllStat es
    → AllUnlink es
    → ((scan cutoff true es).kept ≡ filter (λ e. not (is_stale cutoff e)) es)
      × ((scan cutoff true es).deleted ≡ map (λ e. e.path) (filter (is_stale cutoff) es))
stale_scan cutoff [] ok unlinks = scan_none cutoff
stale_scan cutoff (e ∷ es) ok unlinks =
    let (kept, deleted) = stale_scan cutoff es ok.1 unlinks.1 in
    let same = stale_leaves cutoff e unlinks.0 in
    rw (scan-cons cutoff e es ok.0, same)
      (elim (Bool-cases (is_stale cutoff e)) [
        | inl stale ↦ rw stale (kept, ap (λ l. e.path ∷ l) deleted)
        | inr fresh ↦ rw fresh (ap (λ l. e ∷ l) kept, deleted)
      ])

-- With every label read, the clips that go are the stale ones, by the labels of any rows that agree.
module _ (cutoff : ℕ) (c : Conditions) (rows' rows : List Row)
    (agree : (token : String) → is_labelled rows' token ≡ is_labelled rows token)
    (read : c.labels_read ≡ true) where
  stale_goes : (e : Entry) → e.unlinks ≡ true → goes cutoff c rows' e ≡ is_stale_clip cutoff rows e
  unfolding is_deletable in_labelled_tokens
  stale_goes e unlinks = rw (read, unlinks, agree e.stem) (ground arith)

  filter-goes :
      (es : List Entry)
      → AllUnlink es
      → (filter (goes cutoff c rows') es ≡ filter (is_stale_clip cutoff rows) es)
        × (filter (λ e. not (goes cutoff c rows' e)) es
            ≡ filter (λ e. not (is_stale_clip cutoff rows e)) es)
  filter-goes [] unlinks = (refl, refl)
  filter-goes (e ∷ es) unlinks =
      let (gone, left) = filter-goes es unlinks.1 in
      rw (stale_goes e unlinks.0) (elim (Bool-cases (is_stale_clip cutoff rows e)) [
        | inl stale ↦ rw stale (ap (λ l. e ∷ l) gone, left)
        | inr fresh ↦ rw fresh (gone, ap (λ l. e ∷ l) left)
      ])

-- Nothing fails.
pub record IsCalm (c : Conditions) (w : World) : Type 0 where
  pub snapshots_list : c.snapshots_list ≡ true
  pub clips_list : c.clips_list ≡ true
  pub paths_clear : c.paths_clear ≡ true
  pub labels_read : c.labels_read ≡ true
  pub rows_delete : c.rows_delete ≡ true
  pub tables_prune : c.tables_prune ≡ true
  pub readable : AllStat w.snapshots
  pub snapshots_unlink : AllUnlink w.snapshots
  pub clips_unlink : AllUnlink w.clips

prune_clips-stale :
    (cutoff : ℕ) (c : Conditions) (rows : List Row) (w : World)
    → c.clips_list ≡ true
    → c.labels_read ≡ true
    → c.rows_delete ≡ true
    → AllUnlink w.clips
    → ((token : String) → is_labelled w.detection_events token ≡ is_labelled rows token)
    → prune_clips cutoff c w ≡ record w {
      clips = filter (λ e. not (is_stale_clip cutoff rows e)) w.clips;
      clip_rows = delete_clip_rows (filter (is_stale_clip cutoff rows) w.clips) w.clip_rows;
    }
unfolding prune_clips
prune_clips-stale cutoff c rows w listed read deletes unlinks agree =
    let (gone, left) = filter-goes cutoff c w.detection_events rows agree read w.clips unlinks in
    rw (listed, deletes) (rw (gone, left) refl)

module _ (earlier : String → String → Bool) (cutoff_iso : String) where
  is_expired-clear_path :
      (paths : List String) (r : Row)
      → is_expired earlier cutoff_iso (clear_path paths r) ≡ is_expired earlier cutoff_iso r
  unfolding is_expired clear_path
  is_expired-clear_path paths r = elim (Bool-cases (mem_option r.snapshot_path paths)) [
    | inl cleared ↦ rw cleared refl
    | inr left ↦ rw left refl
  ]

  unexpired-map :
      (paths : List String) (rows : List Row)
      → filter (λ r. not (is_expired earlier cutoff_iso r)) (map (clear_path paths) rows)
        ≡ map (clear_path paths) (filter (λ r. not (is_expired earlier cutoff_iso r)) rows)
  unexpired-map paths [] = refl
  unexpired-map paths (r ∷ rows) =
      rw (is_expired-clear_path paths r) (elim (Bool-cases (is_expired earlier cutoff_iso r)) [
        | inl expired ↦ rw expired (unexpired-map paths rows)
        | inr left ↦ rw left (ap (λ l. clear_path paths r ∷ l) (unexpired-map paths rows))
      ])

  -- What such a pass leaves after a cutoff.
  abbrev pub pruned : ℕ → World → World
  pruned cutoff w =
      let paths = map (λ e. e.path) (filter (is_stale cutoff) w.snapshots) in
      let clips = filter (is_stale_clip cutoff w.detection_events) w.clips in
      let stems = map (λ e. e.stem) clips in
      record {
        snapshots = filter (λ e. not (is_stale cutoff e)) w.snapshots;
        clips = filter (λ e. not (is_stale_clip cutoff w.detection_events e)) w.clips;
        detection_events =
            map (clear_path paths)
              (filter (λ r. not (is_expired earlier cutoff_iso r)) w.detection_events);
        clip_rows = filter (λ token. not (mem_option token stems)) w.clip_rows;
        visit_sessions = filter (λ t. not (earlier t cutoff_iso)) w.visit_sessions;
        system_metrics = filter (λ t. not (earlier t cutoff_iso)) w.system_metrics;
      }

prune_snapshots-stale :
    (cutoff : ℕ) (c : Conditions) (w : World)
    → IsCalm c w
    → prune_snapshots cutoff c w ≡ record w {
      snapshots = filter (λ e. not (is_stale cutoff e)) w.snapshots;
      detection_events =
          map
            (clear_path (map (λ e. e.path) (filter (is_stale cutoff) w.snapshots)))
            w.detection_events;
    }
unfolding prune_snapshots
prune_snapshots-stale cutoff c w calm =
    let (kept, deleted) = stale_scan cutoff w.snapshots calm.readable calm.snapshots_unlink in
    let rows = prune_snapshots-rows cutoff c w calm.snapshots_list calm.paths_clear calm.readable in
    let k = prune_snapshots-kept cutoff c w calm.snapshots_list ∙ kept in
    let d = rows ∙ ap (λ paths. map (clear_path paths) w.detection_events) deleted in
    λ i. record w { snapshots = k i; detection_events = d i }

prune_db-left :
    (earlier : String → String → Bool) (cutoff_iso : String) (ok : Bool) (w : World)
    → ok ≡ true
    → prune_db earlier cutoff_iso ok w ≡ record w {
      detection_events = filter (λ r. not (is_expired earlier cutoff_iso r)) w.detection_events;
      visit_sessions = filter (λ t. not (earlier t cutoff_iso)) w.visit_sessions;
      system_metrics = filter (λ t. not (earlier t cutoff_iso)) w.system_metrics;
    }
unfolding prune_db
prune_db-left earlier cutoff_iso ok w prunes = rw prunes refl

pub prune-eq-pruned :
    (earlier : String → String → Bool) (isoformat : ℕ → String) (day cutoff : ℕ) (c : Conditions)
    (w : World)
    → IsCalm c w
    → prune earlier isoformat day true cutoff c w ≡ pruned earlier (isoformat cutoff) cutoff w
unfolding prune delete_clip_rows
prune-eq-pruned earlier isoformat day cutoff c w calm =
    let after = prune_snapshots-stale cutoff c w calm in
    let agree =
      subst
        (λ v.
          (token : String)
          → is_labelled v.detection_events token ≡ is_labelled w.detection_events token)
        after (prune_snapshots-label cutoff c w) in
    let clips =
      prune_clips-stale cutoff c w.detection_events _ calm.clips_list calm.labels_read
        calm.rows_delete calm.clips_unlink agree in
    let paths = map (λ e. e.path) (filter (is_stale cutoff) w.snapshots) in
    ap (λ v. prune_db earlier (isoformat cutoff) c.tables_prune (prune_clips cutoff c v)) after
    ∙ (ap (prune_db earlier (isoformat cutoff) c.tables_prune) clips
        ∙ (prune_db-left earlier (isoformat cutoff) c.tables_prune _ calm.tables_prune
            ∙ ap
                (λ events. record (pruned earlier (isoformat cutoff) cutoff w) {
                  detection_events = events;
                })
                (unexpired-map earlier (isoformat cutoff) paths w.detection_events)))
