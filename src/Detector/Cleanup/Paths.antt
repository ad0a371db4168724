-- ===== src/Detector/Cleanup/Paths.antt =====
-- The snapshot paths in the table are those of files.
use openring.Prelude.{
  ℕ, String, Bool, true, false, not, ◌≡◌, refl, ap, sym, subst, ◌∙◌, inl, inr, Option, none, some,
  List, [], ◌∷◌, map, is_empty, if◌then◌else◌, Bool-cases, All, All-filter, leb, ◌-◌, ◌*◌,
}
use openring.Detector.Cleanup.Base.{
  Entry, Row, World, Conditions, scan, mem, mem_option, clear_path, clear_db_paths, prune_snapshots,
  prune_clips, is_expired, prune_db, prune, run_once, Pass, run,
}
use openring.Detector.Cleanup.Scanned.{AllStat, has_path, scan_calm, scan-AllStat, scan-has_path}

-- No path, or that of an entry of the directory.
abbrev pub PathBacked : List Entry → Option String → Type 0
PathBacked es none = Unit
PathBacked es (some p) = has_path p es ≡ true

-- The row has no path, or that of an entry of the directory.
abbrev pub IsBacked : List Entry → Row → Type 0
IsBacked es r = PathBacked es r.snapshot_path

-- Every path in the table is a file's, and every file can be looked at.
pub record IsConsistent (w : World) : Type 0 where
  pub backed : All (IsBacked w.snapshots) w.detection_events
  pub readable : AllStat w.snapshots

cleared-PathBacked :
    (cutoff : ℕ) (es : List Entry) (o : Option String)
    → AllStat es
    → PathBacked es o
    → PathBacked
        (scan cutoff true es).kept
        (if mem_option o (scan cutoff true es).deleted then none else o)
cleared-PathBacked cutoff es none ok backed = tt
cleared-PathBacked cutoff es (some p) ok backed =
    elim (Bool-cases (mem p (scan cutoff true es).deleted)) [
      | inl cleared ↦ rw cleared tt
      | inr left ↦ rw left (elim (scan-has_path cutoff p es ok backed) [
        | inl still ↦ still
        | inr gone ↦ cc (sym gone ∙ left)
      ])
    ]

clear_path-path :
    (paths : List String) (r : Row)
    → (clear_path paths r).snapshot_path
      ≡ (if mem_option r.snapshot_path paths then none else r.snapshot_path)
unfolding clear_path
clear_path-path paths r = elim (Bool-cases (mem_option r.snapshot_path paths)) [
  | inl cleared ↦ rw cleared refl
  | inr left ↦ rw left refl
]

cleared-AllBacked :
    (cutoff : ℕ) (es : List Entry) (rows : List Row)
    → AllStat es
    → All (IsBacked es) rows
    → All
        (IsBacked (scan cutoff true es).kept)
        (map (clear_path (scan cutoff true es).deleted) rows)
cleared-AllBacked cutoff es [] ok backed = tt
cleared-AllBacked cutoff es (r ∷ rows) ok backed = (
  subst (PathBacked (scan cutoff true es).kept)
      (sym (clear_path-path (scan cutoff true es).deleted r))
      (cleared-PathBacked cutoff es r.snapshot_path ok backed.0),
  cleared-AllBacked cutoff es rows ok backed.1,
)

mem_option-nil : (o : Option String) → mem_option o [] ≡ false
mem_option-nil none = refl
mem_option-nil (some p) = refl

-- With nothing to clear, the rows stay as they are.
clear_path-nil : (rows : List Row) → map (clear_path []) rows ≡ rows
unfolding clear_path
clear_path-nil [] = refl
clear_path-nil (r ∷ rows) =
    rw (mem_option-nil r.snapshot_path) (ap (λ l. r ∷ l) (clear_path-nil rows))

clear_empty :
    (deleted : List String) (rows : List Row)
    → (if is_empty deleted then rows else map (clear_path deleted) rows)
      ≡ map (clear_path deleted) rows
clear_empty [] rows = sym (clear_path-nil rows)
clear_empty (p ∷ deleted) rows = refl

-- The rows after the snapshots are pruned, where nothing fails.
pub prune_snapshots-rows :
    (cutoff : ℕ) (c : Conditions) (w : World)
    → c.snapshots_list ≡ true
    → c.paths_clear ≡ true
    → AllStat w.snapshots
    → (prune_snapshots cutoff c w).detection_events
      ≡ map (clear_path (scan cutoff true w.snapshots).deleted) w.detection_events
unfolding prune_snapshots clear_db_paths
prune_snapshots-rows cutoff c w listed clears ok =
    rw (listed, clears)
      (rw (scan_calm cutoff w.snapshots ok)
        (clear_empty (scan cutoff true w.snapshots).deleted w.detection_events))

pub prune_snapshots-kept :
    (cutoff : ℕ) (c : Conditions) (w : World)
    → c.snapshots_list ≡ true
    → (prune_snapshots cutoff c w).snapshots ≡ (scan cutoff true w.snapshots).kept
unfolding prune_snapshots
prune_snapshots-kept cutoff c w listed = rw listed refl

prune_snapshots-IsConsistent :
    (cutoff : ℕ) (c : Conditions) (w : World)
    → c.snapshots_list ≡ true
    → c.paths_clear ≡ true
    → IsConsistent w
    → IsConsistent (prune_snapshots cutoff c w)
prune_snapshots-IsConsistent cutoff c w listed clears h =
    rw
      (
        prune_snapshots-kept cutoff c w listed,
        prune_snapshots-rows cutoff c w listed clears h.readable,
      )
      (record {
        backed = cleared-AllBacked cutoff w.snapshots w.detection_events h.readable h.backed;
        readable = scan-AllStat cutoff w.snapshots h.readable;
      })

-- The clips and their rows are another matter.
prune_clips-IsConsistent :
    (cutoff : ℕ) (c : Conditions) (w : World)
    → IsConsistent w
    → IsConsistent (prune_clips cutoff c w)
unfolding prune_clips
prune_clips-IsConsistent cutoff c w h = elim (Bool-cases c.clips_list) [
  | inl listed ↦ rw listed (record { backed = h.backed; readable = h.readable })
  | inr unlisted ↦ rw unlisted h
]

module _ (earlier : String → String → Bool) where
  prune_db-IsConsistent :
      (cutoff_iso : String) (ok : Bool) (w : World)
      → IsConsistent w
      → IsConsistent (prune_db earlier cutoff_iso ok w)
  unfolding prune_db
  prune_db-IsConsistent cutoff_iso false w h = h
  prune_db-IsConsistent cutoff_iso true w h = record {
    backed =
        All-filter (IsBacked w.snapshots) (λ r. not (is_expired earlier cutoff_iso r))
          w.detection_events h.backed;
    readable = h.readable;
  }

  module _ (isoformat : ℕ → String) (day : ℕ) (has_clips : Bool) where
    run_once-IsConsistent :
        (retention_days now : ℕ) (c : Conditions) (w : World)
        → c.snapshots_list ≡ true
        → c.paths_clear ≡ true
        → IsConsistent w
        → IsConsistent (run_once earlier isoformat day has_clips retention_days now c w)
    unfolding run_once prune
    run_once-IsConsistent retention_days now c w listed clears h =
        let cutoff = now - retention_days * day in
        let w' = prune_snapshots cutoff c w in
        let after = prune_snapshots-IsConsistent cutoff c w listed clears h in
        elim (Bool-cases (leb retention_days 0)) [
          | inl disabled ↦ rw disabled h
          | inr enabled ↦ rw enabled (
              prune_db-IsConsistent (isoformat cutoff) c.tables_prune
                (if has_clips then prune_clips cutoff c w' else w')
                (elim has_clips as (λ b. IsConsistent (if b then prune_clips cutoff c w' else w')) [
                  | true ↦ prune_clips-IsConsistent cutoff c w' after
                  | false ↦ after
                ]))
        ]

    -- Where the directory of snapshots can be listed and paths can be cleared in every pass, whatever
    -- else fails, and every file can be looked at, the paths in the table stay those of files.
    pub run-IsConsistent :
        (ps : List Pass) (w : World)
        → All (λ p. p.conditions.snapshots_list ≡ true) ps
        → All (λ p. p.conditions.paths_clear ≡ true) ps
        → IsConsistent w
        → IsConsistent (run earlier isoformat day has_clips ps w)
    unfolding run
    run-IsConsistent [] w listed clears h = h
    run-IsConsistent (p ∷ ps) w listed clears h =
        run-IsConsistent ps _ listed.1 clears.1
          (run_once-IsConsistent p.retention_days p.now p.conditions w listed.0 clears.0 h)
