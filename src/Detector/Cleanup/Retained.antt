-- ===== src/Detector/Cleanup/Retained.antt =====
-- What a pass in which nothing fails leaves, against a description of its own of what is to stay.
use openring.Prelude.{
  ℕ, String, Bool, true, false, not, ◌&&◌, ◌||◌, ◌≡◌, refl, ap, ◌∙◌, inl, inr, Option, none, some,
  List, [], ◌∷◌, filter, map, any, leb, is_some, if◌then◌else◌, Bool-cases, arith, ◌==◌, eq_iff,
}
use openring.Detector.Cleanup.Base.{
  Entry, Row, World, mem_option, Conditions, is_old, clear_path, is_candidate, is_labelled,
  is_expired, prune,
}
use openring.Detector.Cleanup.Exact.{is_stale, is_stale_clip, IsCalm, pruned, prune-eq-pruned}

-- Last changed at the cutoff or later, or at a time that is not known.
abbrev pub is_since : ℕ → Option ℕ → Bool
is_since cutoff none = true
is_since cutoff (some t) = leb cutoff t

abbrev pub snapshot_stays : ℕ → Entry → Bool
snapshot_stays cutoff e = not e.is_file || is_since cutoff e.modified

abbrev pub has_token : Option String → String → Bool
has_token none token = false
has_token (some t) token = t == token

-- Some event of the token has a label.
abbrev pub has_label : List Row → String → Bool
has_label [] token = false
has_label (r ∷ rows) token =
    is_some r.feedback && has_token r.feedback_token token || has_label rows token

abbrev pub clip_stays : ℕ → List Row → Entry → Bool
clip_stays cutoff rows e =
    snapshot_stays cutoff e || not (e.suffix == ".mp4") || e.stem == "" || has_label rows e.stem

-- Whether a snapshot of the path, and a clip of the token, is one that does not stay.
abbrev pub snapshot_went : ℕ → List Entry → String → Bool
snapshot_went cutoff [] path = false
snapshot_went cutoff (e ∷ es) path =
    not (snapshot_stays cutoff e) && e.path == path || snapshot_went cutoff es path

abbrev pub clip_went : ℕ → List Row → List Entry → String → Bool
clip_went cutoff rows [] token = false
clip_went cutoff rows (e ∷ es) token =
    not (clip_stays cutoff rows e) && e.stem == token || clip_went cutoff rows es token

abbrev pub path_left : ℕ → List Entry → Option String → Option String
path_left cutoff es none = none
path_left cutoff es (some path) = if snapshot_went cutoff es path then none else some path

abbrev pub with_path_left : ℕ → List Entry → Row → Row
with_path_left cutoff es r = record r { snapshot_path = path_left cutoff es r.snapshot_path }

abbrev pub clip_row_stays : ℕ → List Row → List Entry → Option String → Bool
clip_row_stays cutoff rows es none = true
clip_row_stays cutoff rows es (some token) = not (clip_went cutoff rows es token)

module _ (earlier : String → String → Bool) (cutoff_iso : String) where
  abbrev pub event_stays : Row → Bool
  event_stays r =
      not (earlier r.timestamp cutoff_iso) || is_some r.feedback || r.camera_name == "_system"

  abbrev pub retained : ℕ → World → World
  retained cutoff w = record {
    snapshots = filter (snapshot_stays cutoff) w.snapshots;
    clips = filter (clip_stays cutoff w.detection_events) w.clips;
    detection_events =
        map (with_path_left cutoff w.snapshots) (filter event_stays w.detection_events);
    clip_rows = filter (clip_row_stays cutoff w.detection_events w.clips) w.clip_rows;
    visit_sessions = filter (λ t. not (earlier t cutoff_iso)) w.visit_sessions;
    system_metrics = filter (λ t. not (earlier t cutoff_iso)) w.system_metrics;
  }

filter-cong :
    {A : Type 0} (f g : A → Bool) (l : List A) → ((a : A) → f a ≡ g a) → filter f l ≡ filter g l
filter-cong f g l same = λ i. filter (λ a. same a i) l

not-is_old : (cutoff : ℕ) (m : Option ℕ) → not (is_old cutoff m) ≡ is_since cutoff m
not-is_old cutoff none = refl
not-is_old cutoff (some t) = ground arith

not-is_stale : (cutoff : ℕ) (e : Entry) → not (is_stale cutoff e) ≡ snapshot_stays cutoff e
not-is_stale cutoff e = ground (arith, not-is_old cutoff e.modified)

eq_comm : (s t : String) → (s == t) ≡ (t == s)
eq_comm s t = ground (arith, eq_iff s t, eq_iff t s)

mem_option-token :
    (t : Option String) (token : String) → mem_option t (token ∷ []) ≡ has_token t token
mem_option-token none token = refl
mem_option-token (some u) token = ground (arith, eq_comm token u)

is_labelled-has_label :
    (rows : List Row) (token : String) → is_labelled rows token ≡ has_label rows token
unfolding is_labelled
is_labelled-has_label [] token = refl
is_labelled-has_label (r ∷ rows) token =
    ground (arith, mem_option-token r.feedback_token token, is_labelled-has_label rows token)

not-is_stale_clip :
    (cutoff : ℕ) (rows : List Row) (e : Entry)
    → not (is_stale_clip cutoff rows e) ≡ clip_stays cutoff rows e
unfolding is_candidate
not-is_stale_clip cutoff rows e =
    ground (arith, not-is_old cutoff e.modified, is_labelled-has_label rows e.stem)

-- The paths and the tokens of the files that went.
mem-snapshots :
    (cutoff : ℕ) (es : List Entry) (path : String)
    → any (λ t. t == path) (map (λ e. e.path) (filter (is_stale cutoff) es))
      ≡ snapshot_went cutoff es path
mem-snapshots cutoff [] path = refl
mem-snapshots cutoff (e ∷ es) path =
    ground (arith, not-is_stale cutoff e, mem-snapshots cutoff es path)

mem-clips :
    (cutoff : ℕ) (rows : List Row) (es : List Entry) (token : String)
    → any (λ t. t == token) (map (λ e. e.stem) (filter (is_stale_clip cutoff rows) es))
      ≡ clip_went cutoff rows es token
mem-clips cutoff rows [] token = refl
mem-clips cutoff rows (e ∷ es) token =
    ground (arith, not-is_stale_clip cutoff rows e, mem-clips cutoff rows es token)

cleared_left :
    (cutoff : ℕ) (es : List Entry) (path : Option String)
    → (if mem_option path (map (λ e. e.path) (filter (is_stale cutoff) es)) then none else path)
      ≡ path_left cutoff es path
cleared_left cutoff es none = refl
cleared_left cutoff es (some path) = rw (mem-snapshots cutoff es path) refl

clear_path-column :
    (paths : List String) (r : Row)
    → clear_path paths r ≡ record r {
      snapshot_path = if mem_option r.snapshot_path paths then none else r.snapshot_path;
    }
unfolding clear_path
clear_path-column paths r = elim (Bool-cases (mem_option r.snapshot_path paths)) [
  | inl gone ↦ rw gone refl
  | inr left ↦ rw left refl
]

clear_path-left :
    (cutoff : ℕ) (es : List Entry) (r : Row)
    → clear_path (map (λ e. e.path) (filter (is_stale cutoff) es)) r ≡ with_path_left cutoff es r
clear_path-left cutoff es r =
    clear_path-column _ r
    ∙ ap (λ path. record r { snapshot_path = path }) (cleared_left cutoff es r.snapshot_path)

clip_row_left :
    (cutoff : ℕ) (rows : List Row) (es : List Entry) (token : Option String)
    → not (mem_option token (map (λ e. e.stem) (filter (is_stale_clip cutoff rows) es)))
      ≡ clip_row_stays cutoff rows es token
clip_row_left cutoff rows es none = refl
clip_row_left cutoff rows es (some token) = ap not (mem-clips cutoff rows es token)

not-is_expired :
    (earlier : String → String → Bool) (cutoff_iso : String) (r : Row)
    → not (is_expired earlier cutoff_iso r) ≡ event_stays earlier cutoff_iso r
unfolding is_expired
not-is_expired earlier cutoff_iso r = ground arith

pruned-eq-retained :
    (earlier : String → String → Bool) (cutoff_iso : String) (cutoff : ℕ) (w : World)
    → pruned earlier cutoff_iso cutoff w ≡ retained earlier cutoff_iso cutoff w
pruned-eq-retained earlier cutoff_iso cutoff w =
    let rows = w.detection_events in
    let snapshots = filter-cong _ _ w.snapshots (not-is_stale cutoff) in
    let clips = filter-cong _ _ w.clips (not-is_stale_clip cutoff rows) in
    let events = filter-cong _ _ rows (not-is_expired earlier cutoff_iso) in
    let clip_rows = filter-cong _ _ w.clip_rows (clip_row_left cutoff rows w.clips) in
    λ i. record {
      snapshots = snapshots i;
      clips = clips i;
      detection_events = map (λ r. clear_path-left cutoff w.snapshots r i) (events i);
      clip_rows = clip_rows i;
      visit_sessions = filter (λ t. not (earlier t cutoff_iso)) w.visit_sessions;
      system_metrics = filter (λ t. not (earlier t cutoff_iso)) w.system_metrics;
    }

-- Where no listing, no look at a file, no deletion and no statement fails, a pass with a directory of
-- clips leaves these and no others: of the snapshots, labelled or not, those that are no files or were
-- changed at the cutoff or later; of the clips these too, those that are no .mp4 files or have no
-- stem, and those of labelled events; of their rows all but those of the clips that went; of the
-- events those that are not earlier than the cutoff, have a label or are the system's own, each with
-- its path set to NULL where that snapshot went; and of the visits and metrics those not earlier.
pub prune-eq-retained :
    (earlier : String → String → Bool) (isoformat : ℕ → String) (day cutoff : ℕ) (c : Conditions)
    (w : World)
    → IsCalm c w
    → prune earlier isoformat day true cutoff c w ≡ retained earlier (isoformat cutoff) cutoff w
prune-eq-retained earlier isoformat day cutoff c w calm =
    prune-eq-pruned earlier isoformat day cutoff c w calm
    ∙ pruned-eq-retained earlier (isoformat cutoff) cutoff w
