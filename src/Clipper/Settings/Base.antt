-- ===== src/Clipper/Settings/Base.antt =====
-- `ClipperSettings`, `from_yaml`, `applies_to` and `load_cameras`.
use openring.Prelude.Yaml.{
  Value, null, flag, number, text, items, mapping, Items, nil, cons, Fields, end, get, truthy,
  str_of,
}
use openring.Prelude.Int.{ℤ, pos, negsuc}
use openring.Prelude.Text.{lower}
use openring.Prelude.{
  ℕ, ◌*◌, max, String, Bool, true, false, Option, none, some, List, [], ◌∷◌, ◌&&◌, any, is_empty,
  ltb, if◌then◌else◌, and_then, ◌==◌,
}

pub record ClipperSettings : Type 0 where
  pub enabled : Bool
  pub clips_dir : String
  pub ring_dir : String
  pub pre_roll_seconds : ℕ
  pub post_roll_seconds : ℕ
  pub segment_seconds : ℕ
  pub segments_per_camera : ℕ
  pub trigger_classes : List String
  pub min_confidence : ℕ
  pub max_concurrent_clips : ℕ

-- `applies_to`
unfoldable pub applies_to : ClipperSettings → String → ℕ → Bool
applies_to s class_name confidence =
    if ltb confidence s.min_confidence
    then false
    else if is_empty s.trigger_classes
    then true
    else any (λ entry. lower entry == lower class_name) s.trigger_classes

-- max(n, v)
abbrev pub at_least : ℕ → ℤ → ℕ
at_least n (pos v) = max n v
at_least n (negsuc v) = n

-- cfg.get("clipper") or {}, and none where that is no mapping.
unfoldable pub section : Option Value → Option Fields
section (some (mapping m)) = some m
section none = some end
section (some null) = some end
section (some (flag b)) = if truthy (flag b) then none else some end
section (some (number n)) = if truthy (number n) then none else some end
section (some (text s)) = if truthy (text s) then none else some end
section (some (items l)) = if truthy (items l) then none else some end

-- The cameras with an URL that are not disabled.
unfoldable pub is_used : Fields → Bool
is_used c =
    elim (get "enabled" c) [ none ↦ true | some v ↦ truthy v ]
    && elim (get "rtsp_url" c) [ none ↦ false | some v ↦ truthy v ]

unfoldable pub used_cameras : Items → List Fields
unfolding is_used
used_cameras nil = []
used_cameras (cons (mapping c) l) = if is_used c then c ∷ used_cameras l else used_cameras l
used_cameras (cons null l) = used_cameras l
used_cameras (cons (flag b) l) = used_cameras l
used_cameras (cons (number n) l) = used_cameras l
used_cameras (cons (text s) l) = used_cameras l
used_cameras (cons (items i) l) = used_cameras l

-- The loop over `cfg.get("cameras") or []`: a text or a mapping has no dict among its elements, and
-- the loop raises for what cannot be iterated.
unfoldable pub listed_cameras : Option Value → Option (List Fields)
unfolding used_cameras
listed_cameras (some (items l)) = some (used_cameras l)
listed_cameras none = some []
listed_cameras (some null) = some []
listed_cameras (some (text s)) = some []
listed_cameras (some (mapping m)) = some []
listed_cameras (some (flag b)) = if truthy (flag b) then none else some []
listed_cameras (some (number n)) = if truthy (number n) then none else some []

unfoldable pub load_cameras : Fields → Option (List Fields)
unfolding listed_cameras
load_cameras cfg = listed_cameras (get "cameras" cfg)

-- f(sec.get(key, default)), where the default is a number.
unfoldable pub number_or {ℓ} : {A : Type ℓ} → (Value → Option A) → A → Option Value → Option A
number_or f default none = some default
number_or f default (some v) = f v

-- A second has `second` units of time, and a hundredth of a confidence `hundredth` units of that.
module _ (second hundredth : ℕ) where
  abbrev pub defaults : ClipperSettings
  defaults = record {
    enabled = false;
    clips_dir = "/data/clips";
    ring_dir = "/var/lib/openring/ring";
    pre_roll_seconds = 5 * second;
    post_roll_seconds = 5 * second;
    segment_seconds = 1;
    segments_per_camera = 30;
    trigger_classes = "person" ∷ "doorbell_press" ∷ [];
    min_confidence = 40 * hundredth;
    max_concurrent_clips = 4;
  }

-- `str`, `float` and `int` are parameters, none where they raise.
module _ (repr : Value → String) where
  -- str(sec.get(key) or default)
  unfoldable pub text_or : String → Option Value → String
  text_or default none = default
  text_or default (some v) = if truthy v then str_of repr v else default

  unfoldable pub texts : Items → List String
  texts nil = []
  texts (cons v l) = str_of repr v ∷ texts l

  -- isinstance(classes, list) and classes
  unfoldable pub classes_or : List String → Option Value → List String
  unfolding texts
  classes_or default (some (items (cons v l))) = texts (cons v l)
  classes_or default (some (items nil)) = default
  classes_or default none = default
  classes_or default (some null) = default
  classes_or default (some (flag b)) = default
  classes_or default (some (number n)) = default
  classes_or default (some (text s)) = default
  classes_or default (some (mapping m)) = default

  module _ (float_seconds float_confidence : Value → Option ℕ) (int : Value → Option ℤ)
      (second hundredth : ℕ) where
    -- The assignments, in their order.
    unfoldable pub read_section : Fields → Option ClipperSettings
    unfolding number_or text_or classes_or
    read_section sec =
        and_then (number_or float_seconds (5 * second) (get "pre_roll_seconds" sec)) (λ pre.
          and_then (number_or float_seconds (5 * second) (get "post_roll_seconds" sec)) (λ post.
            and_then (number_or int (pos 1) (get "segment_seconds" sec)) (λ segment.
              and_then (number_or int (pos 30) (get "segments_per_camera" sec)) (λ segments.
                and_then (number_or float_confidence (40 * hundredth) (get "min_confidence" sec))
                  (λ least.
                    and_then (number_or int (pos 4) (get "max_concurrent_clips" sec)) (λ clips.
                      some record {
                        enabled = elim (get "enabled" sec) [ none ↦ false | some v ↦ truthy v ];
                        clips_dir = text_or "/data/clips" (get "clips_dir" sec);
                        ring_dir = text_or "/var/lib/openring/ring" (get "ring_dir" sec);
                        pre_roll_seconds = pre;
                        post_roll_seconds = post;
                        segment_seconds = at_least 1 segment;
                        segments_per_camera = at_least 8 segments;
                        trigger_classes =
                            classes_or ("person" ∷ "doorbell_press" ∷ [])
                              (get "trigger_classes" sec);
                        min_confidence = least;
                        max_concurrent_clips = at_least 1 clips;
                      }))))))

    unfoldable pub from_yaml : Fields → Option ClipperSettings
    unfolding section read_section
    from_yaml cfg = elim (section (get "clipper" cfg)) [
      | none ↦ some (defaults second hundredth)
      | some sec ↦ read_section sec
    ]
