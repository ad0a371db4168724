-- ===== src/Recognizer/Match/Base.antt =====
-- The choice of the face, its place in the snapshot, and the nearest of the enrolled faces.
use openring.Prelude.{
  ℕ, ◌+◌, ◌-◌, ◌*◌, min, max, String, Bool, true, Option, none, some, List, [], ◌∷◌, leb, ltb,
  if◌then◌else◌,
}

-- A box of pixels: (x1, y1, x2, y2).
pub record Box : Type 0 where
  pub x1 : ℕ
  pub y1 : ℕ
  pub x2 : ℕ
  pub y2 : ℕ

-- (top, right, bottom, left), as `face_locations` gives them.
pub record Location : Type 0 where
  pub top : ℕ
  pub right : ℕ
  pub bottom : ℕ
  pub left : ℕ

pub record Face (E : Type 0) : Type 0 where
  pub id : ℕ
  pub label : String
  pub embeddings : List E

pub data Result : Type 0 where
  no_face : Result
  unknown : (score : Option ℕ) → (bbox : Box) → Result
  matched : (face_id : ℕ) → (label : String) → (score : ℕ) → (bbox : Box) → Result

abbrev pub area : Location → ℕ
area r = (r.bottom - r.top) * (r.right - r.left)

-- max(locations, key=…): the first of the greatest.
unfoldable pub largest : Location → List Location → Location
largest best [] = best
largest best (r ∷ rs) = if leb (area r) (area best) then largest best rs else largest r rs

-- min(dists), none where the face has no embeddings; `distance` is that from the query.
unfoldable pub min_distance : {E : Type 0} → (E → ℕ) → List E → Option ℕ
min_distance distance [] = none
min_distance distance (e ∷ es) = elim (min_distance distance es) [
  | none ↦ some (distance e)
  | some d ↦ some (min (distance e) d)
]

-- A face that is nearer than the best one so far, or the first.
abbrev pub nearer : {E : Type 0} → Face E → ℕ → Option (Face E × ℕ) → Option (Face E × ℕ)
nearer face d none = some (face, d)
nearer face d (some (best_face, best_score)) =
    if ltb d best_score then some (face, d) else some (best_face, best_score)

abbrev pub consider : {E : Type 0} → Face E → Option ℕ → Option (Face E × ℕ) → Option (Face E × ℕ)
consider face none best = best
consider face (some d) best = nearer face d best

-- The loop over the enrolled faces.
unfoldable pub nearest :
    {E : Type 0} → (E → ℕ) → List (Face E) → Option (Face E × ℕ) → Option (Face E × ℕ)
unfolding min_distance
nearest distance [] best = best
nearest distance (f ∷ fs) best =
    nearest distance fs (consider f (min_distance distance f.embeddings) best)

-- What is returned for the best face and its score.
unfoldable pub decide : {E : Type 0} → ℕ → Box → Option (Face E × ℕ) → Result
decide tolerance bbox none = unknown none bbox
decide tolerance bbox (some (face, score)) =
    if leb score tolerance then matched face.id face.label score bbox else unknown (some score) bbox

-- The size of the snapshot, and the faces that the library finds in the crop with, for the largest,
-- the distances of its encoding, if it has one.
pub record Seen (E : Type 0) : Type 0 where
  pub width : ℕ
  pub height : ℕ
  pub locations : List Location
  pub encoding : Location → Option (E → ℕ)

-- `padded` is int(n * padding_pct).
module _ (padded : ℕ → ℕ) where
  abbrev pub x_padding : Box → ℕ
  x_padding b = padded (max 1 (b.x2 - b.x1))

  abbrev pub y_padding : Box → ℕ
  y_padding b = padded (max 1 (b.y2 - b.y1))

  -- The slice of `_crop_with_padding`.
  unfoldable pub crop : ℕ → ℕ → Box → Box
  crop width height b = record {
    x1 = b.x1 - x_padding b;
    y1 = b.y1 - y_padding b;
    x2 = min width (b.x2 + x_padding b);
    y2 = min height (b.y2 + y_padding b);
  }

  -- crop.size == 0
  abbrev pub is_empty_box : Box → Bool
  is_empty_box b = if leb b.x2 b.x1 then true else leb b.y2 b.y1

  -- The place of a location of the crop in the snapshot, clamped to it.
  unfoldable pub abs_bbox : ℕ → ℕ → Box → Location → Box
  abs_bbox width height b r = record {
    x1 = min width (b.x1 - x_padding b + r.left);
    y1 = min height (b.y1 - y_padding b + r.top);
    x2 = min width (b.x1 - x_padding b + r.right);
    y2 = min height (b.y1 - y_padding b + r.bottom);
  }

  -- The best match of the largest face, where it has an encoding.
  unfoldable pub match_face :
      {E : Type 0} → Seen E → Box → List (Face E) → ℕ → Location → Option (E → ℕ) → Result
  unfolding nearest decide abs_bbox
  match_face seen bbox known tolerance r none = no_face
  match_face seen bbox known tolerance r (some distance) =
      decide tolerance (abs_bbox seen.width seen.height bbox r) (nearest distance known none)

  unfoldable pub match_largest :
      {E : Type 0} → Seen E → Box → List (Face E) → ℕ → List Location → Result
  unfolding match_face largest
  match_largest seen bbox known tolerance [] = no_face
  match_largest seen bbox known tolerance (r ∷ rs) =
      match_face seen bbox known tolerance (largest r rs) (seen.encoding (largest r rs))

  -- The snapshot is none where it cannot be loaded.
  unfoldable pub recognize_crop : {E : Type 0} → Option (Seen E) → Box → List (Face E) → ℕ → Result
  unfolding crop match_largest
  recognize_crop none bbox known tolerance = no_face
  recognize_crop (some seen) bbox known tolerance =
      if is_empty_box (crop seen.width seen.height bbox)
      then no_face
      else match_largest seen bbox known tolerance seen.locations
