-- ===== src/Recognizer/Match/Largest.antt =====
-- `recognize_crop` decides about the largest face of the crop.
use openring.Prelude.{
  ℕ, ◌≤◌, ◌≡◌, ◌⊎◌, refl, sym, subst, if-true, if-false, inl, inr, true, false, Option, none, some,
  List, [], ◌∷◌, All, Among, leb, Bool-cases, Option-cases, arith,
}
use openring.Recognizer.Match.Base.{
  Box, Location, Face, Result, no_face, Seen, area, largest, crop, is_empty_box, abs_bbox,
  match_face, match_largest, recognize_crop,
}
use openring.Recognizer.Match.Nearest.{Decided, decide-Decided}

-- No location has a greater area.
abbrev pub IsLargest : Location → List Location → Type 0
IsLargest r = All (λ l. area l ≤ area r)

largest_one : (best : Location) → largest best [] ≡ best
unfolding largest
largest_one best = refl

largest-smaller :
    (best r : Location) (rs : List Location)
    → leb (area r) (area best) ≡ true
    → largest best rs ≡ largest best (r ∷ rs)
unfolding largest
largest-smaller best r rs h = sym (if-true _ _ h)

largest-greater :
    (best r : Location) (rs : List Location)
    → leb (area r) (area best) ≡ false
    → largest r rs ≡ largest best (r ∷ rs)
unfolding largest
largest-greater best r rs h = sym (if-false _ _ h)

largest-IsLargest :
    (best : Location) (rs : List Location)
    → (area best ≤ area (largest best rs)) × IsLargest (largest best rs) rs
largest-IsLargest best [] =
    (subst (λ x. area best ≤ area x) (sym (largest_one best)) (omega arith), tt)
largest-IsLargest best (r ∷ rs) = elim (Bool-cases (leb (area r) (area best))) [
  | inl smaller ↦
      let (le, rest) = largest-IsLargest best rs in
      subst (λ x. (area best ≤ area x) × IsLargest x (r ∷ rs)) (largest-smaller best r rs smaller)
        (le, (ground (arith, smaller, le), rest))
  | inr greater ↦
      let (le, rest) = largest-IsLargest r rs in
      subst (λ x. (area best ≤ area x) × IsLargest x (r ∷ rs)) (largest-greater best r rs greater)
        (ground (arith, greater, le), (le, rest))
]

largest-Among : (best : Location) (rs : List Location) → Among (largest best rs) (best ∷ rs)
largest-Among best [] = inl (largest_one best)
largest-Among best (r ∷ rs) = elim (Bool-cases (leb (area r) (area best))) [
  | inl smaller ↦
      subst (λ x. Among x (best ∷ r ∷ rs)) (largest-smaller best r rs smaller)
        (elim (largest-Among best rs) [ inl first ↦ inl first | inr later ↦ inr (inr later) ])
  | inr greater ↦
      subst (λ x. Among x (best ∷ r ∷ rs)) (largest-greater best r rs greater)
        (inr (largest-Among r rs))
]

-- The result is that for a largest location of the snapshot, by the distances of its encoding.
pub record IsAnswer {E : Type 0} (snapshot : Option (Seen E)) (known : List (Face E))
    (tolerance : ℕ) (result : Result) : Type 0 where
  pub seen : Seen E
  pub loaded : snapshot ≡ some seen
  pub location : Location
  pub found : Among location seen.locations
  pub greatest : IsLargest location seen.locations
  pub distance : E → ℕ
  pub encoded : seen.encoding location ≡ some distance
  pub decided : Decided distance tolerance known result

-- The reasons for which no face is reported.
pub data IsUnseen {E : Type 0} (padded : ℕ → ℕ) (snapshot : Option (Seen E)) (bbox : Box)
    : Type 0 where
  unloaded : snapshot ≡ none → IsUnseen padded snapshot bbox
  cropped_away :
      (seen : Seen E)
      → snapshot ≡ some seen
      → is_empty_box padded (crop padded seen.width seen.height bbox) ≡ true
      → IsUnseen padded snapshot bbox
  no_location :
      (seen : Seen E) → snapshot ≡ some seen → seen.locations ≡ [] → IsUnseen padded snapshot bbox
  no_encoding :
      (seen : Seen E) (r : Location)
      → snapshot ≡ some seen
      → Among r seen.locations
      → IsLargest r seen.locations
      → seen.encoding r ≡ none
      → IsUnseen padded snapshot bbox

-- No face is reported for a reason, or there is an answer.
abbrev pub IsSettled :
    {E : Type 0} → (ℕ → ℕ) → Option (Seen E) → Box → List (Face E) → ℕ → Result → Type 0
IsSettled padded snapshot bbox known tolerance result =
    ((result ≡ no_face) × IsUnseen padded snapshot bbox) ⊎ IsAnswer snapshot known tolerance result

module _ {E : Type 0} (padded : ℕ → ℕ) where
  match_face-IsSettled :
      (seen : Seen E) (bbox : Box) (known : List (Face E)) (tolerance : ℕ) (r : Location)
      → Among r seen.locations
      → IsLargest r seen.locations
      → let result = match_face padded seen bbox known tolerance r (seen.encoding r) in
        IsSettled padded (some seen) bbox known tolerance result
  unfolding match_face
  match_face-IsSettled seen bbox known tolerance r among greatest =
      elim (Option-cases (seen.encoding r)) [
        | inl unencoded ↦
            rw unencoded (inl (refl, no_encoding seen r refl among greatest unencoded))
        | inr (distance, encoded) ↦ rw encoded (
            inr (record {
              seen = seen;
              loaded = refl;
              location = r;
              found = among;
              greatest = greatest;
              distance = distance;
              encoded = encoded;
              decided =
                  decide-Decided distance tolerance (abs_bbox padded seen.width seen.height bbox r)
                    known;
            }))
      ]

  match_largest-IsSettled :
      (seen : Seen E) (bbox : Box) (known : List (Face E)) (tolerance : ℕ) (rs : List Location)
      → seen.locations ≡ rs
      → let result = match_largest padded seen bbox known tolerance rs in
        IsSettled padded (some seen) bbox known tolerance result
  unfolding match_largest
  match_largest-IsSettled seen bbox known tolerance [] e = inl (refl, no_location seen refl e)
  match_largest-IsSettled seen bbox known tolerance (r ∷ rs) e =
      match_face-IsSettled seen bbox known tolerance (largest r rs) (rw e (largest-Among r rs))
        (rw e (largest-IsLargest r rs))

  -- Whatever the snapshot and the enrolled faces are, no face is reported, because the snapshot cannot
  -- be loaded, the crop is empty, or there is no location or no encoding in it; or the answer is about a
  -- largest face of the crop: a match with an enrolled face that has an embedding within the tolerance,
  -- none of any face being nearer, or unknown, with every embedding of every face beyond the tolerance.
  pub recognize_crop-IsSettled :
      (snapshot : Option (Seen E)) (bbox : Box) (known : List (Face E)) (tolerance : ℕ)
      → let result = recognize_crop padded snapshot bbox known tolerance in
        IsSettled padded snapshot bbox known tolerance result
  unfolding recognize_crop
  recognize_crop-IsSettled none bbox known tolerance = inl (refl, unloaded refl)
  recognize_crop-IsSettled (some seen) bbox known tolerance =
      elim (Bool-cases (is_empty_box padded (crop padded seen.width seen.height bbox))) [
        | inl empty ↦ rw empty (inl (refl, cropped_away seen refl empty))
        | inr filled ↦
            rw filled (match_largest-IsSettled seen bbox known tolerance seen.locations refl)
      ]
