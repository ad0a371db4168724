-- ===== src/Tests/Recognizer.antt =====
-- services/recognizer on a concrete snapshot.
use openring.Prelude.{ℕ, ◌/◌, ◌≡◌, refl, some, none, List, [], ◌∷◌, beq, if◌then◌else◌}
use openring.Recognizer.Match
use openring.Recognizer.Match.{Box, Location, Face, Seen}
use openring.Recognizer.Match.Largest.{IsSettled, recognize_crop-IsSettled}

abbrev body : Box
body = record { x1 = 100; y1 = 100; x2 = 200; y2 = 300 }

abbrev near_face : Location
near_face = record { top = 10; right = 70; bottom = 60; left = 20 }

abbrev far_face : Location
far_face = record { top = 10; right = 110; bottom = 20; left = 100 }

-- The embeddings are the distances from the near face; the far face has no encoding.
abbrev seen : Seen ℕ
seen = record {
  width = 640;
  height = 480;
  locations = far_face ∷ near_face ∷ [];
  encoding = λ r. if beq r.top 10 then (if beq r.left 20 then some (λ e. e) else none) else none;
}

abbrev known : List (Face ℕ)
known =
    record { id = 1; label = "Mom"; embeddings = 52 ∷ 45 ∷ [] }
    ∷ record { id = 2; label = "Dad"; embeddings = [] }
    ∷ record { id = 3; label = "Kim"; embeddings = 45 ∷ 48 ∷ [] }
    ∷ []

kin :
    Match.recognize_crop (λ n. n / 10) (some seen) body known 50
    ≡ Match.matched 1 "Mom" 45 record { x1 = 110; y1 = 90; x2 = 160; y2 = 140 }
unfolding Match.recognize_crop
kin = refl

stranger :
    Match.recognize_crop (λ n. n / 10) (some seen) body known 40
    ≡ Match.unknown (some 45) record { x1 = 110; y1 = 90; x2 = 160; y2 = 140 }
unfolding Match.recognize_crop
stranger = refl

recognize_crop-IsSettled_example :
    IsSettled
      (λ n. n / 10)
      (some seen)
      body
      known
      50
      (Match.recognize_crop (λ n. n / 10) (some seen) body known 50)
recognize_crop-IsSettled_example = recognize_crop-IsSettled (λ n. n / 10) (some seen) body known 50
