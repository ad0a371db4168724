-- ===== src/Recognizer/Match/Nearest.antt =====
-- A match is the nearest of all enrolled faces, and within the tolerance.
use openring.Prelude.{
  ℕ, ◌≤◌, ◌<◌, min, ◌≡◌, ◌⊎◌, sym, ap, subst, inl, inr, Option, none, some, List, [], ◌∷◌, All,
  All-map, Among, leb, ltb, Bool-cases, Option-cases, some-injective, arith,
}
use openring.Recognizer.Match.Base.{
  Box, Face, Result, unknown, matched, min_distance, nearer, nearest, decide,
}

module _ {E : Type 0} (distance : E → ℕ) where
  -- No embedding of the face is nearer than the score.
  abbrev pub IsAtLeast : ℕ → Face E → Type 0
  IsAtLeast score f = All (λ e. score ≤ distance e) f.embeddings

  -- Every embedding of the face is farther than the tolerance.
  abbrev pub IsAbove : ℕ → Face E → Type 0
  IsAbove tolerance f = All (λ e. tolerance < distance e) f.embeddings

  -- A match is an enrolled face whose nearest embedding has the score, which is within the tolerance and
  -- the least of all; otherwise all embeddings of all faces are farther than the tolerance.
  pub data Decided (tolerance : ℕ) (known : List (Face E)) : Result → Type 0 where
    matched_nearest :
        (face : Face E) (score : ℕ) (bbox : Box)
        → Among face known
        → min_distance distance face.embeddings ≡ some score
        → score ≤ tolerance
        → All (IsAtLeast score) known
        → Decided tolerance known (matched face.id face.label score bbox)
    none_near :
        (score : Option ℕ) (bbox : Box)
        → All (IsAbove tolerance) known
        → Decided tolerance known (unknown score bbox)

  -- No distances, no embeddings.
  min_distance-none : (P : E → Type 0) (es : List E) → min_distance distance es ≡ none → All P es
  unfolding min_distance
  min_distance-none P [] e = tt
  min_distance-none P (x ∷ es) e = elim (Option-cases (min_distance distance es)) [
    | inl last ↦ cc (rw (last, min_distance) at e)
    | inr (d', more) ↦ cc (rw (more, min_distance) at e)
  ]

  min_distance-le :
      (score : ℕ) (es : List E) (d : ℕ)
      → min_distance distance es ≡ some d
      → score ≤ d
      → All (λ e. score ≤ distance e) es
  unfolding min_distance
  min_distance-le score [] d e le = tt
  min_distance-le score (x ∷ es) d e le = elim (Option-cases (min_distance distance es)) [
    | inl last ↦
        let only : distance x ≡ d = some-injective (rw (last, min_distance) at e) in
        (omega (arith, only, le), min_distance-none (λ y. score ≤ distance y) es last)
    | inr (d', more) ↦
        let least : min (distance x) d' ≡ d = some-injective (rw (more, min_distance) at e) in
        (omega (arith, least, le), min_distance-le score es d' more (omega (arith, least, le)))
  ]

  abbrev IsBelow : ℕ → Option (Face E × ℕ) → Type 0
  IsBelow score none = Unit
  IsBelow score (some (f, s)) = score ≤ s

  nearer-IsBelow :
      (score : ℕ) (f : Face E) (d : ℕ) (best : Option (Face E × ℕ))
      → IsBelow score (nearer f d best)
      → (score ≤ d) × IsBelow score best
  nearer-IsBelow score f d none h = (h, tt)
  nearer-IsBelow score f d (some (g, s)) h = elim (Bool-cases (ltb d s)) [
    | inl less ↦ let le : score ≤ d = rw less at h in (le, ground (arith, less, le))
    | inr more ↦ let le : score ≤ s = rw more at h in (ground (arith, more, le), le)
  ]

  nearer-from :
      (f : Face E) (d : ℕ) (best : Option (Face E × ℕ)) (r : Face E × ℕ)
      → nearer f d best ≡ some r
      → (best ≡ some r) ⊎ ((f, d) ≡ r)
  nearer-from f d none r e = inr (some-injective e)
  nearer-from f d (some (g, s)) r e = elim (Bool-cases (ltb d s)) [
    | inl less ↦ inr (some-injective (rw less at e))
    | inr more ↦ inl (rw more at e)
  ]

  nearest-some :
      (fs : List (Face E)) (best : Option (Face E × ℕ)) (face : Face E) (score : ℕ)
      → nearest distance fs best ≡ some (face, score)
      → ((best ≡ some (face, score))
          ⊎ (Among face fs × (min_distance distance face.embeddings ≡ some score)))
        × IsBelow score best
        × All (IsAtLeast score) fs
  unfolding nearest
  nearest-some [] best face score e = (inl e, subst (IsBelow score) (sym e) (omega arith), tt)
  nearest-some (f ∷ fs) best face score e =
      elim (Option-cases (min_distance distance f.embeddings)) [
        | inl absent ↦
            let (origin, below, rest) =
              nearest-some fs best face score (rw (absent, nearest) at e) in
            (
              elim origin [ inl b ↦ inl b | inr (among, least) ↦ inr (inr among, least) ],
              below,
              (min_distance-none (λ y. score ≤ distance y) f.embeddings absent, rest),
            )
        | inr (d, present) ↦
            let (origin, below, rest) =
              nearest-some fs (nearer f d best) face score (rw (present, nearest) at e) in
            let (le, below') = nearer-IsBelow score f d best below in
            (
              elim origin [
                | inr (among, least) ↦ inr (inr among, least)
                | inl chosen ↦ elim (nearer-from f d best (face, score) chosen) [
                  | inl b ↦ inl b
                  | inr same ↦ inr (
                    inl (sym (ap (λ r. r.0) same)),
                    subst (λ r. min_distance distance r.0.embeddings ≡ some r.1) same present,
                  )
                ]
              ],
              below',
              (min_distance-le score f.embeddings d present le, rest),
            )
      ]

  nearer_some : (f : Face E) (d : ℕ) (best : Option (Face E × ℕ)) → nearer f d best ≡ none → ⊥
  nearer_some f d none e = cc e
  nearer_some f d (some (g, s)) e = elim (Bool-cases (ltb d s)) [
    | inl less ↦ cc (rw less at e)
    | inr more ↦ cc (rw more at e)
  ]

  nearest-none :
      (tolerance : ℕ) (fs : List (Face E)) (best : Option (Face E × ℕ))
      → nearest distance fs best ≡ none
      → (best ≡ none) × All (IsAbove tolerance) fs
  unfolding nearest
  nearest-none tolerance [] best e = (e, tt)
  nearest-none tolerance (f ∷ fs) best e =
      elim (Option-cases (min_distance distance f.embeddings)) [
        | inl absent ↦
            let (empty, rest) = nearest-none tolerance fs best (rw (absent, nearest) at e) in
            (empty, (min_distance-none (λ y. tolerance < distance y) f.embeddings absent, rest))
        | inr (d, present) ↦ absurd (
            nearer_some f d best
              (nearest-none tolerance fs (nearer f d best) (rw (present, nearest) at e)).0)
      ]

  -- Whatever faces are enrolled, the result for a face in the picture is the match with an enrolled face
  -- that has an embedding within the tolerance, none of any face being nearer, or it is unknown, and
  -- every embedding of every enrolled face is farther than the tolerance.
  pub decide-Decided :
      (tolerance : ℕ) (bbox : Box) (known : List (Face E))
      → Decided tolerance known (decide tolerance bbox (nearest distance known none))
  unfolding decide
  decide-Decided tolerance bbox known = elim (Option-cases (nearest distance known none)) [
    | inl nobody ↦
        rw (nobody, decide) (none_near none bbox (nearest-none tolerance known none nobody).1)
    | inr ((face, score), somebody) ↦
        let (origin, below, least) = nearest-some known none face score somebody in
        rw (somebody, decide)
          (elim (Bool-cases (leb score tolerance)) [
            | inl near ↦ rw near (elim origin [
              | inl absent ↦ cc absent
              | inr (among, its) ↦
                  matched_nearest face score bbox among its (ground (arith, near)) least
            ])
            | inr far ↦ rw far (
                none_near (some score) bbox (
                  All-map (IsAtLeast score) (IsAbove tolerance)
                    (λ f h.
                      All-map (λ y. score ≤ distance y) (λ y. tolerance < distance y)
                        (λ y le. ground (arith, far, le)) f.embeddings h)
                    known least))
          ])
  ]
