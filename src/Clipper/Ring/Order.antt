-- ===== src/Clipper/Ring/Order.antt =====
-- The segments of a window: just those of the window, in the order of their times.
use openring.Prelude.{
  ℕ, String, Bool, false, ◌&&◌, ◌≡◌, refl, subst, ◌≤◌, inl, inr, Option, none, some, List, [], ◌∷◌,
  filter, map, All, All-map, leb, if◌then◌else◌, Bool-cases, arith,
}
use mathlib.Core.List.{Perm}
use mathlib.Core.List.Perm
use openring.Clipper.Ring.Base.{
  Entry, Segment, is_segment, in_window, add_candidate, candidates, insert_by_time, sort_by_time,
  segments_in_window,
}

-- The times ascend.
abbrev pub IsAscending : List Segment → Type 0
IsAscending [] = Unit
IsAscending (x ∷ l) = All (λ y. x.0 ≤ y.0) l × IsAscending l

abbrev pub in_window_at : ℕ → ℕ → Option ℕ → Bool
in_window_at start_ts end_ts none = false
in_window_at start_ts end_ts (some mtime) = in_window start_ts end_ts mtime

-- A segment whose time can be read and lies in the window.
abbrev pub is_covered : ℕ → ℕ → Entry → Bool
is_covered start_ts end_ts e = is_segment e && in_window_at start_ts end_ts e.modified

abbrev pub time_of : Option ℕ → ℕ
time_of none = 0
time_of (some mtime) = mtime

abbrev pub with_time : Entry → Segment
with_time e = (time_of e.modified, e.path)

add_candidate-eq :
    (start_ts end_ts : ℕ) (e : Entry) (o : Option ℕ) (rest : List Segment)
    → add_candidate start_ts end_ts e o rest
      ≡ (if in_window_at start_ts end_ts o then (time_of o, e.path) ∷ rest else rest)
unfolding add_candidate
add_candidate-eq start_ts end_ts e none rest = refl
add_candidate-eq start_ts end_ts e (some mtime) rest = refl

candidates-eq :
    (start_ts end_ts : ℕ) (es : List Entry)
    → candidates start_ts end_ts es ≡ map with_time (filter (is_covered start_ts end_ts) es)
unfolding candidates
candidates-eq start_ts end_ts [] = refl
candidates-eq start_ts end_ts (e ∷ es) =
    rw
      (
        add_candidate-eq start_ts end_ts e e.modified (candidates start_ts end_ts es),
        candidates-eq start_ts end_ts es,
      )
      (elim (Bool-cases (is_segment e)) [
        | inr other ↦ rw other refl
        | inl segment ↦ rw segment (elim (Bool-cases (in_window_at start_ts end_ts e.modified)) [
          | inl inside ↦ rw inside refl
          | inr outside ↦ rw outside refl
        ])
      ])

insert_by_time-Perm : (x : Segment) (l : List Segment) → Perm (insert_by_time x l) (x ∷ l)
unfolding insert_by_time
insert_by_time-Perm x [] = Perm.rfl
insert_by_time-Perm x (y ∷ l) = elim (Bool-cases (leb x.0 y.0)) [
  | inl first ↦ rw first Perm.rfl
  | inr later ↦ rw later (Perm.trans (Perm.cons' refl (insert_by_time-Perm x l)) (Perm.swap x y l))
]

pub sort_by_time-Perm : (l : List Segment) → Perm (sort_by_time l) l
unfolding sort_by_time
sort_by_time-Perm [] = Perm.rfl
sort_by_time-Perm (x ∷ l) =
    Perm.trans (insert_by_time-Perm x (sort_by_time l)) (Perm.cons' refl (sort_by_time-Perm l))

insert-All :
    (t : ℕ) (x : Segment) (l : List Segment)
    → t ≤ x.0
    → All (λ y. t ≤ y.0) l
    → All (λ y. t ≤ y.0) (insert_by_time x l)
unfolding insert_by_time
insert-All t x [] le h = (le, tt)
insert-All t x (y ∷ l) le h = elim (Bool-cases (leb x.0 y.0)) [
  | inl first ↦ rw first (le, h)
  | inr later ↦ rw later (h.0, insert-All t x l le h.1)
]

insert-IsAscending :
    (x : Segment) (l : List Segment) → IsAscending l → IsAscending (insert_by_time x l)
unfolding insert_by_time
insert-IsAscending x [] h = (tt, tt)
insert-IsAscending x (y ∷ l) h = elim (Bool-cases (leb x.0 y.0)) [
  | inl first ↦
      let le : x.0 ≤ y.0 = ground (arith, first) in
      rw first (
        (le, All-map (λ z. y.0 ≤ z.0) (λ z. x.0 ≤ z.0) (λ z below. omega (arith, le, below)) l h.0),
        h,
      )
  | inr later ↦
      rw later (insert-All y.0 x l (ground (arith, later)) h.0, insert-IsAscending x l h.1)
]

sort-IsAscending : (l : List Segment) → IsAscending (sort_by_time l)
unfolding sort_by_time
sort-IsAscending [] = tt
sort-IsAscending (x ∷ l) = insert-IsAscending x (sort_by_time l) (sort-IsAscending l)

-- The paths of the segments that a window covers, each as often as it stands in the ring, by time.
pub record IsListing (start_ts end_ts : ℕ) (es : List Entry) (paths : List String) : Type 0 where
  pub segments : List Segment
  pub named : paths ≡ map (λ x. x.1) segments
  pub ascending : IsAscending segments
  pub covered : Perm segments (map with_time (filter (is_covered start_ts end_ts) es))

-- What is returned for a window is the paths of just the segments of the ring whose time can be read
-- and lies in the window, each as often as it stands there, in ascending order of their times.
pub segments_in_window-IsListing :
    (start_ts end_ts : ℕ) (es : List Entry)
    → IsListing start_ts end_ts es (segments_in_window start_ts end_ts es)
unfolding segments_in_window
segments_in_window-IsListing start_ts end_ts es = record {
  segments = sort_by_time (candidates start_ts end_ts es);
  named = refl;
  ascending = sort-IsAscending (candidates start_ts end_ts es);
  covered =
      subst (Perm (sort_by_time (candidates start_ts end_ts es))) (candidates-eq start_ts end_ts es)
        (sort_by_time-Perm (candidates start_ts end_ts es));
}
