-- ===== src/Clipper/Clips/Rows.antt =====
-- What the statements do to the table: one row for each token.
use openring.Prelude.{
  String, false, ◌≡◌, refl, subst, ◌∙◌, inl, inr, Option, none, some, List, [], ◌∷◌, All,
  if◌then◌else◌, Bool-cases, arith, ◌==◌, eq_iff, eq_refl,
}
use openring.Clipper.Clips.Table.{Row, upsert, row_of}

-- No two rows have one token.
abbrev pub IsKeyed : List Row → Type 0
IsKeyed [] = Unit
IsKeyed (r ∷ rows) = (row_of r.feedback_token rows ≡ none) × IsKeyed rows

-- The row with the changes, or the new one.
abbrev pub updated : (Row → Row) → Row → Option Row → Row
updated update new none = new
updated update new (some r) = update r

pub updated-cases :
    (P : Row → Type 0) (update : Row → Row) (new : Row) (o : Option Row)
    → P new
    → ((r : Row) → P (update r))
    → P (updated update new o)
updated-cases P update new none fresh changed = fresh
updated-cases P update new (some r) fresh changed = changed r

apart_sym : (s t : String) → (s == t) ≡ false → (t == s) ≡ false
apart_sym s t h = ground (arith, eq_iff s t, eq_iff t s, h)

module _ (update : Row → Row) (new : Row)
    (keeps : (r : Row) → (update r).feedback_token ≡ r.feedback_token) where
  pub row_of-upsert :
      (token : String) (rows : List Row)
      → row_of token (upsert update new rows) ≡ (
          if new.feedback_token == token
          then some (updated update new (row_of new.feedback_token rows))
          else row_of token rows)
  unfolding row_of upsert
  row_of-upsert token [] = refl
  row_of-upsert token (r ∷ rows) = elim (Bool-cases (r.feedback_token == new.feedback_token)) [
    | inl same ↦
        let equal : r.feedback_token ≡ new.feedback_token =
          (eq_iff r.feedback_token new.feedback_token).0 same in
        rw (same, keeps r, equal)
          (elim (Bool-cases (new.feedback_token == token)) [
            | inl its ↦ rw its refl
            | inr other ↦ rw other refl
          ])
    | inr differs ↦
        rw (differs, row_of-upsert token rows)
          (elim (Bool-cases (new.feedback_token == token)) [
            | inl its ↦
                let apart : (r.feedback_token == token) ≡ false =
                  subst (λ t. (r.feedback_token == t) ≡ false)
                    ((eq_iff new.feedback_token token).0 its) differs in
                rw its (rw apart refl)
            | inr other ↦ rw other refl
          ])
  ]

  pub All-upsert :
      (P : Row → Type 0) (rows : List Row)
      → ((r : Row) → P r → P (update r))
      → P new
      → All P rows
      → All P (upsert update new rows)
  unfolding upsert
  All-upsert P [] step fresh h = (fresh, tt)
  All-upsert P (r ∷ rows) step fresh h =
      elim (Bool-cases (r.feedback_token == new.feedback_token)) [
        | inl same ↦ rw same (step r h.0, h.1)
        | inr differs ↦ rw differs (h.0, All-upsert P rows step fresh h.1)
      ]

  no_rows : row_of new.feedback_token [] ≡ none
  unfolding row_of
  no_rows = refl

  pub upsert-IsKeyed : (rows : List Row) → IsKeyed rows → IsKeyed (upsert update new rows)
  unfolding upsert
  upsert-IsKeyed [] h = (no_rows, tt)
  upsert-IsKeyed (r ∷ rows) h = elim (Bool-cases (r.feedback_token == new.feedback_token)) [
    | inl same ↦ rw same (rw (keeps r) h.0, h.1)
    | inr differs ↦ rw differs (
      row_of-upsert r.feedback_token rows
          ∙ rw (apart_sym r.feedback_token new.feedback_token differs) h.0,
      upsert-IsKeyed rows h.1,
    )
  ]

  pub upsert-updated :
      (rows : List Row)
      → row_of new.feedback_token (upsert update new rows)
        ≡ some (updated update new (row_of new.feedback_token rows))
  upsert-updated rows = row_of-upsert new.feedback_token rows ∙ rw (eq_refl new.feedback_token) refl
