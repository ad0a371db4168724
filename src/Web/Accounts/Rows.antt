-- ===== src/Web/Accounts/Rows.antt =====
-- What an UPDATE or a DELETE by id does to distinct ids and to the number of active admins.
use openring.Prelude.{
  ℕ, ◌+◌, ◌≤◌, ◌≢◌, Bool, true, false, not, ◌≡◌, refl, sym, subst, inl, inr, Bool-cases, List, [],
  ◌∷◌, filter, arith, if◌then◌else◌, All, All-filter,
}
use openring.Web.Accounts.Base.{User, update_where, count_active_admins, is_active_admin}

-- The ids of the rows are distinct.
abbrev pub IsKeyed : List User → Type 0
IsKeyed [] = Unit
IsKeyed (u ∷ us) = All (λ v. u.id ≢ v.id) us × IsKeyed us

-- An UPDATE of rows with one id, which keeps the ids.
module _ (user_id : ℕ) (where_ : User → Bool) (set_ : User → User)
    (one_row : (u : User) → where_ u ≡ true → u.id ≡ user_id)
    (keeps_id : (u : User) → (set_ u).id ≡ u.id) where
  id-set_ : (u : User) → (if where_ u then set_ u else u).id ≡ u.id
  id-set_ u = elim (where_ u) as (λ b. (if b then set_ u else u).id ≡ u.id) [
    | true ↦ keeps_id u
    | false ↦ refl
  ]

  pub All-update_where :
      (P : ℕ → Type 0) (us : List User)
      → All (λ u. P u.id) us
      → All (λ u. P u.id) (update_where where_ set_ us)
  unfolding update_where
  All-update_where P [] h = tt
  All-update_where P (u ∷ us) h = (subst P (sym (id-set_ u)) h.0, All-update_where P us h.1)

  pub update_where-IsKeyed : (us : List User) → IsKeyed us → IsKeyed (update_where where_ set_ us)
  unfolding update_where
  update_where-IsKeyed [] h = tt
  update_where-IsKeyed (u ∷ us) h = (
    subst (λ i. All (λ v. i ≢ v.id) (update_where where_ set_ us)) (sym (id-set_ u))
        (All-update_where (λ i. u.id ≢ i) us h.0),
    update_where-IsKeyed us h.1,
  )

  -- Rows with another id are untouched, so the count falls by one at most.
  pub update_where-other :
      (us : List User) → All (λ u. user_id ≢ u.id) us → update_where where_ set_ us ≡ us
  unfolding update_where
  update_where-other [] h = refl
  update_where-other (u ∷ us) h = ground (arith, one_row u, update_where-other us)

  pub count-update_where :
      (us : List User)
      → IsKeyed us
      → count_active_admins us ≤ count_active_admins (update_where where_ set_ us) + 1
  unfolding update_where count_active_admins
  count-update_where [] h = omega arith
  count-update_where (u ∷ us) h = elim (Bool-cases (where_ u)) [
    | inl met ↦
        let rest : update_where where_ set_ us ≡ us =
          update_where-other us (subst (λ i. All (λ v. i ≢ v.id) us) (one_row u met) h.0) in
        rw rest (ground arith)
    | inr passed ↦ rw passed (ground (arith, count-update_where us h.1))
  ]

  -- No active admin is lost where the rows met stay active admins.
  pub count-update_where-kept :
      ((u : User) → where_ u ≡ true → is_active_admin u ≡ true → is_active_admin (set_ u) ≡ true)
      → (us : List User)
      → count_active_admins us ≤ count_active_admins (update_where where_ set_ us)
  unfolding update_where count_active_admins
  count-update_where-kept kept [] = omega arith
  count-update_where-kept kept (u ∷ us) = ground (arith, kept u, count-update_where-kept kept us)

pub filter-IsKeyed : (p : User → Bool) (us : List User) → IsKeyed us → IsKeyed (filter p us)
filter-IsKeyed p [] h = tt
filter-IsKeyed p (u ∷ us) h =
    elim (p u) as (λ b. IsKeyed (if b then u ∷ filter p us else filter p us)) [
      | true ↦ (All-filter (λ v. u.id ≢ v.id) p us h.0, filter-IsKeyed p us h.1)
      | false ↦ filter-IsKeyed p us h.1
    ]

-- A DELETE of rows with one id.
module _ (user_id : ℕ) (where_ : User → Bool)
    (one_row : (u : User) → where_ u ≡ true → u.id ≡ user_id) where
  filter-other :
      (us : List User) → All (λ u. user_id ≢ u.id) us → filter (λ u. not (where_ u)) us ≡ us
  filter-other [] h = refl
  filter-other (u ∷ us) h = ground (arith, one_row u, filter-other us)

  pub count-filter :
      (us : List User)
      → IsKeyed us
      → count_active_admins us ≤ count_active_admins (filter (λ u. not (where_ u)) us) + 1
  unfolding count_active_admins
  count-filter [] h = omega arith
  count-filter (u ∷ us) h = elim (Bool-cases (where_ u)) [
    | inl met ↦
        let rest : filter (λ u. not (where_ u)) us ≡ us =
          filter-other us (subst (λ i. All (λ v. i ≢ v.id) us) (one_row u met) h.0) in
        rw met (rw rest (ground arith))
    | inr passed ↦ rw passed (ground (arith, count-filter us h.1))
  ]

  pub count-filter-kept :
      ((u : User) → where_ u ≡ true → is_active_admin u ≡ false)
      → (us : List User)
      → count_active_admins us ≤ count_active_admins (filter (λ u. not (where_ u)) us)
  unfolding count_active_admins
  count-filter-kept kept [] = omega arith
  count-filter-kept kept (u ∷ us) = ground (arith, kept u, count-filter-kept kept us)
