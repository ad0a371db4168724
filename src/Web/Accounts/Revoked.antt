-- ===== src/Web/Accounts/Revoked.antt =====
-- A user that is disabled is let in by no token.
use openring.Prelude.{
  ℕ, ◌<◌, ◌≢◌, String, Bool, true, ◌≡◌, ◌⊎◌, refl, sym, ◌∙◌, subst, inl, inr, Bool-cases, none,
  some, List, [], ◌∷◌, arith, beq, All,
}
use openring.Web.Accounts.Base.{
  User, Session, ApiToken, AuthDb, update_where, rowcount, try_disable_admin, may_demote,
  set_disabled,
}
use openring.Web.Accounts.Tokens.{
  active_user, find_session, find_api_token, validate_session, validate_api_token,
}
use openring.Web.Accounts.Rows.{IsKeyed, update_where-other}

-- A user that a JOIN finds has the id asked for and is not disabled.
active_user-id :
    (user_id : ℕ) (us : List User) (u : User) → active_user user_id us ≡ some u → u.id ≡ user_id
unfolding active_user
active_user-id user_id [] u found = cc
active_user-id user_id (v ∷ us) u found = ground (arith, active_user-id user_id us u)

-- The rows with an id are all disabled.
abbrev Shut : ℕ → List User → Type 0
Shut user_id us = All (λ u. (u.id ≡ user_id) → u.disabled ≡ true) us

active_user-Shut : (user_id : ℕ) (us : List User) → Shut user_id us → active_user user_id us ≡ none
unfolding active_user
active_user-Shut user_id [] shut = refl
active_user-Shut user_id (v ∷ us) shut = ground (arith, shut.0, active_user-Shut user_id us shut.1)

module _ (user_id : ℕ) (users : List User) (shut : Shut user_id users) where
  find_session-Shut :
      (h : String) (now : ℕ) (ss : List Session) (u : User)
      → find_session h now users ss ≡ some u
      → u.id ≢ user_id
  unfolding find_session
  find_session-Shut h now [] u found = cc
  find_session-Shut h now (s ∷ ss) u found = elim (Bool-cases (beq s.user_id user_id)) [
    | inl his ↦
        let none_active : active_user s.user_id users ≡ none =
          subst (λ i. active_user i users ≡ none)
            (sym (let e : s.user_id ≡ user_id = ground (arith, his) in e))
            (active_user-Shut user_id users shut) in
        find_session-Shut h now ss u (ground (arith, found, none_active))
    | inr others ↦
        ground
          (arith, found, others, active_user-id s.user_id users u, find_session-Shut h now ss u)
  ]

  find_api_token-Shut :
      (h : String) (ts : List ApiToken) (u : User)
      → find_api_token h users ts ≡ some u
      → u.id ≢ user_id
  unfolding find_api_token
  find_api_token-Shut h [] u found = cc
  find_api_token-Shut h (t ∷ ts) u found = elim (Bool-cases (beq t.user_id user_id)) [
    | inl his ↦
        let same : t.user_id ≡ user_id = ground (arith, his) in
        let none_active : active_user t.user_id users ≡ none =
          subst (λ i. active_user i users ≡ none) (sym same)
            (active_user-Shut user_id users shut) in
        find_api_token-Shut h ts u (ground (arith, found, none_active))
    | inr others ↦
        ground (arith, found, others, active_user-id t.user_id users u, find_api_token-Shut h ts u)
  ]

-- An UPDATE that disables rows with one id and meets one of them disables them all.
module _ (user_id : ℕ) (where_ : User → Bool)
    (one_row : (u : User) → where_ u ≡ true → u.id ≡ user_id) where
  rowcount-other : (us : List User) → All (λ u. user_id ≢ u.id) us → rowcount where_ us ≡ 0
  rowcount-other [] h = refl
  rowcount-other (u ∷ us) h = ground (arith, one_row u, rowcount-other us)

  others-Shut : (us : List User) → All (λ u. user_id ≢ u.id) us → Shut user_id us
  others-Shut [] h = tt
  others-Shut (u ∷ us) h = (λ same. ground (arith, h.0, same), others-Shut us h.1)

  update_where-Shut :
      (us : List User)
      → IsKeyed us
      → 0 < rowcount where_ us
      → Shut user_id (update_where where_ (set_disabled true) us)
  unfolding update_where
  update_where-Shut [] keyed met = ground arith
  update_where-Shut (u ∷ us) keyed met = elim (Bool-cases (where_ u)) [
    | inl here ↦
        let others : All (λ v. user_id ≢ v.id) us =
          subst (λ i. All (λ v. i ≢ v.id) us) (one_row u here) keyed.0 in
        rw here (
          rw (update_where-other user_id where_ (set_disabled true) one_row (λ u. refl) us others)
            ((λ same. refl), others-Shut us others))
    | inr passed ↦
        let later : 0 < rowcount where_ us = ground (arith, met, passed) in
        rw passed (
          (λ same.
              let others : All (λ v. user_id ≢ v.id) us =
                subst (λ i. All (λ v. i ≢ v.id) us) same keyed.0 in
              ground (arith, later, rowcount-other us others)),
          update_where-Shut us keyed.1 later,
        )
  ]

try_disable_admin-Shut :
    (db : AuthDb) (user_id : ℕ)
    → IsKeyed db.users
    → (try_disable_admin db user_id true).1 ≡ true
    → Shut user_id (try_disable_admin db user_id true).0.users
unfolding try_disable_admin
try_disable_admin-Shut db user_id keyed done =
    update_where-Shut user_id (may_demote db user_id) (λ u met. ground (arith, met)) db.users keyed
      (ground (arith, done))

validate_api_token-found :
    (hash_token : String → String) (db : AuthDb) (raw : String) (now : ℕ)
    → (validate_api_token hash_token db raw now).1
      ≡ find_api_token (hash_token raw) db.users db.api_tokens
unfolding validate_api_token
validate_api_token-found hash_token db raw now = ground arith

-- Where ids are distinct and disabling a user is reported as done, no token of any kind lets that
-- user in afterwards, at any time.
pub disabled_refused :
    (hash_token : String → String) (db : AuthDb) (user_id : ℕ) (raw : String) (now : ℕ) (u : User)
    → IsKeyed db.users
    → (try_disable_admin db user_id true).1 ≡ true
    → ((validate_session hash_token (try_disable_admin db user_id true).0 raw now ≡ some u)
        ⊎ ((validate_api_token hash_token (try_disable_admin db user_id true).0 raw now).1
            ≡ some u))
    → u.id ≢ user_id
unfolding validate_session validate_api_token
disabled_refused hash_token db user_id raw now u keyed done (inl by_session) =
    find_session-Shut user_id _ (try_disable_admin-Shut db user_id keyed done) (hash_token raw) now
      _ u by_session
disabled_refused hash_token db user_id raw now u keyed done (inr by_token) =
    find_api_token-Shut user_id _ (try_disable_admin-Shut db user_id keyed done) (hash_token raw) _
      u
      (sym (validate_api_token-found hash_token (try_disable_admin db user_id true).0 raw now)
        ∙ by_token)
