-- ===== src/Web/Accounts/Access.antt =====
-- Whom a session lets in.
use openring.Prelude.{
  ℕ, ◌+◌, ◌*◌, ◌≤◌, ◌<◌, String, false, not, ◌≡◌, refl, inl, inr, Bool-cases, none, some, List, [],
  ◌∷◌, ◌++◌, filter, any, arith, leb, if◌then◌else◌, ◌==◌, eq_iff, eq_refl,
}
use openring.Web.Results.{ok}
use openring.Web.Accounts.Base.{User, Session, AuthDb}
use openring.Web.Accounts.Tokens.{
  session_of, active_user, find_session, create_session, validate_session, delete_session,
  purge_expired_sessions,
}

module _ (now : ℕ) (users : List User) where
  -- The only row with a hash is the one that is found.
  find_session-append :
      (h : String) (ss : List Session) (s : Session)
      → any (λ r. r.token_hash == h) ss ≡ false
      → find_session h now users (ss ++ s ∷ []) ≡ find_session h now users (s ∷ [])
  unfolding find_session
  find_session-append h [] s free = refl
  find_session-append h (r ∷ ss) s free = ground (arith, find_session-append h ss s)

  find_session-filter :
      (h gone : String) (ss : List Session)
      → find_session h now users (filter (λ s. not (s.token_hash == gone)) ss)
        ≡ (if gone == h then none else find_session h now users ss)
  unfolding find_session
  find_session-filter h gone [] = ground arith
  find_session-filter h gone (s ∷ ss) = ground (
    arith,
    find_session-filter h gone ss,
    eq_iff s.token_hash gone,
    eq_iff s.token_hash h,
    eq_iff gone h,
  )

  find_session-purged :
      (h : String) (purged_at : ℕ) (ss : List Session)
      → purged_at ≤ now
      → find_session h now users (filter (λ s. not (leb s.expires_at purged_at)) ss)
        ≡ find_session h now users ss
  unfolding find_session
  find_session-purged h purged_at [] le = refl
  find_session-purged h purged_at (s ∷ ss) le =
      ground (arith, find_session-purged h purged_at ss le)

module _ (hash_token : String → String) where
  -- A session that was created for an active user is that user's, at any time before its timeout.
  pub validate-create_session :
      (db db' : AuthDb) (raw : String) (user_id timeout_hours now later : ℕ) (u : User)
      → create_session hash_token db raw user_id timeout_hours now ≡ ok db'
      → active_user user_id db.users ≡ some u
      → later < now + timeout_hours * 3600
      → validate_session hash_token db' raw later ≡ some u
  unfolding create_session validate_session find_session
  validate-create_session db db' raw user_id timeout_hours now later u created active early =
      elim (Bool-cases (any (λ s. s.token_hash == hash_token raw) db.sessions)) [
        | inl taken ↦ ground (arith, created, taken)
        | inr free ↦ ground (
          arith,
          created,
          eq_refl (hash_token raw),
          find_session-append later db.users (hash_token raw) db.sessions
              (session_of hash_token raw user_id timeout_hours now) free,
        )
      ]

  -- A logout ends the session of its token, and no session of a token with another hash.
  pub validate-delete_session :
      (db : AuthDb) (raw other : String) (now : ℕ)
      → validate_session hash_token (delete_session hash_token db raw) other now ≡ (
          if hash_token raw == hash_token other
          then none
          else validate_session hash_token db other now)
  unfolding delete_session validate_session
  validate-delete_session db raw other now =
      find_session-filter now db.users (hash_token other) (hash_token raw) db.sessions

  -- Purging changes what no token validates to, at that time or later.
  pub validate-purge_expired_sessions :
      (db : AuthDb) (raw : String) (now later : ℕ)
      → now ≤ later
      → validate_session hash_token (purge_expired_sessions db now) raw later
        ≡ validate_session hash_token db raw later
  unfolding purge_expired_sessions validate_session
  validate-purge_expired_sessions db raw now later le =
      find_session-purged later db.users (hash_token raw) now db.sessions le
