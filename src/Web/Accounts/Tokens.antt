-- ===== src/Web/Accounts/Tokens.antt =====
-- Sessions and API tokens: rows that are found by the hash of a token.
use openring.Prelude.{
  ℕ, ◌+◌, ◌*◌, String, Bool, true, false, not, ◌&&◌, Option, none, some, List, [], ◌∷◌, ◌++◌,
  filter, any, ltb, leb, beq, if◌then◌else◌, ◌==◌,
}
use openring.Web.Results.{Result, ok, integrity_error}
use openring.Web.Accounts.Base.{User, Session, ApiToken, AuthDb}

-- JOIN users u ON u.id = user_id WHERE … AND u.disabled=0, the first row
unfoldable pub active_user : ℕ → List User → Option User
active_user user_id [] = none
active_user user_id (u ∷ us) =
    if beq u.id user_id && not u.disabled then some u else active_user user_id us

-- A foreign key to the users.
abbrev pub is_user : ℕ → List User → Bool
is_user user_id us = any (λ u. beq u.id user_id) us

unfoldable pub find_session : String → ℕ → List User → List Session → Option User
unfolding active_user
find_session token_hash now users [] = none
find_session token_hash now users (s ∷ ss) =
    let rest = find_session token_hash now users ss in
    if s.token_hash == token_hash && ltb now s.expires_at
    then elim (active_user s.user_id users) [ some u ↦ some u | none ↦ rest ]
    else rest

unfoldable pub find_api_token : String → List User → List ApiToken → Option User
unfolding active_user
find_api_token token_hash users [] = none
find_api_token token_hash users (t ∷ ts) =
    let rest = find_api_token token_hash users ts in
    if t.token_hash == token_hash && not t.disabled
    then elim (active_user t.user_id users) [ some u ↦ some u | none ↦ rest ]
    else rest

-- UPDATE api_tokens SET … WHERE …
unfoldable pub update_tokens :
    (ApiToken → Bool) → (ApiToken → ApiToken) → List ApiToken → List ApiToken
update_tokens where_ set_ [] = []
update_tokens where_ set_ (t ∷ ts) = (if where_ t then set_ t else t) ∷ update_tokens where_ set_ ts

abbrev pub set_last_used : ℕ → ApiToken → ApiToken
set_last_used now t = record t { last_used_at = some now }

abbrev pub set_revoked : ApiToken → ApiToken
set_revoked t = record t { disabled = true }

module _ (hash_token : String → String) where
  abbrev pub session_of : String → ℕ → ℕ → ℕ → Session
  session_of raw user_id timeout_hours now = record {
    token_hash = hash_token raw;
    user_id = user_id;
    expires_at = now + timeout_hours * 3600;
  }

  -- `raw` is the fresh random token, and the times are in seconds.
  unfoldable pub create_session : AuthDb → String → ℕ → ℕ → ℕ → Result AuthDb
  create_session db raw user_id timeout_hours now =
      if any (λ s. s.token_hash == hash_token raw) db.sessions
      then integrity_error
      else if not (is_user user_id db.users)
      then integrity_error
      else ok
          (record db { sessions = db.sessions ++ session_of raw user_id timeout_hours now ∷ [] })

  unfoldable pub validate_session : AuthDb → String → ℕ → Option User
  unfolding find_session
  validate_session db raw now = find_session (hash_token raw) now db.users db.sessions

  unfoldable pub delete_session : AuthDb → String → AuthDb
  delete_session db raw = record db {
    sessions = filter (λ s. not (s.token_hash == hash_token raw)) db.sessions;
  }

  unfoldable pub create_api_token : AuthDb → String → ℕ → Result AuthDb
  create_api_token db raw user_id =
      if any (λ t. t.token_hash == hash_token raw) db.api_tokens
      then integrity_error
      else if not (is_user user_id db.users)
      then integrity_error
      else ok (record db {
        api_tokens =
            db.api_tokens
            ++ record {
              id = db.next_token;
              user_id = user_id;
              token_hash = hash_token raw;
              last_used_at = none;
              disabled = false;
            }
              ∷ [];
        next_token = db.next_token + 1;
      })

unfoldable pub purge_expired_sessions : AuthDb → ℕ → AuthDb
purge_expired_sessions db now = record db {
  sessions = filter (λ s. not (leb s.expires_at now)) db.sessions;
}

unfoldable pub touch_api_token : AuthDb → String → ℕ → AuthDb
unfolding update_tokens
touch_api_token db token_hash now = record db {
  api_tokens = update_tokens (λ t. t.token_hash == token_hash) (set_last_used now) db.api_tokens;
}

-- The user, and the database with the use of the token noted.
unfoldable pub validate_api_token : (String → String) → AuthDb → String → ℕ → AuthDb × Option User
unfolding find_api_token touch_api_token
validate_api_token hash_token db raw now =
    elim (find_api_token (hash_token raw) db.users db.api_tokens) [
      | none ↦ (db, none)
      | some u ↦ (touch_api_token db (hash_token raw) now, some u)
    ]

unfoldable pub revoke_api_token : AuthDb → ℕ → AuthDb × Bool
unfolding update_tokens
revoke_api_token db token_id = (
  record db { api_tokens = update_tokens (λ t. beq t.id token_id) set_revoked db.api_tokens },
  any (λ t. beq t.id token_id) db.api_tokens,
)

unfoldable pub delete_api_token : AuthDb → ℕ → AuthDb
delete_api_token db token_id = record db {
  api_tokens = filter (λ t. not (beq t.id token_id)) db.api_tokens;
}
