-- ===== src/Web/Accounts/Base.antt =====
-- The auth database and the functions on it.
use openring.Prelude.{
  ℕ, ◌+◌, String, Bool, true, false, not, ◌&&◌, ◌||◌, Option, none, some, List, [], ◌∷◌, ◌++◌,
  filter, any, length, ltb, beq, if◌then◌else◌, ◌==◌,
}
use openring.Web.Results.{Result, ok, value_error, integrity_error}

abbrev pub role_user : String
role_user = "user"

abbrev pub role_viewer : String
role_viewer = "viewer"

abbrev pub role_admin : String
role_admin = "admin"

pub record User : Type 0 where
  pub id : ℕ
  pub username : String
  pub password_hash : String
  pub is_admin : Bool
  pub role : String
  pub disabled : Bool

pub record Session : Type 0 where
  pub token_hash : String
  pub user_id : ℕ
  pub expires_at : ℕ

pub record ApiToken : Type 0 where
  pub id : ℕ
  pub user_id : ℕ
  pub token_hash : String
  pub last_used_at : Option ℕ
  pub disabled : Bool

pub record AuthDb : Type 0 where
  pub users : List User
  pub next_user : ℕ
  pub sessions : List Session
  pub api_tokens : List ApiToken
  pub next_token : ℕ

unfoldable pub is_valid_role : String → Bool
is_valid_role r = r == role_user || (r == role_viewer || r == role_admin)

-- UPDATE users SET … WHERE …
unfoldable pub update_where : (User → Bool) → (User → User) → List User → List User
update_where where_ set_ [] = []
update_where where_ set_ (u ∷ us) = (if where_ u then set_ u else u) ∷ update_where where_ set_ us

abbrev pub rowcount : (User → Bool) → List User → ℕ
rowcount where_ us = length (filter where_ us)

abbrev pub is_active_admin : User → Bool
is_active_admin u = u.role == role_admin && not u.disabled

unfoldable pub count_active_admins : List User → ℕ
count_active_admins us = length (filter is_active_admin us)

unfoldable pub users_exist : AuthDb → Bool
users_exist db = any (λ u. not u.disabled) db.users

-- role, where it is `None`, comes from the legacy flag
unfoldable pub effective_role : Option String → Bool → String
effective_role none is_admin = if is_admin then role_admin else role_user
effective_role (some r) is_admin = r

unfoldable pub create_user :
    AuthDb → (username password_hash : String) → Bool → Option String → Result (AuthDb × ℕ)
unfolding effective_role
create_user db username password_hash is_admin role =
    let r = effective_role role is_admin in
    if not (is_valid_role r)
    then value_error
    else if any (λ u. u.username == username) db.users
    then integrity_error
    else ok (
      record db {
        users =
            db.users
            ++ record {
              id = db.next_user;
              username = username;
              password_hash = password_hash;
              is_admin = r == role_admin;
              role = r;
              disabled = false;
            }
              ∷ [];
        next_user = db.next_user + 1;
      },
      db.next_user,
    )

abbrev pub set_role : String → User → User
set_role role u = record u { role = role; is_admin = role == role_admin }

unfoldable pub update_user_role : AuthDb → ℕ → String → Result AuthDb
update_user_role db user_id role =
    if not (is_valid_role role)
    then value_error
    else ok (record db { users = update_where (λ u. beq u.id user_id) (set_role role) db.users })

-- (SELECT COUNT(*) FROM users WHERE role=? AND disabled=0) > 1
abbrev pub others_remain : AuthDb → Bool
others_remain db = ltb 1 (count_active_admins db.users)

abbrev pub may_demote : AuthDb → ℕ → User → Bool
may_demote db user_id u = beq u.id user_id && (not (u.role == role_admin) || others_remain db)

unfoldable pub try_demote_admin : AuthDb → ℕ → String → Result (AuthDb × Bool)
unfolding update_user_role
try_demote_admin db user_id new_role =
    if not (is_valid_role new_role)
    then value_error
    else if new_role == role_admin
    then ok (
      record db { users = update_where (λ u. beq u.id user_id) (set_role new_role) db.users },
      true,
    )
    else ok (
      record db { users = update_where (may_demote db user_id) (set_role new_role) db.users },
      ltb 0 (rowcount (may_demote db user_id) db.users),
    )

abbrev pub set_disabled : Bool → User → User
set_disabled b u = record u { disabled = b }

unfoldable pub set_user_disabled : AuthDb → ℕ → Bool → AuthDb
set_user_disabled db user_id disabled = record db {
  users = update_where (λ u. beq u.id user_id) (set_disabled disabled) db.users;
}

unfoldable pub try_disable_admin : AuthDb → ℕ → Bool → AuthDb × Bool
unfolding set_user_disabled
try_disable_admin db user_id disabled =
    if not disabled then (set_user_disabled db user_id false, true) else (
      record db { users = update_where (may_demote db user_id) (set_disabled true) db.users },
      ltb 0 (rowcount (may_demote db user_id) db.users),
    )

-- The rows of the other tables go with their user, by ON DELETE CASCADE.
unfoldable pub delete_where : (User → Bool) → AuthDb → AuthDb
delete_where where_ db = record db {
  users = filter (λ u. not (where_ u)) db.users;
  sessions = filter (λ s. not (any (λ u. where_ u && beq u.id s.user_id) db.users)) db.sessions;
  api_tokens = filter (λ t. not (any (λ u. where_ u && beq u.id t.user_id) db.users)) db.api_tokens;
}

abbrev pub may_delete : AuthDb → ℕ → User → Bool
may_delete db user_id u =
    beq u.id user_id && (not (u.role == role_admin) || (u.disabled || others_remain db))

unfoldable pub try_delete_admin : AuthDb → ℕ → AuthDb × Bool
unfolding delete_where
try_delete_admin db user_id =
    (delete_where (may_delete db user_id) db, ltb 0 (rowcount (may_delete db user_id) db.users))

unfoldable pub delete_user : AuthDb → ℕ → AuthDb
unfolding delete_where
delete_user db user_id = delete_where (λ u. beq u.id user_id) db

unfoldable pub set_user_password : AuthDb → ℕ → String → AuthDb × Bool
set_user_password db user_id password_hash = (
  record db {
    users =
        update_where (λ u. beq u.id user_id) (λ u. record u { password_hash = password_hash })
          db.users;
  },
  ltb 0 (rowcount (λ u. beq u.id user_id) db.users),
)

-- What the routes of routes/users.py call.
pub data Call : Type 0 where
  creating : (username password_hash : String) (role : Option String) → Call
  demoting : (user_id : ℕ) (role : String) → Call
  disabling : (user_id : ℕ) (disabled : Bool) → Call
  deleting : (user_id : ℕ) → Call
  resetting : (user_id : ℕ) (password_hash : String) → Call

abbrev pub after {ℓ} : {A : Type ℓ} → AuthDb → Result (AuthDb × A) → AuthDb
after db (ok (db', a)) = db'
after db value_error = db
after db integrity_error = db

unfoldable pub call : AuthDb → Call → AuthDb
call db (creating username password_hash role) =
    after db (create_user db username password_hash true role)
call db (demoting user_id role) = after db (try_demote_admin db user_id role)
call db (disabling user_id disabled) = (try_disable_admin db user_id disabled).0
call db (deleting user_id) = (try_delete_admin db user_id).0
call db (resetting user_id password_hash) = (set_user_password db user_id password_hash).0

unfoldable pub run : AuthDb → List Call → AuthDb
run db [] = db
run db (c ∷ cs) = run (call db c) cs
