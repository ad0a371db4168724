-- ===== src/Web/Accounts/Admins.antt =====
-- The last active admin cannot be lost.
use openring.Prelude.{
  ℕ, ◌+◌, ◌≤◌, ◌<◌, ◌≢◌, String, Bool, true, false, not, ◌≡◌, ◌⊎◌, refl, inl, inr, Bool-cases,
  Option, List, [], ◌∷◌, ◌++◌, any, arith, beq, All, All-append, All-map, All-filter, ◌==◌,
}
use openring.Web.Accounts.Base.{
  User, AuthDb, role_admin, is_valid_role, update_where, effective_role, count_active_admins,
  create_user, try_demote_admin, try_disable_admin, try_delete_admin, delete_where,
  set_user_disabled, set_user_password, may_demote, may_delete, others_remain, set_role,
  set_disabled, is_active_admin, Call, creating, demoting, disabling, deleting, resetting, call,
  run, after,
}
use openring.Web.Accounts.Rows.{
  IsKeyed, All-update_where, update_where-IsKeyed, count-update_where, count-update_where-kept,
  filter-IsKeyed, count-filter, count-filter-kept,
}

pub record IsSafe (db : AuthDb) : Type 0 where
  pub keyed : IsKeyed db.users
  pub below_next : All (λ u. u.id < db.next_user) db.users
  pub has_admin : 1 ≤ count_active_admins db.users

-- A row that an UPDATE or a DELETE may meet: another active admin remains, or it is none itself.
abbrev Keeps : AuthDb → (User → Bool) → (User → User) → Type 0
Keeps db where_ set_ =
    (u : User)
    → where_ u ≡ true
    → is_active_admin u ≡ true
    → (is_active_admin (set_ u) ≡ true) ⊎ (others_remain db ≡ true)

module _ (db : AuthDb) (safe : IsSafe db) (user_id : ℕ) (where_ : User → Bool)
    (one_row : (u : User) → where_ u ≡ true → u.id ≡ user_id) where
  updated-IsSafe :
      (set_ : User → User) (keeps_id : (u : User) → (set_ u).id ≡ u.id)
      → Keeps db where_ set_
      → IsSafe (record db { users = update_where where_ set_ db.users })
  updated-IsSafe set_ keeps_id keeps = record {
    keyed = update_where-IsKeyed user_id where_ set_ one_row keeps_id db.users safe.keyed;
    below_next =
        All-update_where user_id where_ set_ one_row keeps_id (λ i. i < db.next_user) db.users
          safe.below_next;
    has_admin = elim (Bool-cases (others_remain db)) [
      | inl remain ↦ ground (
        arith,
        safe.has_admin,
        count-update_where user_id where_ set_ one_row keeps_id db.users safe.keyed,
      )
      | inr alone ↦
          let kept : (u : User)
              → where_ u ≡ true
              → is_active_admin u ≡ true
              → is_active_admin (set_ u) ≡ true =
            λ u met active. ground (arith, keeps u met active) in
          omega (
            arith,
            safe.has_admin,
            count-update_where-kept user_id where_ set_ one_row keeps_id kept db.users,
          )
    ];
  }

  deleted-IsSafe :
      ((u : User) → where_ u ≡ true → is_active_admin u ≡ true → others_remain db ≡ true)
      → IsSafe (delete_where where_ db)
  unfolding delete_where
  deleted-IsSafe keeps = record {
    keyed = filter-IsKeyed (λ u. not (where_ u)) db.users safe.keyed;
    below_next =
        All-filter (λ u. u.id < db.next_user) (λ u. not (where_ u)) db.users safe.below_next;
    has_admin = elim (Bool-cases (others_remain db)) [
      | inl remain ↦
          ground (arith, safe.has_admin, count-filter user_id where_ one_row db.users safe.keyed)
      | inr alone ↦
          let kept : (u : User) → where_ u ≡ true → is_active_admin u ≡ false =
            λ u met. ground (arith, keeps u met) in
          omega (arith, safe.has_admin, count-filter-kept user_id where_ one_row kept db.users)
    ];
  }

-- A new row has an id above all others.
append-IsKeyed :
    (us : List User) (u : User) → IsKeyed us → All (λ v. v.id < u.id) us → IsKeyed (us ++ u ∷ [])
append-IsKeyed [] u h below = (tt, tt)
append-IsKeyed (v ∷ us) u h below = (
  All-append (λ w. v.id ≢ w.id) us (u ∷ []) h.0 (λ same. omega (arith, below.0, same), tt),
  append-IsKeyed us u h.1 below.1,
)

count-append-le : (us vs : List User) → count_active_admins us ≤ count_active_admins (us ++ vs)
unfolding count_active_admins
count-append-le [] vs = omega arith
count-append-le (u ∷ us) vs = ground (arith, count-append-le us vs)

inserted-IsSafe :
    (db : AuthDb) (u : User)
    → u.id ≡ db.next_user
    → IsSafe db
    → IsSafe (record db { users = db.users ++ u ∷ []; next_user = db.next_user + 1 })
inserted-IsSafe db u fresh safe = record {
  keyed = append-IsKeyed db.users u safe.keyed (
      All-map (λ v. v.id < db.next_user) (λ v. v.id < u.id) (λ v below. omega (arith, below, fresh))
        db.users safe.below_next);
  below_next =
      All-append (λ v. v.id < db.next_user + 1) db.users (u ∷ [])
        (All-map (λ v. v.id < db.next_user) (λ v. v.id < db.next_user + 1)
          (λ v below. omega (arith, below)) db.users safe.below_next)
        (omega (arith, fresh), tt);
  has_admin = omega (arith, safe.has_admin, count-append-le db.users (u ∷ []));
}

create_user-IsSafe :
    (db : AuthDb) (username password_hash : String) (is_admin : Bool) (role : Option String)
    → IsSafe db
    → IsSafe (after db (create_user db username password_hash is_admin role))
unfolding create_user
create_user-IsSafe db username password_hash is_admin role safe =
    elim (Bool-cases (is_valid_role (effective_role role is_admin))) [
      | inr invalid ↦ rw invalid safe
      | inl valid ↦ elim (Bool-cases (any (λ u. u.username == username) db.users)) [
        | inl taken ↦ rw valid (rw taken safe)
        | inr free ↦ rw valid (rw free (inserted-IsSafe db _ refl safe))
      ]
    ]

try_demote_admin-IsSafe :
    (db : AuthDb) (user_id : ℕ) (role : String)
    → IsSafe db
    → IsSafe (after db (try_demote_admin db user_id role))
unfolding try_demote_admin
try_demote_admin-IsSafe db user_id role safe = elim (Bool-cases (is_valid_role role)) [
  | inr invalid ↦ rw invalid safe
  | inl valid ↦ elim (Bool-cases (role == role_admin)) [
    | inl promoted ↦ rw valid (
        rw promoted (
          updated-IsSafe db safe user_id (λ u. beq u.id user_id) (λ u met. ground (arith, met))
            (set_role role) (λ u. refl) (λ u met active. inl (ground (arith, promoted, active)))))
    | inr demoted ↦ rw valid (
        rw demoted (
          updated-IsSafe db safe user_id (may_demote db user_id) (λ u met. ground (arith, met))
            (set_role role) (λ u. refl) (λ u met active. inr (ground (arith, met, active)))))
  ]
]

try_disable_admin-IsSafe :
    (db : AuthDb) (user_id : ℕ) (disabled : Bool)
    → IsSafe db
    → IsSafe (try_disable_admin db user_id disabled).0
unfolding try_disable_admin set_user_disabled
try_disable_admin-IsSafe db user_id false safe =
    updated-IsSafe db safe user_id (λ u. beq u.id user_id) (λ u met. ground (arith, met))
      (set_disabled false) (λ u. refl) (λ u met active. inl (ground (arith, active)))
try_disable_admin-IsSafe db user_id true safe =
    updated-IsSafe db safe user_id (may_demote db user_id) (λ u met. ground (arith, met))
      (set_disabled true) (λ u. refl) (λ u met active. inr (ground (arith, met, active)))

try_delete_admin-IsSafe :
    (db : AuthDb) (user_id : ℕ) → IsSafe db → IsSafe (try_delete_admin db user_id).0
unfolding try_delete_admin
try_delete_admin-IsSafe db user_id safe =
    deleted-IsSafe db safe user_id (may_delete db user_id) (λ u met. ground (arith, met))
      (λ u met active. ground (arith, met, active))

set_user_password-IsSafe :
    (db : AuthDb) (user_id : ℕ) (password_hash : String)
    → IsSafe db
    → IsSafe (set_user_password db user_id password_hash).0
unfolding set_user_password
set_user_password-IsSafe db user_id password_hash safe =
    updated-IsSafe db safe user_id (λ u. beq u.id user_id) (λ u met. ground (arith, met))
      (λ u. record u { password_hash = password_hash }) (λ u. refl) (λ u met active. inl active)

call-IsSafe : (db : AuthDb) (c : Call) → IsSafe db → IsSafe (call db c)
unfolding call
call-IsSafe db (creating username password_hash role) =
    create_user-IsSafe db username password_hash true role
call-IsSafe db (demoting user_id role) = try_demote_admin-IsSafe db user_id role
call-IsSafe db (disabling user_id disabled) = try_disable_admin-IsSafe db user_id disabled
call-IsSafe db (deleting user_id) = try_delete_admin-IsSafe db user_id
call-IsSafe db (resetting user_id password_hash) = set_user_password-IsSafe db user_id password_hash

-- From a table with distinct ids and an active admin, every sequence of the calls that the user
-- pages make leaves a table with distinct ids and an active admin.
pub run-IsSafe : (db : AuthDb) (cs : List Call) → IsSafe db → IsSafe (run db cs)
unfolding run
run-IsSafe db [] safe = safe
run-IsSafe db (c ∷ cs) safe = run-IsSafe (call db c) cs (call-IsSafe db c safe)
