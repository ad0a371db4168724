-- ===== src/Tests/Web.antt =====
-- services/web on concrete inputs.
use openring.Prelude.{
  ◌≡◌, ◌≢◌, refl, inl, true, false, String, none, some, List, [], ◌∷◌, arith, eq_iff,
}
use openring.Prelude.Text.{strip}
use openring.Web.Results.{ok, value_error, integrity_error}
use openring.Web.Accounts
use openring.Web.Accounts.{
  AuthDb, User, creating, demoting, disabling, deleting, role_admin, role_viewer,
}
use openring.Web.Accounts.Admins.{IsSafe, run-IsSafe}
use openring.Web.Accounts.Access.{validate-create_session}
use openring.Web.Accounts.Revoked.{disabled_refused}
use openring.Web.Devices
use openring.Web.Devices.{Device}
use openring.Web.Devices.Pairing.{named, validate-create_device_token}
use openring.Web.Lockout
use openring.Web.Lockout.{Attempt}
use openring.Web.Lockout.Retained.{check_lockout-record_failures, record_failures}

-- A hash without collisions on the tokens below.
abbrev hash : String → String
hash raw = raw

abbrev ann : User
ann = record {
  id = 1;
  username = "ann";
  password_hash = "x";
  is_admin = true;
  role = role_admin;
  disabled = false;
}

abbrev bob : User
bob = record {
  id = 2;
  username = "bob";
  password_hash = "y";
  is_admin = true;
  role = role_admin;
  disabled = false;
}

abbrev two_admins : AuthDb
two_admins = record {
  users = ann ∷ bob ∷ [];
  next_user = 3;
  sessions = [];
  api_tokens = [];
  next_token = 1;
}

two_admins-IsSafe : IsSafe two_admins
unfolding Accounts.count_active_admins
two_admins-IsSafe = record {
  keyed = (((λ same. omega (arith, same)), tt), (tt, tt));
  below_next = (omega arith, (omega arith, tt));
  has_admin = omega arith;
}

run-IsSafe_example : IsSafe (
    Accounts.run two_admins
      (demoting 1 role_viewer ∷ disabling 2 true ∷ deleting 2 ∷ creating "cy" "z" none ∷ []))
run-IsSafe_example =
    run-IsSafe two_admins
      (demoting 1 role_viewer ∷ disabling 2 true ∷ deleting 2 ∷ creating "cy" "z" none ∷ [])
      two_admins-IsSafe

-- The second of two admins cannot be disabled once the first is demoted.
last_admin_kept :
    Accounts.count_active_admins
      (Accounts.run two_admins (demoting 1 role_viewer ∷ disabling 2 true ∷ [])).users
    ≡ 1
unfolding Accounts.run Accounts.call Accounts.try_demote_admin Accounts.try_disable_admin
    Accounts.count_active_admins Accounts.update_where Accounts.is_valid_role
last_admin_kept = refl

invalid_role : Accounts.create_user two_admins "cy" "z" true (some "root") ≡ value_error
unfolding Accounts.create_user Accounts.is_valid_role
invalid_role = refl

taken_name : Accounts.create_user two_admins "bob" "z" true none ≡ integrity_error
unfolding Accounts.create_user Accounts.is_valid_role
taken_name = refl

abbrev logged_in : AuthDb
logged_in = record two_admins {
  sessions = record { token_hash = "t1"; user_id = 2; expires_at = 3700 } ∷ [];
}

login : Accounts.create_session hash two_admins "t1" 2 1 100 ≡ ok logged_in
unfolding Accounts.create_session
login = refl

found_bob : Accounts.active_user 2 two_admins.users ≡ some bob
unfolding Accounts.active_user
found_bob = refl

validate-create_session_example : Accounts.validate_session hash logged_in "t1" 3699 ≡ some bob
validate-create_session_example =
    validate-create_session hash two_admins logged_in "t1" 2 1 100 3699 bob login found_bob
      (omega arith)

expired : Accounts.validate_session hash logged_in "t1" 3700 ≡ none
unfolding Accounts.validate_session Accounts.find_session
expired = refl

abbrev annes_too : AuthDb
annes_too = record logged_in {
  sessions =
      record { token_hash = "t1"; user_id = 2; expires_at = 3700 }
      ∷ record { token_hash = "t2"; user_id = 1; expires_at = 3700 }
      ∷ [];
}

bob_disabled : (Accounts.try_disable_admin annes_too 2 true).1 ≡ true
unfolding Accounts.try_disable_admin Accounts.count_active_admins
bob_disabled = refl

ann_let_in :
    Accounts.validate_session hash (Accounts.try_disable_admin annes_too 2 true).0 "t2" 200
    ≡ some ann
unfolding Accounts.try_disable_admin Accounts.count_active_admins Accounts.validate_session
    Accounts.find_session Accounts.active_user Accounts.update_where
ann_let_in = refl

disabled_refused_example : ann.id ≢ 2
disabled_refused_example =
    disabled_refused hash annes_too 2 "t2" 200 ann two_admins-IsSafe.keyed bob_disabled
      (inl ann_let_in)

abbrev door : Device
door = record {
  device_id = "door";
  label = "Front";
  token_hash = "old";
  created_at = 5;
  last_seen_at = some 9;
  last_telemetry = none;
  disabled = true;
}

abbrev door_again : Device
door_again = record {
  device_id = "door";
  label = "Front door";
  token_hash = "new";
  created_at = 50;
  last_seen_at = none;
  last_telemetry = none;
  disabled = false;
}

re_paired :
    Devices.create_device_token hash (door ∷ []) "door" "Front door" "new" 50 ≡ ok (door_again ∷ [])
unfolding Devices.create_device_token Devices.pair Devices.has_device Devices.update_device strip
re_paired = refl

validate-create_device_token_example :
    named (Devices.validate_device_token hash (door_again ∷ []) "new") ≡ some ("door", "Front door")
validate-create_device_token_example =
    validate-create_device_token hash (door ∷ []) (door_again ∷ []) "door" "Front door" "new" 50
      re_paired (λ same. ground (arith, eq_iff "new" "", same))

abbrev gate : Device
gate = record door_again { device_id = "gate"; token_hash = "g" }

gate_let_in :
    Devices.validate_device_token hash (Devices.delete_device (door_again ∷ gate ∷ []) "door").0 "g"
    ≡ some gate
unfolding Devices.validate_device_token Devices.find_device Devices.delete_device
gate_let_in = refl

abbrev failed_once : List Attempt
failed_once =
    record { username = "ann"; ip_address = none; success = false; attempted_at = 10 } ∷ []

one_row : Lockout.attempts_of "ann" failed_once ≡ 1
unfolding Lockout.attempts_of
one_row = refl

check_lockout-record_failures_example :
    Lockout.check_lockout (record_failures failed_once "ann" none (20 ∷ 25 ∷ [])) "ann" 2 15 30
    ≡ true
check_lockout-record_failures_example =
    check_lockout-record_failures failed_once "ann" none (20 ∷ 25 ∷ []) 2 15 30
      (omega arith, (omega arith, tt)) (omega (arith, one_row)) (omega arith)
