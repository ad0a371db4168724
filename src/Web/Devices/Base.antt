-- ===== src/Web/Devices/Base.antt =====
-- The table device_tokens and the functions on it.
use openring.Prelude.{
  ℕ, String, Bool, true, false, not, ◌&&◌, Option, none, some, List, [], ◌∷◌, ◌++◌, filter, any,
  if◌then◌else◌, ◌==◌,
}
use openring.Web.Results.{Result, ok, value_error, integrity_error}
use openring.Prelude.Text.{strip}

pub record Device : Type 0 where
  pub device_id : String
  pub label : String
  pub token_hash : String
  pub created_at : ℕ
  pub last_seen_at : Option ℕ
  pub last_telemetry : Option String
  pub disabled : Bool

unfoldable pub has_device : String → List Device → Bool
has_device device_id ds = any (λ d. d.device_id == device_id) ds

-- UPDATE device_tokens SET … WHERE device_id=?
unfoldable pub update_device : String → (Device → Device) → List Device → List Device
update_device device_id set_ [] = []
update_device device_id set_ (d ∷ ds) =
    (if d.device_id == device_id then set_ d else d) ∷ update_device device_id set_ ds

abbrev pub repaired : String → String → ℕ → Device → Device
repaired label token_hash now d = record d {
  label = label;
  token_hash = token_hash;
  created_at = now;
  last_seen_at = none;
  last_telemetry = none;
  disabled = false;
}

abbrev pub new_device : String → String → String → ℕ → Device
new_device device_id label token_hash now = record {
  device_id = device_id;
  label = label;
  token_hash = token_hash;
  created_at = now;
  last_seen_at = none;
  last_telemetry = none;
  disabled = false;
}

-- A token hash is UNIQUE: the row of another device may not hold it.
abbrev pub is_taken : String → String → List Device → Bool
is_taken device_id h ds = any (λ d. d.token_hash == h && not (d.device_id == device_id)) ds

unfoldable pub pair : String → String → String → ℕ → List Device → List Device
unfolding has_device update_device
pair device_id label token_hash now ds =
    if has_device device_id ds
    then update_device device_id (repaired label token_hash now) ds
    else ds ++ new_device device_id label token_hash now ∷ []

module _ (hash_token : String → String) where
  -- `raw` is the fresh random token.
  unfoldable pub create_device_token :
      List Device → String → String → String → ℕ → Result (List Device)
  unfolding pair
  create_device_token ds device_id label raw now =
      if strip device_id == ""
      then value_error
      else if strip label == ""
      then value_error
      else if is_taken device_id (hash_token raw) ds
      then integrity_error
      else ok (pair device_id label (hash_token raw) now ds)

-- WHERE token_hash=? AND disabled=0, the first row
unfoldable pub find_device : String → List Device → Option Device
find_device h [] = none
find_device h (d ∷ ds) = if d.token_hash == h && not d.disabled then some d else find_device h ds

unfoldable pub validate_device_token : (String → String) → List Device → String → Option Device
unfolding find_device
validate_device_token hash_token ds raw =
    if raw == "" then none else find_device (hash_token raw) ds

abbrev pub seen : ℕ → Option String → Device → Device
seen now none d = record d { last_seen_at = some now }
seen now (some telemetry) d = record d { last_seen_at = some now; last_telemetry = some telemetry }

unfoldable pub touch_device : List Device → String → Option String → ℕ → List Device
unfolding update_device
touch_device ds device_id telemetry now = update_device device_id (seen now telemetry) ds

unfoldable pub delete_device : List Device → String → List Device × Bool
unfolding has_device
delete_device ds device_id =
    (filter (λ d. not (d.device_id == device_id)) ds, has_device device_id ds)

unfoldable pub disable_device : List Device → String → List Device × Bool
unfolding update_device has_device
disable_device ds device_id =
    (update_device device_id (λ d. record d { disabled = true }) ds, has_device device_id ds)
