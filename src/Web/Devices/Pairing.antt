-- ===== src/Web/Devices/Pairing.antt =====
-- Which device a token belongs to, after each operation on the table.
use openring.Prelude.{
  ℕ, String, true, false, not, ◌≡◌, ◌≢◌, ◌⊎◌, refl, inl, inr, Option, none, some, List, [], ◌∷◌,
  ◌++◌, filter, arith, ◌==◌, eq_iff, eq_refl,
}
use openring.Web.Results.{ok}
use openring.Web.Devices.Base.{
  Device, has_device, update_device, repaired, new_device, is_taken, pair, create_device_token,
  find_device, validate_device_token, seen, touch_device, delete_device, disable_device,
}

-- What a validated token says: the device and its label.
abbrev pub named : Option Device → Option (String × String)
named none = none
named (some d) = some (d.device_id, d.label)

module _ (device_id label h : String) (now : ℕ) where
  find_device-repaired :
      (ds : List Device)
      → is_taken device_id h ds ≡ false
      → has_device device_id ds ≡ true
      → named (find_device h (update_device device_id (repaired label h now) ds))
        ≡ some (device_id, label)
  unfolding find_device update_device has_device
  find_device-repaired [] free known = ground arith
  find_device-repaired (d ∷ ds) free known =
      ground (arith, free, known, eq_refl h, eq_iff d.device_id device_id, find_device-repaired ds)

  find_device-appended :
      (ds : List Device)
      → is_taken device_id h ds ≡ false
      → has_device device_id ds ≡ false
      → named (find_device h (ds ++ new_device device_id label h now ∷ []))
        ≡ some (device_id, label)
  unfolding find_device has_device
  find_device-appended [] free unknown = ground (arith, eq_refl h)
  find_device-appended (d ∷ ds) free unknown =
      ground (arith, free, unknown, find_device-appended ds)

  find_device-pair :
      (ds : List Device)
      → is_taken device_id h ds ≡ false
      → named (find_device h (pair device_id label h now ds)) ≡ some (device_id, label)
  unfolding pair
  find_device-pair ds free =
      ground (arith, free, find_device-repaired ds free, find_device-appended ds free)

  -- A hash that only the paired device held is no longer found.
  update_device-forgets :
      (old : String) (ds : List Device)
      → is_taken device_id old ds ≡ false
      → (h == old) ≡ false
      → find_device old (update_device device_id (repaired label h now) ds) ≡ none
  unfolding find_device update_device
  update_device-forgets old [] free other = refl
  update_device-forgets old (d ∷ ds) free other =
      ground (arith, free, other, update_device-forgets old ds)

  append-forgets :
      (old : String) (ds : List Device)
      → is_taken device_id old ds ≡ false
      → has_device device_id ds ≡ false
      → (h == old) ≡ false
      → find_device old (ds ++ new_device device_id label h now ∷ []) ≡ none
  unfolding find_device has_device
  append-forgets old [] free unknown other = ground (arith, other)
  append-forgets old (d ∷ ds) free unknown other =
      ground (arith, free, unknown, other, append-forgets old ds)

  find_device-pair_old :
      (old : String) (ds : List Device)
      → is_taken device_id old ds ≡ false
      → (h == old) ≡ false
      → find_device old (pair device_id label h now ds) ≡ none
  unfolding pair
  find_device-pair_old old ds free other =
      ground (arith, update_device-forgets old ds free other, append-forgets old ds free)

module _ (hash_token : String → String) (ds ds' : List Device) (device_id label raw : String)
    (now : ℕ) (paired : create_device_token hash_token ds device_id label raw now ≡ ok ds') where
  -- After a pairing that returns, whether the device was known or not, the new token, where it is
  -- not empty, is that device's under its new label.
  pub validate-create_device_token :
      raw ≢ "" → named (validate_device_token hash_token ds' raw) ≡ some (device_id, label)
  unfolding create_device_token validate_device_token
  validate-create_device_token filled =
      ground
        (arith, paired, eq_iff raw "", find_device-pair device_id label (hash_token raw) now ds)

  -- After a pairing that returns, every token with another hash that no other device holds is
  -- refused: a re-pair revokes the tokens that the device had before.
  pub validate-create_device_token_old :
      (old : String)
      → is_taken device_id (hash_token old) ds ≡ false
      → hash_token raw ≢ hash_token old
      → validate_device_token hash_token ds' old ≡ none
  unfolding create_device_token validate_device_token
  validate-create_device_token_old old free other = ground (
    arith,
    paired,
    eq_iff (hash_token raw) (hash_token old),
    find_device-pair_old device_id label (hash_token raw) now (hash_token old) ds free,
  )

module _ (h device_id : String) where
  find_device-deleted :
      (ds : List Device) (d : Device)
      → find_device h (filter (λ d. not (d.device_id == device_id)) ds) ≡ some d
      → d.device_id ≢ device_id
  unfolding find_device
  find_device-deleted [] d found = cc
  find_device-deleted (e ∷ ds) d found =
      ground (arith, eq_iff e.device_id device_id, find_device-deleted ds d)

  find_device-disabled :
      (ds : List Device) (d : Device)
      → find_device h (update_device device_id (λ d. record d { disabled = true }) ds) ≡ some d
      → d.device_id ≢ device_id
  unfolding find_device update_device
  find_device-disabled [] d found = cc
  find_device-disabled (e ∷ ds) d found =
      ground (arith, eq_iff e.device_id device_id, find_device-disabled ds d)

  find_device-seen :
      (now : ℕ) (telemetry : Option String) (ds : List Device)
      → named (find_device h (update_device device_id (seen now telemetry) ds))
        ≡ named (find_device h ds)
  unfolding find_device update_device
  find_device-seen now none [] = refl
  find_device-seen now (some t) [] = refl
  find_device-seen now none (e ∷ ds) = ground (arith, find_device-seen now none ds)
  find_device-seen now (some t) (e ∷ ds) = ground (arith, find_device-seen now (some t) ds)

-- No token lets a device in that was deleted or disabled.
pub revoked_refused :
    (hash_token : String → String) (ds : List Device) (device_id raw : String) (d : Device)
    → ((validate_device_token hash_token (delete_device ds device_id).0 raw ≡ some d)
        ⊎ (validate_device_token hash_token (disable_device ds device_id).0 raw ≡ some d))
    → d.device_id ≢ device_id
unfolding validate_device_token delete_device disable_device
revoked_refused hash_token ds device_id raw d (inl found) =
    ground (arith, found, find_device-deleted (hash_token raw) device_id ds d)
revoked_refused hash_token ds device_id raw d (inr found) =
    ground (arith, found, find_device-disabled (hash_token raw) device_id ds d)

-- A press or a heartbeat changes for no token the device and the label that it stands for.
pub validate-touch_device :
    (hash_token : String → String) (ds : List Device) (device_id raw : String)
    (telemetry : Option String) (now : ℕ)
    → named (validate_device_token hash_token (touch_device ds device_id telemetry now) raw)
      ≡ named (validate_device_token hash_token ds raw)
unfolding validate_device_token touch_device
validate-touch_device hash_token ds device_id raw telemetry now =
    ground (arith, find_device-seen (hash_token raw) device_id now telemetry ds)
