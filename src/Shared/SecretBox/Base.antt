-- ===== src/Shared/SecretBox/Base.antt =====
-- `encrypt`, the walkers, `encrypt_in_place` and `has_plaintext_secrets`.
use openring.Prelude.Yaml.{
  Value, null, flag, number, text, items, mapping, Items, nil, cons, Fields, end, field, get,
}
use openring.Prelude.Text.{begins_with, join}
use openring.Prelude.{
  and_then, ℕ, ◌+◌, String, Bool, false, not, ◌&&◌, ◌||◌, Option, none, some, List, [], ◌∷◌, beq,
  if◌then◌else◌, ◌==◌,
}

abbrev pub prefix : String
prefix = "enc:v1:"

abbrev pub sensitive_channel_keys : List String
sensitive_channel_keys = "webhook_url" ∷ "smtp_pass" ∷ "auth_token" ∷ "token" ∷ "password" ∷ []

abbrev pub api_key_path : List String
api_key_path = "deterrent" ∷ "tuya" ∷ "api_key" ∷ []

abbrev pub api_secret_path : List String
api_secret_path = "deterrent" ∷ "tuya" ∷ "api_secret" ∷ []

abbrev pub channels_path : List String
channels_path = "notifications" ∷ "channels" ∷ []

-- isinstance(v, str) and v and not is_encrypted(v)
unfoldable pub is_plain : Option Value → Bool
is_plain (some (text s)) = not (s == "") && not (begins_with s prefix)
is_plain (some null) = false
is_plain (some (flag b)) = false
is_plain (some (number n)) = false
is_plain (some (items l)) = false
is_plain (some (mapping m)) = false
is_plain none = false

-- The rest of a path, in a value that is a dict.
abbrev pub in_dict : (Fields → Option Value) → Option Value → Option Value
in_dict f (some (mapping m)) = f m
in_dict f (some null) = none
in_dict f (some (flag b)) = none
in_dict f (some (number n)) = none
in_dict f (some (text s)) = none
in_dict f (some (items l)) = none
in_dict f none = none

unfoldable pub safe_get : List String → Fields → Option Value
safe_get [] cfg = some (mapping cfg)
safe_get (seg ∷ []) cfg = get seg cfg
safe_get (seg ∷ next ∷ path) cfg = in_dict (safe_get (next ∷ path)) (get seg cfg)

-- The dict with the value at a key that is present written anew.
unfoldable pub write_at : String → (Value → Option Value) → Fields → Option Fields
write_at key f end = some end
write_at key f (field k v m) =
    let later = write_at key f m in
    if k == key
    then and_then (f v) (λ v'. some (field k v' m))
    else and_then later (λ m'. some (field k v m'))

abbrev pub change_dict : (Fields → Option Fields) → Value → Option Value
change_dict f (mapping m) = and_then (f m) (λ m'. some (mapping m'))
change_dict f null = some null
change_dict f (flag b) = some (flag b)
change_dict f (number n) = some (number n)
change_dict f (text s) = some (text s)
change_dict f (items l) = some (items l)

unfoldable pub write_path : List String → (Value → Option Value) → Fields → Option Fields
unfolding write_at
write_path [] f cfg = some cfg
write_path (seg ∷ []) f cfg = write_at seg f cfg
write_path (seg ∷ next ∷ path) f cfg = write_at seg (change_dict (write_path (next ∷ path) f)) cfg

-- Whether some dict of the list holds a secret in plain text.
unfoldable pub any_plain_key : List String → Fields → Bool
any_plain_key [] channel = false
any_plain_key (k ∷ ks) channel = is_plain (get k channel) || any_plain_key ks channel

unfoldable pub any_plain_channel : Items → Bool
unfolding any_plain_key
any_plain_channel nil = false
any_plain_channel (cons (mapping m) l) =
    any_plain_key sensitive_channel_keys m || any_plain_channel l
any_plain_channel (cons null l) = any_plain_channel l
any_plain_channel (cons (flag b) l) = any_plain_channel l
any_plain_channel (cons (number n) l) = any_plain_channel l
any_plain_channel (cons (text s) l) = any_plain_channel l
any_plain_channel (cons (items i) l) = any_plain_channel l

abbrev pub in_list : Option Value → Option Items
in_list (some (items l)) = some l
in_list (some null) = none
in_list (some (flag b)) = none
in_list (some (number n)) = none
in_list (some (text s)) = none
in_list (some (mapping m)) = none
in_list none = none

abbrev pub any_plain_in : Option Items → Bool
any_plain_in none = false
any_plain_in (some l) = any_plain_channel l

unfoldable pub has_plaintext_secrets : Fields → Bool
unfolding is_plain safe_get any_plain_channel
has_plaintext_secrets cfg =
    is_plain (safe_get api_key_path cfg)
    || (is_plain (safe_get api_secret_path cfg)
        || any_plain_in (in_list (safe_get channels_path cfg)))

module _ {B : Type 0} (strip : B → B) (byte_count : B → ℕ)
    (urlsafe_b64decode b64decode : B → Option B) (fernet_encrypt : ℕ → B → String → String) where
  -- The decoded key, where it has 32 bytes.
  abbrev or_decoded : Option B → Option B → Option B
  or_decoded none later = later
  or_decoded (some raw) later = if beq (byte_count raw) 32 then some raw else later

  unfoldable pub normalize_key : B → Option B
  normalize_key key =
      if beq (byte_count (strip key)) 32
      then some (strip key)
      else or_decoded (urlsafe_b64decode (strip key)) (or_decoded (b64decode (strip key)) none)

  unfoldable pub encrypt : B → ℕ → String → Option String
  unfolding normalize_key
  encrypt key i plaintext =
      if plaintext == "" || begins_with plaintext prefix
      then some plaintext
      else and_then (normalize_key key) (λ raw. some (join prefix (fernet_encrypt i raw plaintext)))

  -- What `_walk_and_apply` does at the leaf.
  unfoldable pub encrypt_leaf : B → ℕ → Value → Option Value
  unfolding encrypt
  encrypt_leaf key i (text s) = and_then (encrypt key i s) (λ s'. some (text s'))
  encrypt_leaf key i null = some null
  encrypt_leaf key i (flag b) = some (flag b)
  encrypt_leaf key i (number n) = some (number n)
  encrypt_leaf key i (items l) = some (items l)
  encrypt_leaf key i (mapping m) = some (mapping m)

  -- A configuration, and how many fields have been encrypted so far.
  unfoldable pub encrypt_path : B → List String → Fields × ℕ → Option (Fields × ℕ)
  unfolding encrypt_leaf write_path safe_get is_plain
  encrypt_path key path (cfg, n) =
      if is_plain (safe_get path cfg)
      then and_then (write_path path (encrypt_leaf key n) cfg) (λ cfg'. some (cfg', n + 1))
      else some (cfg, n)

  -- The loop over the keys, at a channel that is a dict.
  unfoldable pub encrypt_keys : B → List String → Fields × ℕ → Option (Fields × ℕ)
  unfolding encrypt_path
  encrypt_keys key [] r = some r
  encrypt_keys key (k ∷ ks) r = and_then (encrypt_path key (k ∷ []) r) (encrypt_keys key ks)

  unfoldable pub encrypt_channels : B → Items → ℕ → Option (Items × ℕ)
  unfolding encrypt_keys
  encrypt_channels key nil n = some (nil, n)
  encrypt_channels key (cons (mapping m) l) n =
      and_then (encrypt_keys key sensitive_channel_keys (m, n)) (λ (m', n').
        and_then (encrypt_channels key l n') (λ (l', n''). some (cons (mapping m') l', n'')))
  encrypt_channels key (cons null l) n =
      and_then (encrypt_channels key l n) (λ (l', n'). some (cons null l', n'))
  encrypt_channels key (cons (flag b) l) n =
      and_then (encrypt_channels key l n) (λ (l', n'). some (cons (flag b) l', n'))
  encrypt_channels key (cons (number i) l) n =
      and_then (encrypt_channels key l n) (λ (l', n'). some (cons (number i) l', n'))
  encrypt_channels key (cons (text s) l) n =
      and_then (encrypt_channels key l n) (λ (l', n'). some (cons (text s) l', n'))
  encrypt_channels key (cons (items i) l) n =
      and_then (encrypt_channels key l n) (λ (l', n'). some (cons (items i) l', n'))

  -- The list of channels, if there is one; as it is changed in place, it is written to its path.
  unfoldable pub encrypt_found : B → Fields → ℕ → Option Items → Option (Fields × ℕ)
  unfolding encrypt_channels write_path
  encrypt_found key cfg n none = some (cfg, n)
  encrypt_found key cfg n (some l) = and_then (encrypt_channels key l n) (λ (l', n').
      and_then (write_path channels_path (λ v. some (items l')) cfg) (λ cfg'. some (cfg', n')))

  unfoldable pub encrypt_all_channels : B → Fields × ℕ → Option (Fields × ℕ)
  unfolding encrypt_found safe_get
  encrypt_all_channels key (cfg, n) = encrypt_found key cfg n (in_list (safe_get channels_path cfg))

  unfoldable pub encrypt_in_place : B → Fields → Option (Fields × ℕ)
  unfolding encrypt_path encrypt_all_channels
  encrypt_in_place key cfg =
      and_then (encrypt_path key api_key_path (cfg, 0))
        (λ r. and_then (encrypt_path key api_secret_path r) (encrypt_all_channels key))
