-- ===== src/Shared/SecretBox/Settled.antt =====
-- A configuration without plain secrets is left as it is.
use openring.Prelude.Yaml.{
  Value, null, flag, number, text, items, mapping, Items, nil, cons, Fields, end, field, get,
}
use openring.Prelude.{
  and_then, some-injective, ℕ, String, Bool, false, ◌||◌, ◌≡◌, refl, ap, ◌∙◌, inl, inr, Bool-cases,
  Option-cases, Option, none, some, List, [], ◌∷◌, arith, ◌==◌,
}
use openring.Shared.SecretBox.Base.{
  sensitive_channel_keys, api_key_path, api_secret_path, channels_path, is_plain, safe_get,
  write_at, write_path, any_plain_key, any_plain_channel, in_list, any_plain_in,
  has_plaintext_secrets, encrypt_path, encrypt_keys, encrypt_channels, encrypt_found,
  encrypt_all_channels, encrypt_in_place,
}
use openring.Shared.SecretBox.Migrated.{encrypt_in_place-hides}

or-left : (a b : Bool) → (a || b) ≡ false → a ≡ false
or-left a b h = ground (arith, h)

or-right : (a : Bool) {b : Bool} → (a || b) ≡ false → b ≡ false
or-right a {b} h = ground (arith, h)

-- A write of the value that is there.
write_at-same :
    (key : String) (f : Value → Option Value) (m : Fields) (v : Value)
    → get key m ≡ some v
    → f v ≡ some v
    → write_at key f m ≡ some m
unfolding write_at get
write_at-same key f end v found same = cc
write_at-same key f (field k u m) v found same = elim (Bool-cases (k == key)) [
  | inl met ↦ let here : u ≡ v = some-injective (rw met at found) in rw (met, here, same) refl
  | inr passed ↦ rw (passed, write_at-same key f m v (rw passed at found) same) refl
]

write_channels-same :
    (cfg : Fields) (v : Value)
    → safe_get channels_path cfg ≡ some v
    → write_path channels_path (λ u. some v) cfg ≡ some cfg
unfolding write_path safe_get
write_channels-same cfg v found = elim (Option-cases (get "notifications" cfg)) [
  | inl absent ↦ cc (rw absent at found)
  | inr (mapping m, e) ↦ write_at-same "notifications" _ cfg (mapping m) e (
      ap (λ o. and_then o (λ m'. some (mapping m')))
        (write_at-same "channels" (λ u. some v) m v (rw e at found) refl))
  | inr (null, e) ↦ cc (rw e at found)
  | inr (flag b, e) ↦ cc (rw e at found)
  | inr (number n, e) ↦ cc (rw e at found)
  | inr (text s, e) ↦ cc (rw e at found)
  | inr (items l, e) ↦ cc (rw e at found)
]

in_list-some : (o : Option Value) {l : Items} → in_list o ≡ some l → o ≡ some (items l)
in_list-some none e = cc
in_list-some (some (items l)) e = ap (λ l'. some (items l')) (some-injective e)
in_list-some (some null) e = cc
in_list-some (some (flag b)) e = cc
in_list-some (some (number n)) e = cc
in_list-some (some (text s)) e = cc
in_list-some (some (mapping m)) e = cc

module _ {B : Type 0} (strip : B → B) (byte_count : B → ℕ)
    (urlsafe_b64decode b64decode : B → Option B) (fernet_encrypt : ℕ → B → String → String)
    (key : B) where
  encrypt_path-hidden :
      (path : List String) (cfg : Fields) (n : ℕ)
      → is_plain (safe_get path cfg) ≡ false
      → encrypt_path strip byte_count urlsafe_b64decode b64decode fernet_encrypt key path (cfg, n)
        ≡ some (cfg, n)
  unfolding encrypt_path
  encrypt_path-hidden path cfg n hidden = rw hidden refl

  encrypt_keys-hidden :
      (ks : List String) (m : Fields) (n : ℕ)
      → any_plain_key ks m ≡ false
      → encrypt_keys strip byte_count urlsafe_b64decode b64decode fernet_encrypt key ks (m, n)
        ≡ some (m, n)
  unfolding encrypt_keys any_plain_key safe_get
  encrypt_keys-hidden [] m n hidden = refl
  encrypt_keys-hidden (k ∷ ks) m n hidden =
      let first : is_plain (get k m) ≡ false = ground (arith, hidden) in
      let rest : any_plain_key ks m ≡ false = ground (arith, hidden) in
      ap
        (λ o.
          and_then o
            (encrypt_keys strip byte_count urlsafe_b64decode b64decode fernet_encrypt key ks))
        (encrypt_path-hidden (k ∷ []) m n first)
      ∙ encrypt_keys-hidden ks m n rest

  encrypt_channels-hidden :
      (l : Items) (n : ℕ)
      → any_plain_channel l ≡ false
      → encrypt_channels strip byte_count urlsafe_b64decode b64decode fernet_encrypt key l n
        ≡ some (l, n)
  unfolding encrypt_channels any_plain_channel
  encrypt_channels-hidden nil n hidden = refl
  encrypt_channels-hidden (cons (mapping m) l) n hidden =
      let first : any_plain_key sensitive_channel_keys m ≡ false =
        or-left (any_plain_key sensitive_channel_keys m) (any_plain_channel l) hidden in
      let rest : any_plain_channel l ≡ false =
        or-right (any_plain_key sensitive_channel_keys m) hidden in
      ap
        (λ o. and_then o (λ (m', n').
          and_then
            (encrypt_channels strip byte_count urlsafe_b64decode b64decode fernet_encrypt key l n')
            (λ (l', n''). some (cons (mapping m') l', n''))))
        (encrypt_keys-hidden sensitive_channel_keys m n first)
      ∙ ap (λ o. and_then o (λ (l', n'). some (cons (mapping m) l', n')))
          (encrypt_channels-hidden l n rest)
  encrypt_channels-hidden (cons null l) n hidden = rw (encrypt_channels-hidden l n hidden) refl
  encrypt_channels-hidden (cons (flag b) l) n hidden = rw (encrypt_channels-hidden l n hidden) refl
  encrypt_channels-hidden (cons (number i) l) n hidden =
      rw (encrypt_channels-hidden l n hidden) refl
  encrypt_channels-hidden (cons (text s) l) n hidden = rw (encrypt_channels-hidden l n hidden) refl
  encrypt_channels-hidden (cons (items i) l) n hidden = rw (encrypt_channels-hidden l n hidden) refl

  encrypt_found-hidden :
      (cfg : Fields) (n : ℕ) (o : Option Items)
      → in_list (safe_get channels_path cfg) ≡ o
      → any_plain_in o ≡ false
      → encrypt_found strip byte_count urlsafe_b64decode b64decode fernet_encrypt key cfg n o
        ≡ some (cfg, n)
  unfolding encrypt_found
  encrypt_found-hidden cfg n none found hidden = refl
  encrypt_found-hidden cfg n (some l) found hidden =
      ap
        (λ o. and_then o (λ (l', n').
          and_then (write_path channels_path (λ v. some (items l')) cfg) (λ cfg'. some (cfg', n'))))
        (encrypt_channels-hidden l n hidden)
      ∙ ap (λ o. and_then o (λ cfg'. some (cfg', n)))
          (write_channels-same cfg (items l) (in_list-some (safe_get channels_path cfg) found))

  encrypt_in_place-hidden :
      (cfg : Fields)
      → has_plaintext_secrets cfg ≡ false
      → encrypt_in_place strip byte_count urlsafe_b64decode b64decode fernet_encrypt key cfg
        ≡ some (cfg, 0)
  unfolding encrypt_in_place encrypt_all_channels has_plaintext_secrets
  encrypt_in_place-hidden cfg hidden =
      let api_key = is_plain (safe_get api_key_path cfg) in
      let api_secret = is_plain (safe_get api_secret_path cfg) in
      let later = or-right api_key hidden in
      let found = in_list (safe_get channels_path cfg) in
      ap
        (λ o. and_then o (λ r.
          and_then
            (encrypt_path strip byte_count urlsafe_b64decode b64decode fernet_encrypt key
              api_secret_path r)
            (encrypt_all_channels strip byte_count urlsafe_b64decode b64decode fernet_encrypt key)))
        (encrypt_path-hidden api_key_path cfg 0
          (or-left api_key (api_secret || any_plain_in found) hidden))
      ∙ ap
          (λ o.
            and_then o (
              encrypt_all_channels strip byte_count urlsafe_b64decode b64decode fernet_encrypt key))
          (encrypt_path-hidden api_secret_path cfg 0
            (or-left api_secret (any_plain_in found) later))
      ∙ encrypt_found-hidden cfg 0 found refl (or-right api_secret later)

-- A migration that follows one that returned, whichever key it has, changes nothing, counts no field
-- and does not raise.
pub encrypt_in_place-encrypt_in_place :
    {B : Type 0} (strip : B → B) (byte_count : B → ℕ) (urlsafe_b64decode b64decode : B → Option B)
    (fernet_encrypt : ℕ → B → String → String) (key later_key : B) (cfg : Fields) (r : Fields × ℕ)
    → encrypt_in_place strip byte_count urlsafe_b64decode b64decode fernet_encrypt key cfg ≡ some r
    → encrypt_in_place strip byte_count urlsafe_b64decode b64decode fernet_encrypt later_key r.0
      ≡ some (r.0, 0)
encrypt_in_place-encrypt_in_place strip byte_count urlsafe_b64decode b64decode fernet_encrypt key
      later_key cfg r e =
    encrypt_in_place-hidden strip byte_count urlsafe_b64decode b64decode fernet_encrypt later_key
      r.0
      (encrypt_in_place-hides strip byte_count urlsafe_b64decode b64decode fernet_encrypt key cfg e)
