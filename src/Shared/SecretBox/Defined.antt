-- ===== src/Shared/SecretBox/Defined.antt =====
-- With a key of 32 bytes the encryption returns.
use openring.Prelude.Yaml.{
  Value, null, flag, number, text, items, mapping, Items, nil, cons, Fields, end, field,
}
use openring.Prelude.Text.{begins_with}
use openring.Prelude.{
  and_then, ℕ, String, true, ◌||◌, ◌≡◌, refl, inl, inr, Bool-cases, Option, none, some, List, [],
  ◌∷◌, is_some, ◌==◌,
}
use openring.Shared.SecretBox.Base.{
  prefix, sensitive_channel_keys, api_key_path, api_secret_path, channels_path, is_plain, safe_get,
  write_at, change_dict, write_path, in_list, normalize_key, encrypt, encrypt_leaf, encrypt_path,
  encrypt_keys, encrypt_channels, encrypt_found, encrypt_all_channels, encrypt_in_place,
}

and_then-some :
    {A C : Type 0} (o : Option A) (g : A → Option C)
    → is_some o ≡ true
    → ((a : A) → is_some (g a) ≡ true)
    → is_some (and_then o g) ≡ true
and_then-some none g h k = h
and_then-some (some a) g h k = k a

write_at-some :
    (key : String) (f : Value → Option Value) (m : Fields)
    → ((v : Value) → is_some (f v) ≡ true)
    → is_some (write_at key f m) ≡ true
unfolding write_at
write_at-some key f end total = refl
write_at-some key f (field k v m) total = elim (Bool-cases (k == key)) [
  | inl same ↦ rw same (and_then-some (f v) _ (total v) (λ v'. refl))
  | inr other ↦
      rw other (and_then-some (write_at key f m) _ (write_at-some key f m total) (λ m'. refl))
]

change_dict-some :
    (f : Fields → Option Fields) (v : Value)
    → ((m : Fields) → is_some (f m) ≡ true)
    → is_some (change_dict f v) ≡ true
change_dict-some f (mapping m) total = and_then-some (f m) _ (total m) (λ m'. refl)
change_dict-some f null total = refl
change_dict-some f (flag b) total = refl
change_dict-some f (number n) total = refl
change_dict-some f (text s) total = refl
change_dict-some f (items l) total = refl

write_path-some :
    (path : List String) (f : Value → Option Value) (cfg : Fields)
    → ((v : Value) → is_some (f v) ≡ true)
    → is_some (write_path path f cfg) ≡ true
unfolding write_path
write_path-some [] f cfg total = refl
write_path-some (seg ∷ []) f cfg total = write_at-some seg f cfg total
write_path-some (seg ∷ next ∷ path) f cfg total =
    write_at-some seg _ cfg
      (λ v. change_dict-some _ v (λ m. write_path-some (next ∷ path) f m total))

module _ {B : Type 0} (strip : B → B) (byte_count : B → ℕ)
    (urlsafe_b64decode b64decode : B → Option B) (fernet_encrypt : ℕ → B → String → String)
    (key : B)
    (good : is_some (normalize_key strip byte_count urlsafe_b64decode b64decode fernet_encrypt key)
      ≡ true) where
  encrypt-some :
      (i : ℕ) (s : String)
      → is_some (encrypt strip byte_count urlsafe_b64decode b64decode fernet_encrypt key i s) ≡ true
  unfolding encrypt
  encrypt-some i s = elim (Bool-cases (s == "" || begins_with s prefix)) [
    | inl skipped ↦ rw skipped refl
    | inr plain ↦ rw plain (and_then-some _ _ good (λ raw. refl))
  ]

  encrypt_leaf-some :
      (i : ℕ) (v : Value)
      → is_some (encrypt_leaf strip byte_count urlsafe_b64decode b64decode fernet_encrypt key i v)
        ≡ true
  unfolding encrypt_leaf
  encrypt_leaf-some i (text s) = and_then-some _ _ (encrypt-some i s) (λ s'. refl)
  encrypt_leaf-some i null = refl
  encrypt_leaf-some i (flag b) = refl
  encrypt_leaf-some i (number n) = refl
  encrypt_leaf-some i (items l) = refl
  encrypt_leaf-some i (mapping m) = refl

  encrypt_path-some :
      (path : List String) (r : Fields × ℕ)
      → is_some
          (encrypt_path strip byte_count urlsafe_b64decode b64decode fernet_encrypt key path r)
        ≡ true
  unfolding encrypt_path
  encrypt_path-some path (cfg, n) = elim (Bool-cases (is_plain (safe_get path cfg))) [
    | inl plain ↦
        rw plain
          (and_then-some _ _ (write_path-some path _ cfg (encrypt_leaf-some n)) (λ cfg'. refl))
    | inr hidden ↦ rw hidden refl
  ]

  encrypt_keys-some :
      (ks : List String) (r : Fields × ℕ)
      → is_some (encrypt_keys strip byte_count urlsafe_b64decode b64decode fernet_encrypt key ks r)
        ≡ true
  unfolding encrypt_keys
  encrypt_keys-some [] r = refl
  encrypt_keys-some (k ∷ ks) r =
      and_then-some _ _ (encrypt_path-some (k ∷ []) r) (encrypt_keys-some ks)

  encrypt_channels-some :
      (l : Items) (n : ℕ)
      → is_some
          (encrypt_channels strip byte_count urlsafe_b64decode b64decode fernet_encrypt key l n)
        ≡ true
  unfolding encrypt_channels
  encrypt_channels-some nil n = refl
  encrypt_channels-some (cons (mapping m) l) n =
      and_then-some _ _ (encrypt_keys-some sensitive_channel_keys (m, n))
        (λ r. and_then-some _ _ (encrypt_channels-some l r.1) (λ r'. refl))
  encrypt_channels-some (cons null l) n = and_then-some _ _ (encrypt_channels-some l n) (λ r. refl)
  encrypt_channels-some (cons (flag b) l) n =
      and_then-some _ _ (encrypt_channels-some l n) (λ r. refl)
  encrypt_channels-some (cons (number i) l) n =
      and_then-some _ _ (encrypt_channels-some l n) (λ r. refl)
  encrypt_channels-some (cons (text s) l) n =
      and_then-some _ _ (encrypt_channels-some l n) (λ r. refl)
  encrypt_channels-some (cons (items i) l) n =
      and_then-some _ _ (encrypt_channels-some l n) (λ r. refl)

  encrypt_found-some :
      (cfg : Fields) (n : ℕ) (o : Option Items)
      → is_some
          (encrypt_found strip byte_count urlsafe_b64decode b64decode fernet_encrypt key cfg n o)
        ≡ true
  unfolding encrypt_found
  encrypt_found-some cfg n none = refl
  encrypt_found-some cfg n (some l) = and_then-some _ _ (encrypt_channels-some l n) (λ r.
      and_then-some _ _ (write_path-some channels_path (λ v. some (items r.0)) cfg (λ v. refl))
        (λ cfg'. refl))

  encrypt_all_channels-some :
      (r : Fields × ℕ)
      → is_some
          (encrypt_all_channels strip byte_count urlsafe_b64decode b64decode fernet_encrypt key r)
        ≡ true
  unfolding encrypt_all_channels
  encrypt_all_channels-some (cfg, n) =
      encrypt_found-some cfg n (in_list (safe_get channels_path cfg))

  pub encrypt_in_place-some :
      (cfg : Fields)
      → is_some
          (encrypt_in_place strip byte_count urlsafe_b64decode b64decode fernet_encrypt key cfg)
        ≡ true
  unfolding encrypt_in_place
  encrypt_in_place-some cfg =
      and_then-some _ _ (encrypt_path-some api_key_path (cfg, 0))
        (λ r. and_then-some _ _ (encrypt_path-some api_secret_path r) encrypt_all_channels-some)
