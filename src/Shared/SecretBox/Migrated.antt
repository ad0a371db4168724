-- ===== src/Shared/SecretBox/Migrated.antt =====
-- The migration of a configuration: every secret is encrypted.
use openring.Prelude.Yaml.{items, Items, Fields}
use openring.Prelude.{
  and_then-some, some-injective, arith, ℕ, String, Bool, true, false, ◌||◌, ◌≡◌, refl, sym, ap,
  subst, ◌∙◌, inl, inr, Option-cases, Option, none, some, List, [], ◌∷◌, is_some,
}
use openring.Shared.SecretBox.Base.{
  api_key_path, api_secret_path, channels_path, is_plain, safe_get, write_path, in_list,
  any_plain_in, has_plaintext_secrets, normalize_key, encrypt_found, encrypt_all_channels,
  encrypt_in_place,
}
use openring.Shared.SecretBox.Places.{write_path-get, write_path-other, diverges}
use openring.Shared.SecretBox.Hidden.{
  at_path, at_channels, encrypt_path-hides, encrypt_path-other, encrypt_channels-hides,
}
use openring.Shared.SecretBox.Defined.{encrypt_in_place-some}

or-false : {a b : Bool} → a ≡ false → b ≡ false → (a || b) ≡ false
or-false {a} {b} h k = ground (arith, h, k)

module _ {B : Type 0} (strip : B → B) (byte_count : B → ℕ)
    (urlsafe_b64decode b64decode : B → Option B) (fernet_encrypt : ℕ → B → String → String)
    (key : B) where
  abbrev path : List String → Fields × ℕ → Option (Fields × ℕ)
  path = at_path strip byte_count urlsafe_b64decode b64decode fernet_encrypt key

  abbrev channels : Items → ℕ → Option (Items × ℕ)
  channels = at_channels strip byte_count urlsafe_b64decode b64decode fernet_encrypt key

  abbrev found_channels : Fields → ℕ → Option Items → Option (Fields × ℕ)
  found_channels = encrypt_found strip byte_count urlsafe_b64decode b64decode fernet_encrypt key

  found_channels-other :
      (q : List String) (cfg : Fields) (n : ℕ) (o : Option Items) {r : Fields × ℕ}
      → diverges channels_path q ≡ true
      → found_channels cfg n o ≡ some r
      → safe_get q r.0 ≡ safe_get q cfg
  unfolding encrypt_found
  found_channels-other q cfg n none {r} differ e =
      subst (λ x. safe_get q x.0 ≡ safe_get q cfg) (some-injective e) refl
  found_channels-other q cfg n (some l) {r} differ e =
      let ((l', n'), made, e') = and_then-some (channels l n) _ e in
      let (cfg', written, e'') =
        and_then-some (write_path channels_path (λ v. some (items l')) cfg) _ e' in
      subst (λ x. safe_get q x.0 ≡ safe_get q cfg) (some-injective e'')
        (write_path-other channels_path q (λ v. some (items l')) cfg differ written)

  found_channels-hides :
      (cfg : Fields) (n : ℕ) (o : Option Items) {r : Fields × ℕ}
      → in_list (safe_get channels_path cfg) ≡ o
      → found_channels cfg n o ≡ some r
      → any_plain_in (in_list (safe_get channels_path r.0)) ≡ false
  unfolding encrypt_found
  found_channels-hides cfg n none {r} absent e =
      subst (λ x. any_plain_in (in_list (safe_get channels_path x.0)) ≡ false) (some-injective e)
        (ap any_plain_in absent)
  found_channels-hides cfg n (some l) {r} found e =
      let ((l', n'), made, e') = and_then-some (channels l n) _ e in
      let (cfg', written, e'') =
        and_then-some (write_path channels_path (λ v. some (items l')) cfg) _ e' in
      elim (Option-cases (safe_get channels_path cfg)) [
        | inl absent ↦ cc (sym (ap in_list absent) ∙ found)
        | inr (v, there) ↦
            let (w, new, after) =
              write_path-get "notifications" ("channels" ∷ []) (λ v. some (items l')) cfg written
                there in
            subst (λ x. any_plain_in (in_list (safe_get channels_path x.0)) ≡ false)
              (some-injective e'')
              (ap (λ x. any_plain_in (in_list x)) (after ∙ sym new)
                ∙ encrypt_channels-hides strip byte_count urlsafe_b64decode b64decode fernet_encrypt
                    key l n made)
      ]

  pub encrypt_in_place-hides :
      (cfg : Fields) {r : Fields × ℕ}
      → encrypt_in_place strip byte_count urlsafe_b64decode b64decode fernet_encrypt key cfg
        ≡ some r
      → has_plaintext_secrets r.0 ≡ false
  unfolding encrypt_in_place encrypt_all_channels has_plaintext_secrets
  encrypt_in_place-hides cfg {r} e =
      let ((cfg1, n1), first, e') = and_then-some (path api_key_path (cfg, 0)) _ e in
      let ((cfg2, n2), second, last) = and_then-some (path api_secret_path (cfg1, n1)) _ e' in
      let found = in_list (safe_get channels_path cfg2) in
      or-false
        (ap is_plain (
            found_channels-other api_key_path cfg2 n2 found refl last
            ∙ encrypt_path-other strip byte_count urlsafe_b64decode b64decode fernet_encrypt key
                api_secret_path api_key_path cfg1 n1 refl second)
          ∙ encrypt_path-hides strip byte_count urlsafe_b64decode b64decode fernet_encrypt key
              "deterrent" ("tuya" ∷ "api_key" ∷ []) cfg 0 first)
        (or-false
          (ap is_plain (found_channels-other api_secret_path cfg2 n2 found refl last)
            ∙ encrypt_path-hides strip byte_count urlsafe_b64decode b64decode fernet_encrypt key
                "deterrent" ("tuya" ∷ "api_secret" ∷ []) cfg1 n1 second)
          (found_channels-hides cfg2 n2 found refl last))

  -- With a key that decodes to 32 bytes, `encrypt_in_place` returns on every configuration, and the
  -- configuration that it leaves has no sensitive field in plain text.
  pub encrypt_in_place-migrates :
      (cfg : Fields)
      → is_some (normalize_key strip byte_count urlsafe_b64decode b64decode fernet_encrypt key)
        ≡ true
      → (r : Fields × ℕ) × (encrypt_in_place strip byte_count urlsafe_b64decode b64decode
            fernet_encrypt key cfg
          ≡ some r)
        × (has_plaintext_secrets r.0 ≡ false)
  encrypt_in_place-migrates cfg good =
      let call =
        encrypt_in_place strip byte_count urlsafe_b64decode b64decode fernet_encrypt key cfg in
      let returns : is_some call ≡ true =
        encrypt_in_place-some strip byte_count urlsafe_b64decode b64decode fernet_encrypt key good
          cfg in
      elim (Option-cases call) [
        | inl raised ↦ cc (rw raised at returns)
        | inr (r, e) ↦ (r, e, encrypt_in_place-hides cfg e)
      ]
