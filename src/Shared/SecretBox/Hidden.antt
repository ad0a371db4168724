-- ===== src/Shared/SecretBox/Hidden.antt =====
-- No secret is left in plain text.
use openring.Prelude.Yaml.{
  Value, null, flag, number, text, items, mapping, Items, nil, cons, Fields, get,
}
use openring.Prelude.Text.{begins_with, join, begins_with-join}
use openring.Prelude.{
  and_then, and_then-some, some-injective, ℕ, ◌+◌, String, true, false, ◌||◌, ◌≡◌, refl, sym, ap,
  subst, ◌∙◌, inl, inr, Bool-cases, Option-cases, Option, some, List, [], ◌∷◌, arith, ◌==◌, eq_iff,
}
use openring.Shared.SecretBox.Base.{
  prefix, sensitive_channel_keys, is_plain, safe_get, write_path, any_plain_key, any_plain_channel,
  normalize_key, encrypt, encrypt_leaf, encrypt_path, encrypt_keys, encrypt_channels,
}
use openring.Shared.SecretBox.Places.{write_path-get, write_path-other, diverges}

is_plain-join : (t : String) → is_plain (some (text (join prefix t))) ≡ false
unfolding is_plain
is_plain-join t = ground (arith, begins_with-join prefix t)

module _ {B : Type 0} (strip : B → B) (byte_count : B → ℕ)
    (urlsafe_b64decode b64decode : B → Option B) (fernet_encrypt : ℕ → B → String → String) where
  abbrev pub at_leaf : B → ℕ → Value → Option Value
  at_leaf = encrypt_leaf strip byte_count urlsafe_b64decode b64decode fernet_encrypt

  abbrev pub at_path : B → List String → Fields × ℕ → Option (Fields × ℕ)
  at_path = encrypt_path strip byte_count urlsafe_b64decode b64decode fernet_encrypt

  encrypt-hides :
      (key : B) (i : ℕ) (s : String) {s' : String}
      → encrypt strip byte_count urlsafe_b64decode b64decode fernet_encrypt key i s ≡ some s'
      → is_plain (some (text s')) ≡ false
  unfolding encrypt is_plain
  encrypt-hides key i s {s'} e = elim (Bool-cases (s == "" || begins_with s prefix)) [
    | inl skipped ↦
        subst (λ x. is_plain (some (text x)) ≡ false) (some-injective (rw skipped at e))
          (ground (arith, skipped))
    | inr plain ↦
        let (raw, key_good, e') =
          and_then-some
            (normalize_key strip byte_count urlsafe_b64decode b64decode fernet_encrypt key)
            (λ raw. some (join prefix (fernet_encrypt i raw s))) (rw plain at e) in
        subst (λ x. is_plain (some (text x)) ≡ false) (some-injective e')
          (is_plain-join (fernet_encrypt i raw s))
  ]

  encrypt_leaf-hides :
      (key : B) (i : ℕ) (v : Value) {w : Value}
      → at_leaf key i v ≡ some w
      → is_plain (some w) ≡ false
  unfolding encrypt_leaf is_plain
  encrypt_leaf-hides key i (text s) {w} e =
      let (s', made, e') = and_then-some _ (λ s'. some (text s')) e in
      subst (λ x. is_plain (some x) ≡ false) (some-injective e') (encrypt-hides key i s made)
  encrypt_leaf-hides key i null {w} e = ap is_plain (sym e)
  encrypt_leaf-hides key i (flag b) {w} e = ap is_plain (sym e)
  encrypt_leaf-hides key i (number n) {w} e = ap is_plain (sym e)
  encrypt_leaf-hides key i (items l) {w} e = ap is_plain (sym e)
  encrypt_leaf-hides key i (mapping m) {w} e = ap is_plain (sym e)

  -- The field at the path is not plain afterwards, and one at a path that parts from it is as before.
  pub encrypt_path-hides :
      (key : B) (seg : String) (path : List String) (cfg : Fields) (n : ℕ) {r : Fields × ℕ}
      → at_path key (seg ∷ path) (cfg, n) ≡ some r
      → is_plain (safe_get (seg ∷ path) r.0) ≡ false
  unfolding encrypt_path is_plain
  encrypt_path-hides key seg path cfg n {r} e =
      elim (Bool-cases (is_plain (safe_get (seg ∷ path) cfg))) [
        | inl plain ↦
            let (cfg', made, e') =
              and_then-some (write_path (seg ∷ path) (at_leaf key n) cfg)
                (λ cfg'. some (cfg', n + 1)) (rw plain at e) in
            elim (Option-cases (safe_get (seg ∷ path) cfg)) [
              | inl absent ↦ cc (rw absent at plain)
              | inr (v, found) ↦
                  let (w, changed, after) =
                    write_path-get seg path (at_leaf key n) cfg made found in
                  subst (λ x. is_plain (safe_get (seg ∷ path) x.0) ≡ false) (some-injective e')
                    (ap is_plain after ∙ encrypt_leaf-hides key n v changed)
            ]
        | inr hidden ↦
            subst (λ x. is_plain (safe_get (seg ∷ path) x.0) ≡ false)
              (some-injective (rw hidden at e)) hidden
      ]

  pub encrypt_path-other :
      (key : B) (p q : List String) (cfg : Fields) (n : ℕ) {r : Fields × ℕ}
      → diverges p q ≡ true
      → at_path key p (cfg, n) ≡ some r
      → safe_get q r.0 ≡ safe_get q cfg
  unfolding encrypt_path
  encrypt_path-other key p q cfg n {r} differ e = elim (Bool-cases (is_plain (safe_get p cfg))) [
    | inl plain ↦
        let (cfg', made, e') =
          and_then-some (write_path p (at_leaf key n) cfg) (λ cfg'. some (cfg', n + 1))
            (rw plain at e) in
        subst (λ x. safe_get q x.0 ≡ safe_get q cfg) (some-injective e')
          (write_path-other p q (at_leaf key n) cfg differ made)
    | inr hidden ↦
        subst (λ x. safe_get q x.0 ≡ safe_get q cfg) (some-injective (rw hidden at e)) refl
  ]

  abbrev pub at_keys : B → List String → Fields × ℕ → Option (Fields × ℕ)
  at_keys = encrypt_keys strip byte_count urlsafe_b64decode b64decode fernet_encrypt

  -- A key that is not plain stays so, whichever key is encrypted.
  encrypt_key-keeps :
      (key : B) (k j : String) (m : Fields) (n : ℕ) {r : Fields × ℕ}
      → is_plain (get k m) ≡ false
      → at_path key (j ∷ []) (m, n) ≡ some r
      → is_plain (get k r.0) ≡ false
  unfolding safe_get
  encrypt_key-keeps key k j m n {r} hidden e = elim (Bool-cases (j == k)) [
    | inl same ↦
        subst (λ x. is_plain (get x r.0) ≡ false) ((eq_iff j k).0 same)
          (encrypt_path-hides key j [] m n e)
    | inr other ↦
        ap is_plain (encrypt_path-other key (j ∷ []) (k ∷ []) m n (rw other refl) e) ∙ hidden
  ]

  encrypt_keys-keeps :
      (key : B) (k : String) (ks : List String) (m : Fields) (n : ℕ) {r : Fields × ℕ}
      → is_plain (get k m) ≡ false
      → at_keys key ks (m, n) ≡ some r
      → is_plain (get k r.0) ≡ false
  unfolding encrypt_keys
  encrypt_keys-keeps key k [] m n {r} hidden e =
      subst (λ x. is_plain (get k x.0) ≡ false) (some-injective e) hidden
  encrypt_keys-keeps key k (j ∷ ks) m n {r} hidden e =
      let ((m', n'), made, e') = and_then-some (at_path key (j ∷ []) (m, n)) (at_keys key ks) e in
      encrypt_keys-keeps key k ks m' n' (encrypt_key-keeps key k j m n hidden made) e'

  encrypt_keys-hides :
      (key : B) (ks : List String) (m : Fields) (n : ℕ) {r : Fields × ℕ}
      → at_keys key ks (m, n) ≡ some r
      → any_plain_key ks r.0 ≡ false
  unfolding encrypt_keys any_plain_key safe_get
  encrypt_keys-hides key [] m n {r} e = refl
  encrypt_keys-hides key (k ∷ ks) m n {r} e =
      let ((m', n'), made, e') = and_then-some (at_path key (k ∷ []) (m, n)) (at_keys key ks) e in
      let first : is_plain (get k m') ≡ false = encrypt_path-hides key k [] m n made in
      rw (encrypt_keys-keeps key k ks m' n' first e', encrypt_keys-hides key ks m' n' e') refl

  abbrev pub at_channels : B → Items → ℕ → Option (Items × ℕ)
  at_channels = encrypt_channels strip byte_count urlsafe_b64decode b64decode fernet_encrypt

  -- An entry that is no dict.
  other-hides :
      (key : B) (l : Items) (n : ℕ) (v : Value) {r : Items × ℕ}
      → ((l' : Items) → any_plain_channel (cons v l') ≡ any_plain_channel l')
      → ((r' : Items × ℕ) → at_channels key l n ≡ some r' → any_plain_channel r'.0 ≡ false)
      → and_then (at_channels key l n) (λ (l', n'). some (cons v l', n')) ≡ some r
      → any_plain_channel r.0 ≡ false
  other-hides key l n v {r} skips rest e =
      let ((l', n'), made, e') =
        and_then-some (at_channels key l n) (λ (l', n'). some (cons v l', n')) e in
      subst (λ x. any_plain_channel x.0 ≡ false) (some-injective e') (skips l' ∙ rest (l', n') made)

  pub encrypt_channels-hides :
      (key : B) (l : Items) (n : ℕ) {r : Items × ℕ}
      → at_channels key l n ≡ some r
      → any_plain_channel r.0 ≡ false
  unfolding encrypt_channels any_plain_channel
  encrypt_channels-hides key nil n {r} e =
      subst (λ x. any_plain_channel x.0 ≡ false) (some-injective e) refl
  encrypt_channels-hides key (cons (mapping m) l) n {r} e =
      let ((m', n'), made, e') = and_then-some (at_keys key sensitive_channel_keys (m, n)) _ e in
      let ((l', n''), later, e'') = and_then-some (at_channels key l n') _ e' in
      subst (λ x. any_plain_channel x.0 ≡ false) (some-injective e'')
        (rw
          (
            encrypt_keys-hides key sensitive_channel_keys m n made,
            encrypt_channels-hides key l n' later,
          )
          refl)
  encrypt_channels-hides key (cons null l) n {r} e =
      other-hides key l n null (λ l'. refl) (λ r' e'. encrypt_channels-hides key l n e') e
  encrypt_channels-hides key (cons (flag b) l) n {r} e =
      other-hides key l n (flag b) (λ l'. refl) (λ r' e'. encrypt_channels-hides key l n e') e
  encrypt_channels-hides key (cons (number i) l) n {r} e =
      other-hides key l n (number i) (λ l'. refl) (λ r' e'. encrypt_channels-hides key l n e') e
  encrypt_channels-hides key (cons (text s) l) n {r} e =
      other-hides key l n (text s) (λ l'. refl) (λ r' e'. encrypt_channels-hides key l n e') e
  encrypt_channels-hides key (cons (items i) l) n {r} e =
      other-hides key l n (items i) (λ l'. refl) (λ r' e'. encrypt_channels-hides key l n e') e
