-- ===== src/Web/Redact/Laws.antt =====
-- Functions that may be applied again, and functions whose order does not matter.
use openring.Prelude.Yaml.{
  Value, null, flag, number, text, items, mapping, nil, cons, Fields, end, field,
}
use openring.Prelude.{
  All, String, false, ◌≡◌, refl, ap, sym, ◌∙◌, List, [], ◌∷◌, arith, ◌==◌, eq_iff,
}
use openring.Web.Redact.Base.{update_at, in_mapping, each_mapping, in_items, mask, mask_keys}

abbrev pub Idempotent : {A : Type 0} → (A → A) → Type 0
Idempotent {A} f = (x : A) → f (f x) ≡ f x

abbrev pub Commute : {A : Type 0} → (f g : A → A) → Type 0
Commute {A} f g = (x : A) → f (g x) ≡ g (f x)

pub compose-Idempotent :
    {A : Type 0} (f g : A → A)
    → Idempotent f
    → Idempotent g
    → Commute f g
    → Idempotent (λ x. f (g x))
compose-Idempotent f g idem_f idem_g commute x =
    ap f (sym (commute (g x))) ∙ (idem_f (g (g x)) ∙ ap f (idem_g x))

pub compose-Commute :
    {A : Type 0} (f g h : A → A) → Commute f g → Commute f h → Commute f (λ x. g (h x))
compose-Commute f g h fg fh x = fg (h x) ∙ ap g (fh x)

pub update_at-Idempotent :
    (k : String) (f : Value → Value) → Idempotent f → Idempotent (update_at k f)
unfolding update_at
update_at-Idempotent k f idem end = refl
update_at-Idempotent k f idem (field j v m) =
    ground (arith, idem v, update_at-Idempotent k f idem m)

pub update_at-Commute_other :
    (j k : String) (f g : Value → Value)
    → (j == k) ≡ false
    → Commute (update_at j f) (update_at k g)
unfolding update_at
update_at-Commute_other j k f g other end = refl
update_at-Commute_other j k f g other (field i v m) =
    ground
      (arith, other, eq_iff i j, eq_iff i k, eq_iff j k, update_at-Commute_other j k f g other m)

pub update_at-Commute :
    (j k : String) (f g : Value → Value) → Commute f g → Commute (update_at j f) (update_at k g)
unfolding update_at
update_at-Commute j k f g commute end = refl
update_at-Commute j k f g commute (field i v m) =
    ground (arith, commute v, eq_iff i j, eq_iff i k, update_at-Commute j k f g commute m)

pub in_mapping-Idempotent : (f : Fields → Fields) → Idempotent f → Idempotent (in_mapping f)
unfolding in_mapping
in_mapping-Idempotent f idem (mapping m) = ap mapping (idem m)
in_mapping-Idempotent f idem null = refl
in_mapping-Idempotent f idem (flag b) = refl
in_mapping-Idempotent f idem (number n) = refl
in_mapping-Idempotent f idem (text s) = refl
in_mapping-Idempotent f idem (items l) = refl

pub in_mapping-Commute :
    (f g : Fields → Fields) → Commute f g → Commute (in_mapping f) (in_mapping g)
unfolding in_mapping
in_mapping-Commute f g commute (mapping m) = ap mapping (commute m)
in_mapping-Commute f g commute null = refl
in_mapping-Commute f g commute (flag b) = refl
in_mapping-Commute f g commute (number n) = refl
in_mapping-Commute f g commute (text s) = refl
in_mapping-Commute f g commute (items l) = refl

each_mapping-Idempotent : (f : Fields → Fields) → Idempotent f → Idempotent (each_mapping f)
unfolding each_mapping
each_mapping-Idempotent f idem nil = refl
each_mapping-Idempotent f idem (cons v l) =
    cc (in_mapping-Idempotent f idem v, each_mapping-Idempotent f idem l)

pub in_items-Idempotent : (f : Fields → Fields) → Idempotent f → Idempotent (in_items f)
unfolding in_items
in_items-Idempotent f idem (items l) = ap items (each_mapping-Idempotent f idem l)
in_items-Idempotent f idem null = refl
in_items-Idempotent f idem (flag b) = refl
in_items-Idempotent f idem (number n) = refl
in_items-Idempotent f idem (text s) = refl
in_items-Idempotent f idem (mapping m) = refl

module _ (placeholder : String) where
  pub mask-Idempotent : Idempotent (mask placeholder)
  unfolding mask
  mask-Idempotent v = ground arith

  update_at-Commute-mask_keys :
      (k : String) (ks : List String)
      → Commute (mask_keys placeholder ks) (update_at k (mask placeholder))
  unfolding mask_keys
  update_at-Commute-mask_keys k [] channel = refl
  update_at-Commute-mask_keys k (j ∷ ks) channel =
      ap (mask_keys placeholder ks)
        (update_at-Commute j k (mask placeholder) (mask placeholder) (λ v. refl) channel)
      ∙ update_at-Commute-mask_keys k ks (update_at j (mask placeholder) channel)

  pub mask_keys-Idempotent : (ks : List String) → Idempotent (mask_keys placeholder ks)
  unfolding mask_keys
  mask_keys-Idempotent [] channel = refl
  mask_keys-Idempotent (k ∷ ks) channel =
      compose-Idempotent (mask_keys placeholder ks) (update_at k (mask placeholder))
        (mask_keys-Idempotent ks) (update_at-Idempotent k (mask placeholder) mask-Idempotent)
        (update_at-Commute-mask_keys k ks) channel

  pub mask_keys-Commute :
      (f : Fields → Fields) (ks : List String)
      → All (λ k. Commute f (update_at k (mask placeholder))) ks
      → Commute f (mask_keys placeholder ks)
  unfolding mask_keys
  mask_keys-Commute f [] commute channel = refl
  mask_keys-Commute f (k ∷ ks) commute channel =
      mask_keys-Commute f ks commute.1 (update_at k (mask placeholder) channel)
      ∙ ap (mask_keys placeholder ks) (commute.0 channel)
