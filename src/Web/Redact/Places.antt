-- ===== src/Web/Redact/Places.antt =====
-- Predicates on the values at a key, in a mapping and in a list, and how updates keep them.
use openring.Prelude.Yaml.{
  Value, null, flag, number, text, items, mapping, Items, nil, cons, Fields, end, field,
}
use openring.Prelude.{String, false, ◌≡◌, inl, inr, Bool-cases, if◌then◌else◌, arith, ◌==◌, eq_iff}
use openring.Web.Redact.Base.{update_at, in_mapping, each_mapping, in_items}

-- The value at the key, where it is present, has the property.
abbrev pub AtKey : String → (Value → Type 0) → Fields → Type 0
AtKey key P end = Unit
AtKey key P (field k v m) = if k == key then P v else AtKey key P m

abbrev pub AtMapping : (Fields → Type 0) → Value → Type 0
AtMapping P (mapping m) = P m
AtMapping P null = Unit
AtMapping P (flag b) = Unit
AtMapping P (number n) = Unit
AtMapping P (text s) = Unit
AtMapping P (items l) = Unit

abbrev pub EachMapping : (Fields → Type 0) → Items → Type 0
EachMapping P nil = Unit
EachMapping P (cons v l) = AtMapping P v × EachMapping P l

abbrev pub AtItems : (Fields → Type 0) → Value → Type 0
AtItems P (items l) = EachMapping P l
AtItems P null = Unit
AtItems P (flag b) = Unit
AtItems P (number n) = Unit
AtItems P (text s) = Unit
AtItems P (mapping m) = Unit

pub AtKey-update_at :
    (key : String) (P : Value → Type 0) (f : Value → Value) (m : Fields)
    → ((v : Value) → P (f v))
    → AtKey key P (update_at key f m)
unfolding update_at
AtKey-update_at key P f end made = tt
AtKey-update_at key P f (field k v m) made = elim (Bool-cases (k == key)) [
  | inl same ↦ rw same (rw same (made v))
  | inr other ↦ rw other (rw other (AtKey-update_at key P f m made))
]

pub AtKey-update_at_kept :
    (key j : String) (P : Value → Type 0) (f : Value → Value) (m : Fields)
    → ((v : Value) → P v → P (f v))
    → AtKey key P m
    → AtKey key P (update_at j f m)
unfolding update_at
AtKey-update_at_kept key j P f end keeps h = tt
AtKey-update_at_kept key j P f (field k v m) keeps h = elim (Bool-cases (k == j)) [
  | inl met ↦ rw met (elim (Bool-cases (k == key)) [
    | inl same ↦ rw same (keeps v (rw same at h))
    | inr other ↦ rw other (rw other at h)
  ])
  | inr passed ↦ rw passed (elim (Bool-cases (k == key)) [
    | inl same ↦ rw same (rw same at h)
    | inr other ↦ rw other (AtKey-update_at_kept key j P f m keeps (rw other at h))
  ])
]

pub AtKey-update_at_other :
    (key j : String) (P : Value → Type 0) (f : Value → Value) (m : Fields)
    → (j == key) ≡ false
    → AtKey key P m
    → AtKey key P (update_at j f m)
unfolding update_at
AtKey-update_at_other key j P f end differ h = tt
AtKey-update_at_other key j P f (field k v m) differ h = elim (Bool-cases (k == key)) [
  | inl same ↦
      let passed : (k == j) ≡ false =
        ground (arith, differ, same, eq_iff k key, eq_iff k j, eq_iff j key) in
      rw passed (rw same (rw same at h))
  | inr other ↦ elim (Bool-cases (k == j)) [
    | inl met ↦ rw met (rw other (rw other at h))
    | inr passed ↦ rw passed (rw other (AtKey-update_at_other key j P f m differ (rw other at h)))
  ]
]

module _ (P : Fields → Type 0) (f : Fields → Fields) where
  pub AtMapping-in_mapping : ((m : Fields) → P (f m)) → (v : Value) → AtMapping P (in_mapping f v)
  unfolding in_mapping
  AtMapping-in_mapping made (mapping m) = made m
  AtMapping-in_mapping made null = tt
  AtMapping-in_mapping made (flag b) = tt
  AtMapping-in_mapping made (number n) = tt
  AtMapping-in_mapping made (text s) = tt
  AtMapping-in_mapping made (items l) = tt

  pub AtMapping-in_mapping_kept :
      ((m : Fields) → P m → P (f m)) → (v : Value) → AtMapping P v → AtMapping P (in_mapping f v)
  unfolding in_mapping
  AtMapping-in_mapping_kept keeps (mapping m) h = keeps m h
  AtMapping-in_mapping_kept keeps null h = tt
  AtMapping-in_mapping_kept keeps (flag b) h = tt
  AtMapping-in_mapping_kept keeps (number n) h = tt
  AtMapping-in_mapping_kept keeps (text s) h = tt
  AtMapping-in_mapping_kept keeps (items l) h = tt

  EachMapping-each_mapping :
      ((m : Fields) → P (f m)) → (l : Items) → EachMapping P (each_mapping f l)
  unfolding each_mapping
  EachMapping-each_mapping made nil = tt
  EachMapping-each_mapping made (cons v l) =
      (AtMapping-in_mapping made v, EachMapping-each_mapping made l)

  pub AtItems-in_items : ((m : Fields) → P (f m)) → (v : Value) → AtItems P (in_items f v)
  unfolding in_items
  AtItems-in_items made (items l) = EachMapping-each_mapping made l
  AtItems-in_items made null = tt
  AtItems-in_items made (flag b) = tt
  AtItems-in_items made (number n) = tt
  AtItems-in_items made (text s) = tt
  AtItems-in_items made (mapping m) = tt
