-- ===== src/Prelude/Maps.antt =====
-- Python's `dict` with text keys, as an association list in insertion order: a write to a key that
-- is present keeps its place, and a new key goes to the end.
use Prim.Native.String.{String}
use mathlib.Core.Path.{◌≡◌, refl, subst}
use mathlib.Core.Logic.{inl, inr}
use mathlib.Core.Bool.{true, false}
use mathlib.Core.List.{List, [], ◌∷◌}
use mathlib.Core.Option.{Option, none, some}
use native.Mathlib.Omega.{arith}
use text.Mathlib.Text.{◌==◌}
use text.Mathlib.TextEquality.{eq_iff}
use openring.Prelude.Tests.{if◌then◌else◌, Bool-cases}

abbrev pub Dict {ℓ} : Type ℓ → Type ℓ
Dict V = List (String × V)

module _ {ℓ} {V : Type ℓ} where
  -- d.get(key)
  unfoldable pub lookup : String → Dict V → Option V
  lookup key [] = none
  lookup key ((k, v) ∷ rest) = if k == key then some v else lookup key rest

  -- d.pop(key, None)
  unfoldable pub erase : String → Dict V → Dict V
  erase key [] = []
  erase key ((k, v) ∷ d) = let rest = erase key d in if k == key then rest else (k, v) ∷ rest

  -- d[key] = v
  unfoldable pub insert : String → V → Dict V → Dict V
  insert key new ((k, v) ∷ d) = if k == key then (k, new) ∷ d else (k, v) ∷ insert key new d
  insert key new [] = (key, new) ∷ []

  -- Every stored value has the property.
  abbrev pub AllValues {κ} : (V → Type κ) → Dict V → Type κ
  AllValues P [] = Unit
  AllValues P ((k, v) ∷ m) = P v × AllValues P m

  pub lookup-erase :
      (key j : String) (d : Dict V)
      → lookup j (erase key d) ≡ (if key == j then none else lookup j d)
  unfolding lookup erase
  lookup-erase key j ((k, v) ∷ d) =
      ground (arith, lookup-erase key j d, eq_iff k key, eq_iff k j, eq_iff key j)
  lookup-erase key j [] = ground arith

  pub lookup-insert :
      (key j : String) (new : V) (d : Dict V)
      → lookup j (insert key new d) ≡ (if key == j then some new else lookup j d)
  unfolding lookup insert
  lookup-insert key j new ((k, v) ∷ d) =
      ground (arith, lookup-insert key j new d, eq_iff k key, eq_iff k j, eq_iff key j)
  lookup-insert key j new [] = refl

module _ {ℓ κ} {V : Type ℓ} (P : V → Type κ) where
  pub AllValues-insert :
      (k : String) (v : V) (m : Dict V) → P v → AllValues P m → AllValues P (insert k v m)
  unfolding insert
  AllValues-insert k v [] p h = (p, tt)
  AllValues-insert k v ((j, w) ∷ m) p h =
      elim (j == k) as (λ b. AllValues P (if b then (j, v) ∷ m else (j, w) ∷ insert k v m)) [
        | true ↦ (p, h.1)
        | false ↦ (h.0, AllValues-insert k v m p h.1)
      ]

  pub AllValues-erase : (k : String) (m : Dict V) → AllValues P m → AllValues P (erase k m)
  unfolding erase
  AllValues-erase k [] h = tt
  AllValues-erase k ((j, w) ∷ m) h =
      elim (j == k) as (λ b. AllValues P (if b then erase k m else (j, w) ∷ erase k m)) [
        | true ↦ AllValues-erase k m h.1
        | false ↦ (h.0, AllValues-erase k m h.1)
      ]

  pub AllValues-lookup :
      (k : String) (m : Dict V) {v : V} → AllValues P m → lookup k m ≡ some v → P v
  unfolding lookup
  AllValues-lookup k [] h e = cc
  AllValues-lookup k ((j, w) ∷ m) {v} h e = elim (Bool-cases (j == k)) [
    | inl same ↦ let found : w ≡ v = ground arith in subst P found h.0
    | inr other ↦ AllValues-lookup k m h.1 (rw other at e)
  ]

pub ruleset dict_laws = (lookup-insert, lookup-erase)
