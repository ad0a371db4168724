-- ===== src/Shared/SecretBox/Places.antt =====
-- What a write to a path does to the values at that path and at others.
use openring.Prelude.Yaml.{Value, null, flag, number, text, items, mapping, Fields, end, field, get}
use openring.Prelude.{
  and_then-some, some-injective, String, Bool, true, false, ◌≡◌, ◌⊎◌, refl, sym, ap, subst, ◌∙◌,
  inl, inr, Bool-cases, Option, none, some, List, [], ◌∷◌, arith, if◌then◌else◌, ◌==◌, eq_iff,
}
use openring.Shared.SecretBox.Base.{in_dict, safe_get, write_at, change_dict, write_path}

-- A write at an absent key changes nothing there, and at a key that is present it changes its value.
write_at-cases :
    (key : String) (f : Value → Option Value) (m : Fields) {m' : Fields}
    → write_at key f m ≡ some m'
    → ((get key m ≡ none) × (get key m' ≡ none))
      ⊎ ((v : Value) × (w : Value) × (get key m ≡ some v) × (f v ≡ some w) × (get key m' ≡ some w))
unfolding write_at get
write_at-cases key f end {m'} e = inl (refl, ap (get key) (sym (some-injective e)) ∙ refl)
write_at-cases key f (field k v m) {m'} e = elim (Bool-cases (k == key)) [
  | inl same ↦
      let (w, made, e') = and_then-some (f v) (λ v'. some (field k v' m)) (rw same at e) in
      inr (v, w, rw same refl, made, ap (get key) (sym (some-injective e')) ∙ rw same refl)
  | inr other ↦
      let (m'', made, e') =
        and_then-some (write_at key f m) (λ m'. some (field k v m')) (rw other at e) in
      let at_key : get key m' ≡ get key m'' =
        ap (get key) (sym (some-injective e')) ∙ rw other refl in
      elim (write_at-cases key f m made) [
        | inl (absent, still) ↦ inl (rw other absent, at_key ∙ still)
        | inr (u, w, found, changed, after) ↦ inr (u, w, rw other found, changed, at_key ∙ after)
      ]
]

write_at-other :
    (key j : String) (f : Value → Option Value) (m : Fields) {m' : Fields}
    → (key == j) ≡ false
    → write_at key f m ≡ some m'
    → get j m' ≡ get j m
unfolding write_at get
write_at-other key j f end differ e = ap (get j) (sym (some-injective e))
write_at-other key j f (field k v m) {m'} differ e = elim (Bool-cases (k == key)) [
  | inl same ↦
      let (w, made, e') = and_then-some (f v) (λ v'. some (field k v' m)) (rw same at e) in
      let passed : (k == j) ≡ false = ground (arith, differ, same, eq_iff k key) in
      ap (get j) (sym (some-injective e')) ∙ rw passed refl
  | inr other ↦
      let (m'', made, e') =
        and_then-some (write_at key f m) (λ m'. some (field k v m')) (rw other at e) in
      let rest = write_at-other key j f m differ made in
      ap (get j) (sym (some-injective e')) ∙ ap (λ x. if k == j then some v else x) rest
]

change_dict-get :
    (f : Fields → Option Fields) (g : Fields → Option Value) (u : Value) {w v : Value}
    → change_dict f u ≡ some w
    → in_dict g (some u) ≡ some v
    → (m : Fields) × (m' : Fields) × (f m ≡ some m') × (g m ≡ some v) × (w ≡ mapping m')
change_dict-get f g (mapping m) e found =
    let (m', made, e') = and_then-some (f m) (λ m'. some (mapping m')) e in
    (m, m', made, found, sym (some-injective e'))
change_dict-get f g null e found = cc
change_dict-get f g (flag b) e found = cc
change_dict-get f g (number n) e found = cc
change_dict-get f g (text s) e found = cc
change_dict-get f g (items l) e found = cc

change_dict-other :
    (f : Fields → Option Fields) (g : Fields → Option Value) (u : Value) {w : Value}
    → ((m m' : Fields) → f m ≡ some m' → g m' ≡ g m)
    → change_dict f u ≡ some w
    → in_dict g (some w) ≡ in_dict g (some u)
change_dict-other f g (mapping m) keeps e =
    let (m', made, e') = and_then-some (f m) (λ m'. some (mapping m')) e in
    ap (λ x. in_dict g (some x)) (sym (some-injective e')) ∙ keeps m m' made
change_dict-other f g null keeps e = ap (in_dict g) (sym e)
change_dict-other f g (flag b) keeps e = ap (in_dict g) (sym e)
change_dict-other f g (number n) keeps e = ap (in_dict g) (sym e)
change_dict-other f g (text s) keeps e = ap (in_dict g) (sym e)
change_dict-other f g (items l) keeps e = ap (in_dict g) (sym e)

-- A value at the path is written anew.
pub write_path-get :
    (seg : String) (path : List String) (f : Value → Option Value) (cfg : Fields) {cfg' : Fields}
    {v : Value}
    → write_path (seg ∷ path) f cfg ≡ some cfg'
    → safe_get (seg ∷ path) cfg ≡ some v
    → (w : Value) × (f v ≡ some w) × (safe_get (seg ∷ path) cfg' ≡ some w)
unfolding write_path safe_get
write_path-get seg [] f cfg {cfg'} {v} e found = elim (write_at-cases seg f cfg e) [
  | inl (absent, still) ↦ cc (rw absent at found)
  | inr (u, w, found', made, after) ↦ (w, ap f (some-injective (sym found ∙ found')) ∙ made, after)
]
write_path-get seg (next ∷ path) f cfg {cfg'} {v} e found =
    elim (write_at-cases seg (change_dict (write_path (next ∷ path) f)) cfg e) [
      | inl (absent, still) ↦ cc (rw absent at found)
      | inr (u, w, found', made, after) ↦
          let (m, m', inner, found_in, as_dict) =
            change_dict-get _ (safe_get (next ∷ path)) u made (rw found' at found) in
          let (x, changed, after_in) = write_path-get next path f m inner found_in in
          (x, changed, ap (in_dict (safe_get (next ∷ path))) (after ∙ ap some as_dict) ∙ after_in)
    ]

-- The paths part at some key.
abbrev pub diverges : List String → List String → Bool
diverges [] q = false
diverges (a ∷ p) [] = false
diverges (a ∷ p) (b ∷ q) = let rest = diverges p q in if a == b then rest else true

diverges-heads :
    (a b : String) (p q : List String)
    → diverges (a ∷ p) (b ∷ q) ≡ true
    → ((a == b) ≡ false) ⊎ ((a ≡ b) × (diverges p q ≡ true))
diverges-heads a b p q h = elim (Bool-cases (a == b)) [
  | inl same ↦ inr ((eq_iff a b).0 same, rw same at h)
  | inr other ↦ inl other
]

-- A value at a path that parts from the written one stays.
pub write_path-other :
    (p q : List String) (f : Value → Option Value) (cfg : Fields) {cfg' : Fields}
    → diverges p q ≡ true
    → write_path p f cfg ≡ some cfg'
    → safe_get q cfg' ≡ safe_get q cfg
unfolding write_path safe_get
write_path-other [] q f cfg differ e = cc
write_path-other (a ∷ p) [] f cfg differ e = cc
write_path-other (a ∷ []) (b ∷ []) f cfg differ e = elim (diverges-heads a b [] [] differ) [
  | inl other ↦ write_at-other a b _ cfg other e
  | inr (same, none_left) ↦ cc
]
write_path-other (a ∷ []) (b ∷ d ∷ q) f cfg differ e = elim (diverges-heads a b [] (d ∷ q) differ) [
  | inl other ↦ ap (in_dict (safe_get (d ∷ q))) (write_at-other a b _ cfg other e)
  | inr (same, none_left) ↦ cc
]
write_path-other (a ∷ c ∷ p) (b ∷ []) f cfg differ e = elim (diverges-heads a b (c ∷ p) [] differ) [
  | inl other ↦ write_at-other a b _ cfg other e
  | inr (same, none_left) ↦ cc
]
write_path-other (a ∷ c ∷ p) (b ∷ d ∷ q) f cfg {cfg'} differ e =
    let deep = safe_get (d ∷ q) in
    elim (diverges-heads a b (c ∷ p) (d ∷ q) differ) [
      | inl other ↦ ap (in_dict deep) (write_at-other a b _ cfg other e)
      | inr (same, later) ↦
          subst (λ k. in_dict deep (get k cfg') ≡ in_dict deep (get k cfg)) same
            (elim (write_at-cases a (change_dict (write_path (c ∷ p) f)) cfg e) [
              | inl (absent, still) ↦ ap (in_dict deep) (still ∙ sym absent)
              | inr (u, w, found, made, after) ↦
                  ap (in_dict deep) after
                  ∙ change_dict-other (write_path (c ∷ p) f) deep u
                      (λ m m' inner. write_path-other (c ∷ p) (d ∷ q) f m later inner) made
                  ∙ ap (in_dict deep) (sym found)
            ])
    ]
