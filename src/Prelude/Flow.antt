-- ===== src/Prelude/Flow.antt =====
-- What goes into a first-in first-out buffer and what comes out of it, composed over two steps: the
-- buffer goes from `b` to `c` to `d`, `a` and `a'` go in, and `g` and `g'` come out.
use mathlib.Core.Path.{◌≡◌, ap, sym, subst, ◌∙◌}
use mathlib.Core.List.{List, ◌++◌, Sublist, append_assoc}
use mathlib.Core.List.Sublist

module _ {ℓ} {A : Type ℓ} (b c d a a' g g' : List A) where
  outputs : g ++ (g' ++ d) ≡ (g ++ g') ++ d
  outputs = sym (append_assoc g g' d)

  inputs : (b ++ a) ++ a' ≡ b ++ (a ++ a')
  inputs = append_assoc b a a'

  -- Nothing is lost, added or overtaken.
  pub flow-eq : g ++ c ≡ b ++ a → g' ++ d ≡ c ++ a' → (g ++ g') ++ d ≡ b ++ (a ++ a')
  flow-eq first second =
      append_assoc g g' d
      ∙ (ap (λ l. g ++ l) second ∙ (sym (append_assoc g c a') ∙ (ap (λ l. l ++ a') first ∙ inputs)))

  -- Nothing is added or overtaken.
  pub flow-Sublist :
      Sublist (g ++ c) (b ++ a)
      → Sublist (g' ++ d) (c ++ a')
      → Sublist ((g ++ g') ++ d) (b ++ (a ++ a'))
  flow-Sublist first second =
      let later : Sublist (g ++ (g' ++ d)) (g ++ (c ++ a')) =
        Sublist.append (Sublist.refl g) second in
      let earlier : Sublist ((g ++ c) ++ a') ((b ++ a) ++ a') =
        Sublist.append first (Sublist.refl a') in
      let through : Sublist (g ++ (g' ++ d)) ((b ++ a) ++ a') =
        Sublist.trans later
          (subst (λ l. Sublist l ((b ++ a) ++ a')) (append_assoc g c a') earlier) in
      subst (λ l. Sublist l (b ++ (a ++ a'))) outputs
        (subst (Sublist (g ++ (g' ++ d))) inputs through)
