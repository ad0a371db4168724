-- ===== src/Clipper/Settings/Bounds.antt =====
-- Whatever the file holds, settings that are read are within their bounds.
use openring.Prelude.Yaml.{Value, Fields, get, items, cons, nil, null, flag, number, text, mapping}
use openring.Prelude.Int.{ℤ, pos, negsuc}
use openring.Prelude.{
  ℕ, ◌*◌, ◌≤◌, String, false, ◌≡◌, refl, subst, Option, none, some, List, [], ◌∷◌, is_empty,
  and_then-some, some-injective, arith, Option-cases, inl, inr,
}
use openring.Clipper.Settings.Base.{
  ClipperSettings, at_least, section, defaults, number_or, classes_or, texts, read_section,
  from_yaml,
}

-- A segment takes a second or more, the ring has eight or more, some clip can be written, and some
-- class triggers clips.
pub record IsUsable (s : ClipperSettings) : Type 0 where
  pub segment : 1 ≤ s.segment_seconds
  pub ring : 8 ≤ s.segments_per_camera
  pub workers : 1 ≤ s.max_concurrent_clips
  pub triggers : is_empty s.trigger_classes ≡ false

le-at_least : (n : ℕ) (z : ℤ) → n ≤ at_least n z
le-at_least n (pos v) = omega arith
le-at_least n (negsuc v) = omega arith

module _ (repr : Value → String) where
  classes_some :
      (c : String) (cs : List String) (o : Option Value)
      → is_empty (classes_or repr (c ∷ cs) o) ≡ false
  unfolding classes_or texts
  classes_some c cs (some (items (cons v l))) = refl
  classes_some c cs (some (items nil)) = refl
  classes_some c cs none = refl
  classes_some c cs (some null) = refl
  classes_some c cs (some (flag b)) = refl
  classes_some c cs (some (number n)) = refl
  classes_some c cs (some (text s)) = refl
  classes_some c cs (some (mapping m)) = refl

  module _ (float_seconds float_confidence : Value → Option ℕ) (int : Value → Option ℤ)
      (second hundredth : ℕ) where
    defaults-IsUsable : IsUsable (defaults second hundredth)
    defaults-IsUsable = record {
      segment = omega arith;
      ring = omega arith;
      workers = omega arith;
      triggers = refl;
    }

    read_section-IsUsable :
        (sec : Fields) (s : ClipperSettings)
        → read_section repr float_seconds float_confidence int second hundredth sec ≡ some s
        → IsUsable s
    unfolding read_section
    read_section-IsUsable sec s e =
        let (pre, e₀, e₁) =
          and_then-some (number_or float_seconds (5 * second) (get "pre_roll_seconds" sec)) _ e in
        let (post, e₂, e₃) =
          and_then-some (number_or float_seconds (5 * second) (get "post_roll_seconds" sec)) _ e₁ in
        let (segment, e₄, e₅) =
          and_then-some (number_or int (pos 1) (get "segment_seconds" sec)) _ e₃ in
        let (segments, e₆, e₇) =
          and_then-some (number_or int (pos 30) (get "segments_per_camera" sec)) _ e₅ in
        let (least, e₈, e₉) =
          and_then-some (number_or float_confidence (40 * hundredth) (get "min_confidence" sec)) _
            e₇ in
        let (clips, e₁₀, e₁₁) =
          and_then-some (number_or int (pos 4) (get "max_concurrent_clips" sec)) _ e₉ in
        subst IsUsable (some-injective e₁₁) (record {
          segment = le-at_least 1 segment;
          ring = le-at_least 8 segments;
          workers = le-at_least 1 clips;
          triggers = classes_some "person" ("doorbell_press" ∷ []) (get "trigger_classes" sec);
        })

    -- Whatever the file holds, where its settings are read, a segment takes at least a second, the ring
    -- has at least eight, at least one clip can be written at a time, and some class triggers clips.
    pub from_yaml-IsUsable :
        (cfg : Fields) (s : ClipperSettings)
        → from_yaml repr float_seconds float_confidence int second hundredth cfg ≡ some s
        → IsUsable s
    unfolding from_yaml
    from_yaml-IsUsable cfg s e = elim (Option-cases (section (get "clipper" cfg))) [
      | inl none_there ↦
          subst IsUsable (some-injective (rw (none_there, from_yaml) at e)) defaults-IsUsable
      | inr (sec, found) ↦ read_section-IsUsable sec s (rw (found, from_yaml) at e)
    ]
