-- ===== src/Clipper/Clips/Names.antt =====
-- Where `_make_clip` writes.
use Prim.Native.Char.{code}
use openring.Prelude.Yaml.{Value}
use openring.Prelude.Text.{join, contains, begins_with}
use openring.Prelude.{
  ℕ, some-injective, String, true, false, not, ◌&&◌, ◌||◌, ◌≡◌, refl, sym, subst, inl, inr, Option,
  some, List, is_empty, Bool-cases, arith, ◌==◌, eq_iff, beq,
}
use openring.Shared.Signing.{Event}
use openring.Clipper.Settings.{ClipperSettings}
use openring.Clipper.Clips.Table.{Row}
use openring.Clipper.Clips.Base.{all_token_chars, is_token, World, token_of, segments_of, make_clip}

-- A name of token characters has no separator.
token_has_no_slash : (s : String) → all_token_chars s ≡ true → contains (join s ".mp4") "/" ≡ false
unfolding all_token_chars contains join begins_with
token_has_no_slash String.[] h = refl
token_has_no_slash (String.◌∷◌ c s) h = elim (Bool-cases (beq (code c) 10 && s == "")) [
  | inl last ↦
      let over : (s == "") ≡ true = ground (arith, last) in
      let rest : contains (join s ".mp4") "/" ≡ false =
        subst (λ t. contains (join t ".mp4") "/" ≡ false) (sym ((eq_iff s "").0 over)) refl in
      ground (arith, last, rest)
  | inr more ↦ ground (arith, h, more, token_has_no_slash s)
]

is_token-chars : (s : String) → is_token s ≡ true → all_token_chars s ≡ true
unfolding is_token
is_token-chars s h = ground (arith, h)

module _ (repr : Value → String) (fromisoformat : String → Option ℕ)
    (in_dir : String → String → String) (message : ℕ → ℕ → String) (head_500 : String → String)
    (second : ℕ) where
  -- The file that ffmpeg is to write has a name without a separator, whatever the event holds: with the
  -- directory of the clips before it, it stays in that directory.
  pub make_clip_stays :
      (s : ClipperSettings) (camera : String) (w : World) (event : Event) (rows : List Row)
      (name : String)
      → (make_clip repr fromisoformat in_dir message head_500 second s camera w event rows).output
        ≡ some name
      → contains name "/" ≡ false
  unfolding make_clip is_token
  make_clip_stays s camera w event rows name e =
      let token = token_of repr event in
      let segments = segments_of repr fromisoformat in_dir message head_500 second s w event in
      elim (Bool-cases (token == "" || not (is_token token))) [
        | inl refused ↦ cc (rw (refused, make_clip) at e)
        | inr fine ↦ elim (Bool-cases (is_empty segments)) [
          | inl empty ↦ cc (rw (fine, empty, make_clip) at e)
          | inr found ↦ elim (Bool-cases (w.ffmpeg.present && w.ffmpeg.listing_written)) [
            | inr unwritten ↦ cc (rw (fine, found, unwritten, make_clip) at e)
            | inl asked ↦
                let same = some-injective (rw (fine, found, asked, make_clip) at e) in
                subst (λ n. contains n "/" ≡ false) same
                  (token_has_no_slash token (is_token-chars token (ground (arith, fine))))
          ]
        ]
      ]
