-- ===== src/Shared/Signing/Verified.antt =====
-- What a verified event is.
use openring.Prelude.Yaml.{Value, null, flag, number, text, items, mapping}
use openring.Prelude.{
  String, ◌≡◌, refl, ap, ◌∙◌, inl, inr, Option-cases, true, Option, none, some, [], ◌∷◌, arith,
  lookup, insert, eq_iff, eq_refl, lookup-insert,
}
use openring.Shared.Signing.Base.{
  Event, signature_field, without_sig, is_ascii, compare_digest, as_text, digest, sign_event,
  verify_event,
}

without_sig-insert :
    (v : Value) (e : Event) → without_sig (insert signature_field v e) ≡ without_sig e
unfolding without_sig insert
without_sig-insert v [] = refl
without_sig-insert v ((k, w) ∷ e) = ground (arith, without_sig-insert v e)

insert_present : (k : String) (v : Value) (e : Event) → lookup k e ≡ some v → insert k v e ≡ e
unfolding insert lookup
insert_present k v ((j, w) ∷ e) h = ground (arith, insert_present k v e)
insert_present k v [] h = cc

as_text-some : (o : Option Value) (s : String) → as_text o ≡ some s → o ≡ some (text s)
as_text-some (some (text t)) s h = ground arith
as_text-some (some null) s h = cc
as_text-some (some (flag b)) s h = cc
as_text-some (some (number n)) s h = cc
as_text-some (some (items l)) s h = cc
as_text-some (some (mapping m)) s h = cc
as_text-some none s h = cc

compare_digest-true : (a b : String) → compare_digest a b ≡ some true → a ≡ b
unfolding compare_digest
compare_digest-true a b h = ground (arith, eq_iff a b)

compare_digest_self : (a : String) → is_ascii a ≡ true → compare_digest a a ≡ some true
unfolding compare_digest
compare_digest_self a h = rw h (rw (eq_refl a))

module _ {K B : Type 0} (dumps : Event → Option B) (hexdigest : K → B → String) where
  digest-insert :
      (v : Value) (e : Event) (key : K)
      → digest dumps hexdigest (insert signature_field v e) key ≡ digest dumps hexdigest e key
  unfolding digest
  digest-insert v e key = rw (without_sig-insert v e, digest)

  -- An event verifies only if signing it, with the same key, gives the same event: its `_sig` is the
  -- digest of all its other fields.
  pub verify_event-true :
      (event : Event) (key : K)
      → verify_event dumps hexdigest event key ≡ some true
      → sign_event dumps hexdigest event key ≡ some event
  unfolding sign_event verify_event
  verify_event-true event key h = elim (Option-cases (as_text (lookup signature_field event))) [
    | inl absent ↦ cc (rw (absent, verify_event) at h)
    | inr (sig, present) ↦ elim (Option-cases (digest dumps hexdigest event key)) [
      | inl fails ↦ ground arith
      | inr (expected, made) ↦
          let same : sig ≡ expected = compare_digest-true sig expected (ground arith) in
          let stored : lookup signature_field event ≡ some (text expected) =
            as_text-some (lookup signature_field event) sig present
            ∙ ap (λ s. some (text s)) same in
          rw (made, sign_event)
            (ap some (insert_present signature_field (text expected) event stored))
    ]
  ]

  module _ (ascii : (key : K) (bytes : B) → is_ascii (hexdigest key bytes) ≡ true) where
    digest-ascii :
        (e : Event) (key : K) (sig : String)
        → digest dumps hexdigest e key ≡ some sig
        → is_ascii sig ≡ true
    unfolding digest
    digest-ascii e key sig h = elim (Option-cases (dumps (without_sig e))) [
      | inl fails ↦ cc (rw (fails, digest) at h)
      | inr (bytes, dumped) ↦ ground (arith, ascii key bytes)
    ]

    -- Where digests are ASCII, what `sign_event` returns verifies under the same key, whatever
    -- `_sig` the payload had before.
    pub verify-sign_event :
        (payload signed : Event) (key : K)
        → sign_event dumps hexdigest payload key ≡ some signed
        → verify_event dumps hexdigest signed key ≡ some true
    unfolding sign_event verify_event
    verify-sign_event payload signed key h =
        elim (Option-cases (digest dumps hexdigest payload key)) [
          | inl fails ↦ cc (rw (fails, sign_event) at h)
          | inr (sig, made) ↦
              let result : signed ≡ insert signature_field (text sig) payload = ground arith in
              let again : digest dumps hexdigest signed key ≡ some sig =
                ap (λ e. digest dumps hexdigest e key) result
                ∙ (digest-insert (text sig) payload key ∙ made) in
              let stored : lookup signature_field signed ≡ some (text sig) =
                ground (arith, lookup-insert signature_field signature_field (text sig) payload) in
              ground (arith, compare_digest_self sig (digest-ascii payload key sig made))
        ]
