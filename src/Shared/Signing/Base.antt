-- ===== src/Shared/Signing/Base.antt =====
-- `sign_event` and `verify_event`.
use Prim.Native.Char.{code}
use openring.Prelude.Yaml.{Value, null, flag, number, text, items, mapping}
use openring.Prelude.{
  String, Bool, true, false, not, ◌&&◌, Option, none, some, filter, leb, if◌then◌else◌, Dict,
  lookup, insert, ◌==◌,
}

abbrev pub Event : Type 0
Event = Dict Value

abbrev pub signature_field : String
signature_field = "_sig"

-- Without `_sig`.
unfoldable pub without_sig : Event → Event
without_sig payload = filter (λ field. not (field.0 == signature_field)) payload

abbrev pub is_ascii : String → Bool
is_ascii String.[] = true
is_ascii (String.◌∷◌ c s) = leb (code c) 127 && is_ascii s

-- hmac.compare_digest on texts: it raises TypeError where one is not ASCII.
unfoldable pub compare_digest : String → String → Option Bool
compare_digest a b = if is_ascii a && is_ascii b then some (a == b) else none

-- isinstance(sig, str)
abbrev pub as_text : Option Value → Option String
as_text (some (text s)) = some s
as_text (some null) = none
as_text (some (flag b)) = none
as_text (some (number n)) = none
as_text (some (items l)) = none
as_text (some (mapping m)) = none
as_text none = none

module _ {K B : Type 0} (dumps : Event → Option B) (hexdigest : K → B → String) where
  -- hmac.new(key, _canonical_payload(payload), hashlib.sha256).hexdigest()
  unfoldable pub digest : Event → K → Option String
  digest payload key = elim (dumps (without_sig payload)) [
    | none ↦ none
    | some bytes ↦ some (hexdigest key bytes)
  ]

  unfoldable pub sign_event : Event → K → Option Event
  sign_event payload key = elim (digest payload key) [
    | none ↦ none
    | some sig ↦ some (insert signature_field (text sig) payload)
  ]

  unfoldable pub verify_event : Event → K → Option Bool
  verify_event event key = elim (as_text (lookup signature_field event)) [
    | none ↦ some false
    | some sig ↦ elim (digest event key) [
      | none ↦ some false
      | some expected ↦ compare_digest sig expected
    ]
  ]
