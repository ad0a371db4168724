-- ===== src/Tests/Bus.antt =====
-- Signing and publishing on concrete inputs.
use mathlib.Core.List.{Sublist}
use openring.Prelude.{
  ℕ, ◌≤◌, ◌≡◌, refl, Bool, true, String, Option, none, some, List, [], ◌∷◌, ◌++◌, length, insert,
  lookup, arith,
}
use openring.Prelude.Yaml.{text}
use openring.Shared.Signing
use openring.Shared.Signing.{Event, is_ascii}
use openring.Shared.Signing.Verified.{verify-sign_event, verify_event-true}
use openring.Detector.Publisher
use openring.Detector.Publisher.Order.{payloads, run_lossless, run_in_order}

-- A dump that shows the class of a detection, and a digest that shows whether it is a person's.
abbrev dumps : Event → Option String
dumps [] = none
dumps ((k, v) ∷ e) = some k

abbrev hexdigest : Bool → String → String
hexdigest key String.[] = "e0"
hexdigest key (String.◌∷◌ c s) = "f1"

hexdigest-ascii : (key : Bool) (bytes : String) → is_ascii (hexdigest key bytes) ≡ true
hexdigest-ascii key String.[] = refl
hexdigest-ascii key (String.◌∷◌ c s) = refl

abbrev person : Event
person = ("class_name", text "person") ∷ ("_sig", text "stale") ∷ []

abbrev signed_person : Event
signed_person = ("class_name", text "person") ∷ ("_sig", text "f1") ∷ []

signed : Signing.sign_event dumps hexdigest person true ≡ some signed_person
unfolding Signing.sign_event Signing.digest Signing.without_sig insert
signed = refl

verify-sign_event_example : Signing.verify_event dumps hexdigest signed_person true ≡ some true
verify-sign_event_example =
    verify-sign_event dumps hexdigest hexdigest-ascii person signed_person true signed

verified : Signing.verify_event dumps hexdigest signed_person true ≡ some true
unfolding Signing.verify_event Signing.digest Signing.without_sig Signing.compare_digest lookup
verified = refl

verify_event-true_example :
    Signing.sign_event dumps hexdigest signed_person true ≡ some signed_person
verify_event-true_example = verify_event-true dumps hexdigest signed_person true verified

-- A text that is not ASCII in place of a signature is not refused: the comparison raises.
not_ascii :
    Signing.verify_event dumps hexdigest (("class_name", text "cat") ∷ ("_sig", text "é") ∷ []) true
    ≡ none
unfolding Signing.verify_event Signing.digest Signing.without_sig Signing.compare_digest lookup
not_ascii = refl

abbrev as_sent : String → String
as_sent event = event

-- The bus fails for the first two events, and comes back while the third is published.
abbrev outage : List (String × ℕ)
outage = ("one", 0) ∷ ("two", 1) ∷ ("three", 1) ∷ ("four", 9) ∷ []

after_outage : Publisher.run as_sent [] outage ≡ ("one" ∷ "two" ∷ "three" ∷ "four" ∷ [], [])
unfolding Publisher.run Publisher.publish
after_outage = refl

run_lossless_example :
    (Publisher.run as_sent ("zero" ∷ []) outage).0 ++ (Publisher.run as_sent ("zero" ∷ []) outage).1
    ≡ ("zero" ∷ []) ++ payloads as_sent outage
run_lossless_example = run_lossless as_sent ("zero" ∷ []) outage (omega arith)

run_in_order_example :
    (length (Publisher.run as_sent ("zero" ∷ []) outage).1 ≤ Publisher.buffer_max)
    × Sublist
        ((Publisher.run as_sent ("zero" ∷ []) outage).0
          ++ (Publisher.run as_sent ("zero" ∷ []) outage).1)
        (("zero" ∷ []) ++ payloads as_sent outage)
run_in_order_example = run_in_order as_sent ("zero" ∷ []) outage (omega arith)
