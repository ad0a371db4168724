-- ===== src/Notifier/FaceRules/Precedence.antt =====
-- Which rule decides: the first that applies, in the order of the file.
use openring.Prelude.Text.{lower}
use openring.Prelude.Yaml.{Value, Fields}
use openring.Prelude.{
  String, Bool, true, false, ◌≡◌, ◌≢◌, ◌⊎◌, inl, inr, refl, ap, ◌∙◌, ◌&&◌, Bool-cases, none, some,
  List, [], ◌∷◌, ◌++◌, All, arith, is_empty, ◌==◌, eq_iff, if◌then◌else◌,
}
use openring.Notifier.FaceRules.Base.{
  RuleOutcome, rule_label, rule_outcome, first_match, status_of, label_of, evaluate,
  normalise_rules,
}

-- What a rule's label asks of a recognition: `unknown` means that no enrolled face matched, `*` that
-- some face did, and any other label that this face did.
abbrev pub LabelApplies : String → String → String → Type 0
LabelApplies status label l =
    ((lower l ≡ "unknown") × (status ≡ "unknown"))
    ⊎ ((l ≡ "*") × (status ≡ "matched"))
    ⊎ ((lower l ≢ "unknown") × (l ≢ "") × (lower l ≡ label) × (status ≡ "matched"))

abbrev pub Applies : (Value → String) → String → String → Fields → Type 0
Applies repr status label rule = LabelApplies status label (rule_label repr rule)

-- The tests of the loop, without what they lead to.
abbrev label_test : String → String → String → Bool
label_test status label l =
    if l == ""
    then false
    else if lower l == "unknown"
    then status == "unknown"
    else if l == "*"
    then status == "matched"
    else status == "matched" && lower l == label

lower_star : (l : String) → l ≡ "*" → lower l ≢ "unknown"
unfolding lower
lower_star l e k = absurd (go (e_lower ∙ k))
  where
    e_lower : "*" ≡ lower l
    e_lower = rw e

    go : ◌≡◌ {A = String} "*" "unknown" → ⊥
    go q = ground (arith, eq_iff "*" "unknown")

lower_empty : (l : String) → l ≡ "" → lower l ≢ "unknown"
unfolding lower
lower_empty l e k = absurd (go (e_lower ∙ k))
  where
    e_lower : "" ≡ lower l
    e_lower = rw e

    go : ◌≡◌ {A = String} "" "unknown" → ⊥
    go q = ground (arith, eq_iff "" "unknown")

module _ (status label l : String) where
  label_test_sound : label_test status label l ≡ true → LabelApplies status label l
  label_test_sound h = ground (
    arith,
    eq_iff l "",
    eq_iff l "*",
    eq_iff (lower l) "unknown",
    eq_iff (lower l) label,
    eq_iff status "unknown",
    eq_iff status "matched",
  )

  label_test_complete : LabelApplies status label l → label_test status label l ≡ true
  label_test_complete h = ground (
    arith,
    eq_iff l "",
    eq_iff l "*",
    eq_iff (lower l) "unknown",
    eq_iff (lower l) label,
    eq_iff status "unknown",
    eq_iff status "matched",
    eq_iff "*" "",
    lower_star l,
    lower_empty l,
  )

-- A split of the rules at the one that decides.
abbrev pub DecidedBy : (Value → String) → String → String → List Fields → RuleOutcome → Type 0
DecidedBy repr status label rules o =
    (before : List Fields) × (rule : Fields) × (after : List Fields) × (rules
      ≡ before ++ rule ∷ after)
    × All (λ r. ¬ Applies repr status label r) before
    × Applies repr status label rule
    × (o ≡ rule_outcome repr rule)

module _ (repr : Value → String) (status label : String) where
  pass_over :
      {o : RuleOutcome} (rule : Fields) (rules : List Fields)
      → ¬ Applies repr status label rule
      → DecidedBy repr status label rules o
      → DecidedBy repr status label (rule ∷ rules) o
  pass_over rule rules no_match (before, r, after, split, earlier, here, out) =
      (rule ∷ before, r, after, ap (◌∷◌ rule) split, (no_match, earlier), here, out)

  -- One step of the loop: the rule decides, or it is passed over.
  first_match-cons :
      (rule : Fields) (rules : List Fields)
      → first_match repr status label (rule ∷ rules) ≡ (
          if label_test status label (rule_label repr rule)
          then some (rule_outcome repr rule)
          else first_match repr status label rules)
  unfolding first_match
  first_match-cons rule rules = ground arith

  first_match-DecidedBy :
      (rules : List Fields) {o : RuleOutcome}
      → first_match repr status label rules ≡ some o
      → DecidedBy repr status label rules o
  unfolding first_match
  first_match-DecidedBy [] h = cc
  first_match-DecidedBy (rule ∷ rules) {o} h =
      elim (Bool-cases (label_test status label (rule_label repr rule))) [
        | inl applies ↦ (
          [],
          rule,
          rules,
          refl,
          tt,
          label_test_sound status label (rule_label repr rule) applies,
          ground (arith, first_match-cons rule rules),
        )
        | inr passes ↦
            pass_over rule rules
              (λ a. true≢false (label_test_complete status label (rule_label repr rule) a) passes)
              (first_match-DecidedBy rules (ground (arith, first_match-cons rule rules)))
      ]
    where
      true≢false : {b : Bool} → b ≡ true → b ≡ false → ⊥
      true≢false p q = cc

  first_match-none :
      (rules : List Fields)
      → first_match repr status label rules ≡ none
      → All (λ r. ¬ Applies repr status label r) rules
  unfolding first_match
  first_match-none [] h = tt
  first_match-none (rule ∷ rules) h = (
    λ a. ground (
      arith,
      first_match-cons rule rules,
      label_test_complete status label (rule_label repr rule) a,
    ),
    first_match-none rules (ground (arith, first_match-cons rule rules)),
  )

first_match_no_rules :
    (repr : Value → String) (status label : String) (l : List Fields)
    → is_empty l ≡ true
    → first_match repr status label l ≡ none
unfolding first_match
first_match_no_rules repr status label [] e = refl
first_match_no_rules repr status label (r ∷ l) e = cc

-- A result of `evaluate` comes from the first rule of the block that applies to the recognition,
-- the rules before it not applying, and the recognition's status is `matched` or `unknown`.
pub evaluate-DecidedBy :
    (repr : Value → String) (recognition : Fields) (rules : Value) {o : RuleOutcome}
    → evaluate repr (some recognition) rules ≡ some o
    → ((status_of repr recognition ≡ "matched") ⊎ (status_of repr recognition ≡ "unknown"))
      × DecidedBy repr
          (status_of repr recognition)
          (label_of repr recognition)
          (normalise_rules rules)
          o
unfolding evaluate
evaluate-DecidedBy repr recognition rules h =
    let status = status_of repr recognition in
    let label = label_of repr recognition in
    (
      ground (arith, eq_iff status "matched", eq_iff status "unknown"),
      first_match-DecidedBy repr status label (normalise_rules rules) (ground arith),
    )

-- Where the status is `matched` or `unknown` and no rule decides, no rule of the block applies.
pub evaluate_falls_through :
    (repr : Value → String) (recognition : Fields) (rules : Value)
    → ((status_of repr recognition ≡ "matched") ⊎ (status_of repr recognition ≡ "unknown"))
    → evaluate repr (some recognition) rules ≡ none
    → All
        (λ r. ¬ Applies repr (status_of repr recognition) (label_of repr recognition) r)
        (normalise_rules rules)
unfolding evaluate
evaluate_falls_through repr recognition rules known h =
    let status = status_of repr recognition in
    first_match-none repr status (label_of repr recognition) (normalise_rules rules) (
      ground (
        arith,
        eq_iff status "matched",
        eq_iff status "unknown",
        first_match_no_rules repr status (label_of repr recognition) (normalise_rules rules),
      ))
