-- ===== src/Notifier/FaceRules/Base.antt =====
-- The rules block as the YAML gives it, and `evaluate` with its helpers. `repr` is Python's `str`
-- on values that are no texts.
use openring.Prelude.Text.{lower, strip}
use openring.Prelude.Yaml.{
  Value, null, flag, number, text, items, mapping, Items, nil, cons, Fields, get, truthy, str_of,
}
use openring.Prelude.{
  String, Bool, false, not, ◌&&◌, ◌||◌, Option, none, some, List, [], ◌∷◌, is_some, is_empty,
  if◌then◌else◌, ◌==◌,
}

pub data Action : Type 0 where
  suppress dispatch : Action

pub data Priority : Type 0 where
  normal high : Priority

pub record RuleOutcome : Type 0 where
  pub action : Action
  pub channels : List String
  pub priority : Priority
  pub matched_label : String

-- The dicts of the list that have a label.
unfoldable pub labelled : Items → List Fields
labelled nil = []
labelled (cons (mapping rule) l) =
    let rest = labelled l in if is_some (get "label" rule) then rule ∷ rest else rest
labelled (cons null l) = labelled l
labelled (cons (flag _) l) = labelled l
labelled (cons (number _) l) = labelled l
labelled (cons (text _) l) = labelled l
labelled (cons (items _) l) = labelled l

unfoldable pub normalise_rules : Value → List Fields
unfolding labelled
normalise_rules (items l) = labelled l
normalise_rules null = []
normalise_rules (flag _) = []
normalise_rules (number _) = []
normalise_rules (text _) = []
normalise_rules (mapping _) = []

module _ (repr : Value → String) where
  -- str(d.get(k, default))
  unfoldable pub str_or : String → Option Value → String
  str_or default none = default
  str_or default (some v) = str_of repr v

  unfoldable pub texts : Items → List String
  texts nil = []
  texts (cons v l) = str_of repr v ∷ texts l

  unfoldable pub channel_list : Option Value → List String
  unfolding texts
  channel_list (some (items l)) = texts l
  channel_list none = []
  channel_list (some null) = []
  channel_list (some (flag _)) = []
  channel_list (some (number _)) = []
  channel_list (some (text _)) = []
  channel_list (some (mapping _)) = []

  unfoldable pub rule_outcome : Fields → RuleOutcome
  unfolding channel_list str_or
  rule_outcome rule =
      let channels = channel_list (get "channels" rule) in
      record {
        action = if is_empty channels then suppress else dispatch;
        channels = channels;
        priority =
            if lower (strip (str_or "normal" (get "priority" rule))) == "high"
            then high
            else normal;
        matched_label = str_or "" (get "label" rule);
      }

  -- str(recognition.get("label") or "")
  unfoldable pub str_or_empty : Option Value → String
  str_or_empty none = ""
  str_or_empty (some v) = if truthy v then str_of repr v else ""

  abbrev pub rule_label : Fields → String
  rule_label rule = strip (str_or "" (get "label" rule))

  -- The loop over the rules: `return` or `continue` at each.
  unfoldable pub first_match : String → String → List Fields → Option RuleOutcome
  first_match status label_lower [] = none
  first_match status label_lower (rule ∷ rules) =
      let rest = first_match status label_lower rules in
      if rule_label rule == ""
      then rest
      else if lower (rule_label rule) == "unknown"
      then (if status == "unknown" then some (rule_outcome rule) else rest)
      else if rule_label rule == "*"
      then (if status == "matched" then some (rule_outcome rule) else rest)
      else if status == "matched" && lower (rule_label rule) == label_lower
      then some (rule_outcome rule)
      else rest

  abbrev pub status_of : Fields → String
  status_of recognition = lower (str_or "" (get "status" recognition))

  abbrev pub label_of : Fields → String
  label_of recognition = lower (strip (str_or_empty (get "label" recognition)))

  unfoldable pub evaluate : Option Fields → Value → Option RuleOutcome
  unfolding normalise_rules
  evaluate recognition rules = elim recognition [
    | none ↦ none
    | some r ↦
        if is_empty (normalise_rules rules)
        then none
        else if not (status_of r == "matched" || status_of r == "unknown")
        then none
        else first_match (status_of r) (label_of r) (normalise_rules rules)
  ]

  unfoldable pub any_class : String → Items → Bool
  any_class target nil = false
  any_class target (cons v l) = lower (str_of repr v) == target || any_class target l

  -- `class_name` is `None`, or a text.
  unfoldable pub is_face_class : Option String → Value → Bool
  unfolding any_class
  is_face_class class_name (items (cons v l)) = elim class_name [
    | none ↦ false
    | some c ↦ if c == "" then false else any_class (lower c) (cons v l)
  ]
  is_face_class class_name (items nil) = false
  is_face_class class_name null = false
  is_face_class class_name (flag _) = false
  is_face_class class_name (number _) = false
  is_face_class class_name (text _) = false
  is_face_class class_name (mapping _) = false
