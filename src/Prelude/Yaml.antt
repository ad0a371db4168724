-- ===== src/Prelude/Yaml.antt =====
-- The values that a YAML or JSON file parses to, as Python holds them. Keys are texts, and the
-- numbers that the configuration holds are natural.
use openring.Prelude.{
  ℕ, zero, suc, String, Bool, true, false, Option, none, some, ◌==◌, if◌then◌else◌, not,
}

mutual
  pub data Value : Type 0 where
    null : Value
    flag : Bool → Value
    number : ℕ → Value
    text : String → Value
    items : Items → Value
    mapping : Fields → Value

  pub data Items : Type 0 where
    nil : Items
    cons : Value → Items → Items

  pub data Fields : Type 0 where
    end : Fields
    field : String → Value → Fields → Fields

-- d.get(k)
unfoldable pub get : String → Fields → Option Value
get k end = none
get k (field j v m) = if j == k then some v else get k m

-- bool(v)
unfoldable pub truthy : Value → Bool
truthy null = false
truthy (flag b) = b
truthy (number zero) = false
truthy (number (suc n)) = true
truthy (text s) = not (s == "")
truthy (items nil) = false
truthy (items (cons _ _)) = true
truthy (mapping end) = false
truthy (mapping (field _ _ _)) = true

-- str(v), where `repr` tells what a value that is no text prints as.
unfoldable pub str_of : (Value → String) → Value → String
str_of repr (text s) = s
str_of repr null = repr null
str_of repr (flag b) = repr (flag b)
str_of repr (number n) = repr (number n)
str_of repr (items l) = repr (items l)
str_of repr (mapping m) = repr (mapping m)
