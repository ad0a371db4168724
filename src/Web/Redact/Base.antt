-- ===== src/Web/Redact/Base.antt =====
-- The walkers and `redact_config`.
use openring.Prelude.Yaml.{
  Value, null, flag, number, text, items, mapping, Items, nil, cons, Fields, end, field, truthy,
}
use openring.Prelude.Text.{lower, contains}
use openring.Prelude.{String, Bool, ◌&&◌, List, [], ◌∷◌, any, if◌then◌else◌, ◌==◌}

abbrev pub redacted_placeholder : String
redacted_placeholder = "***REDACTED***"

abbrev pub channel_sensitive_keys : List String
channel_sensitive_keys = "webhook_url" ∷ "smtp_pass" ∷ "auth_token" ∷ "token" ∷ "password" ∷ []

abbrev pub header_sensitive_patterns : List String
header_sensitive_patterns = "auth" ∷ "token" ∷ "key" ∷ "secret" ∷ "cookie" ∷ "password" ∷ []

-- obj[key] = f(obj[key]), where the key is present
unfoldable pub update_at : String → (Value → Value) → Fields → Fields
update_at key f end = end
update_at key f (field k v m) = if k == key then field k (f v) m else field k v (update_at key f m)

-- Where the value is a dict.
unfoldable pub in_mapping : (Fields → Fields) → Value → Value
in_mapping f (mapping m) = mapping (f m)
in_mapping f null = null
in_mapping f (flag b) = flag b
in_mapping f (number n) = number n
in_mapping f (text s) = text s
in_mapping f (items l) = items l

unfoldable pub each_mapping : (Fields → Fields) → Items → Items
unfolding in_mapping
each_mapping f nil = nil
each_mapping f (cons v l) = cons (in_mapping f v) (each_mapping f l)

-- Where the value is a list, at each dict in it.
unfoldable pub in_items : (Fields → Fields) → Value → Value
unfolding each_mapping
in_items f (items l) = items (each_mapping f l)
in_items f null = null
in_items f (flag b) = flag b
in_items f (number n) = number n
in_items f (text s) = text s
in_items f (mapping m) = mapping m

unfoldable pub is_sensitive_header : String → Bool
is_sensitive_header name = any (λ p. contains (lower name) p) header_sensitive_patterns

module _ (placeholder : String) where
  -- `if value: … = placeholder`
  unfoldable pub mask : Value → Value
  mask v = if truthy v then text placeholder else v

  unfoldable pub mask_path : List String → Fields → Fields
  unfolding update_at mask in_mapping in_items
  mask_path [] obj = obj
  mask_path (head ∷ []) obj = if head == "[]" then obj else update_at head mask obj
  mask_path (head ∷ next ∷ tail) obj =
      if head == "[]"
      then obj
      else if next == "[]"
      then update_at head (in_items (mask_path tail)) obj
      else update_at head (in_mapping (mask_path (next ∷ tail))) obj

  unfoldable pub mask_header_values : Fields → Fields
  unfolding is_sensitive_header
  mask_header_values end = end
  mask_header_values (field name value rest) =
      field name (if is_sensitive_header name && truthy value then text placeholder else value)
        (mask_header_values rest)

  unfoldable pub mask_keys : List String → Fields → Fields
  unfolding update_at mask
  mask_keys [] channel = channel
  mask_keys (k ∷ ks) channel = mask_keys ks (update_at k mask channel)

  -- The loop body over the channels.
  unfoldable pub redact_channel : Fields → Fields
  unfolding mask_keys mask_header_values in_mapping
  redact_channel channel =
      update_at "headers" (in_mapping mask_header_values) (mask_keys channel_sensitive_keys channel)

  unfoldable pub redact_channels : Fields → Fields
  unfolding redact_channel in_items in_mapping update_at
  redact_channels out =
      update_at "notifications" (in_mapping (update_at "channels" (in_items redact_channel))) out

  unfoldable pub redact_config : Fields → Fields
  unfolding mask_path redact_channels
  redact_config cfg = redact_channels (
      mask_path ("deterrent" ∷ "tuya" ∷ "api_secret" ∷ []) (
        mask_path ("deterrent" ∷ "tuya" ∷ "api_key" ∷ [])
          (mask_path ("cameras" ∷ "[]" ∷ "rtsp_url" ∷ []) cfg)))
