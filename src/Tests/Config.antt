-- ===== src/Tests/Config.antt =====
-- The redaction and the encryption of a configuration on concrete inputs.
use openring.Prelude.{
  ℕ, zero, suc, ◌≡◌, refl, String, false, Option, none, some, beq, if◌then◌else◌,
}
use openring.Shared.SecretBox
use openring.Shared.SecretBox.Migrated.{encrypt_in_place-migrates}
use openring.Prelude.Text.{lower, contains, join, begins_with}
use openring.Prelude.Yaml.{
  Value, null, number, text, items, mapping, nil, cons, Fields, end, field, get, truthy,
}
use openring.Web.Redact.{redacted_placeholder, redact_config}
use openring.Web.Redact.Hidden.{IsRedacted, redact_config-IsRedacted}

abbrev one_channel : Fields
one_channel = field "type" (text "webhook") (
    field "auth_token" (text "t0ken") (
      field "smtp_pass" (text "") (
        field "headers"
          (mapping (field "X-Api-KEY" (text "k") (field "X-Source" (text "door") end))) end)))

-- A configuration with a camera, the deterrent's keys and a channel around the given secrets.
abbrev config_of : String → Value → Value → Value → Fields → Fields
config_of version url key secret channel = field "version" (text version) (
    field "cameras" (items (cons (mapping (field "rtsp_url" url end)) (cons null nil))) (
      field "deterrent"
        (mapping (field "tuya" (mapping (field "api_key" key (field "api_secret" secret end))) end))
        (field "notifications" (mapping (field "channels" (items (cons (mapping channel) nil)) end))
          end)))

abbrev config : Fields
config = config_of "1" (text "rtsp://u:p@cam") (number 7) null one_channel

abbrev hidden : Value
hidden = text redacted_placeholder

abbrev hidden_channel : Fields
hidden_channel = field "type" (text "webhook") (
    field "auth_token" hidden (
      field "smtp_pass" (text "") (
        field "headers" (mapping (field "X-Api-KEY" hidden (field "X-Source" (text "door") end)))
          end)))

redacted :
    redact_config redacted_placeholder config ≡ config_of "1" hidden hidden null hidden_channel
unfolding redact_config truthy lower contains
redacted = refl

redact_config-IsRedacted_example :
    IsRedacted redacted_placeholder (redact_config redacted_placeholder config)
redact_config-IsRedacted_example = redact_config-IsRedacted redacted_placeholder config

-- A key is its number of bytes, of which base64 makes three out of four.
abbrev decode : ℕ → Option ℕ
decode key = if beq key 44 then some 32 else none

-- The i-th token of a call.
abbrev token : ℕ → ℕ → String → String
token zero raw s = "first"
token (suc i) raw s = "later"

abbrev own : ℕ → ℕ
own key = key

-- The configuration that has been sealed.
abbrev sealed_config : Fields
sealed_config = config_of "1" (text "rtsp://u:p@cam") (number 7) null (
    field "type" (text "webhook") (
      field "auth_token" (text "enc:v1:first") (
        field "smtp_pass" (text "") (
          field "headers"
            (mapping (field "X-Api-KEY" (text "k") (field "X-Source" (text "door") end))) end))))

sealed : SecretBox.encrypt_in_place own own decode decode token 44 config ≡ some (sealed_config, 1)
unfolding SecretBox.encrypt_in_place get join begins_with
sealed = refl

encrypt_in_place-migrates_example :
    (r : Fields × ℕ) × (SecretBox.encrypt_in_place own own decode decode token 44 config ≡ some r)
    × (SecretBox.has_plaintext_secrets r.0 ≡ false)
unfolding SecretBox.normalize_key
encrypt_in_place-migrates_example =
    encrypt_in_place-migrates own own decode decode token 44 config refl
