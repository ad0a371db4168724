-- ===== src/Web/Redact/Stable.antt =====
-- A second redaction changes nothing.
use openring.Prelude.Yaml.{Value, Fields, end, field}
use openring.Prelude.{String, false, ◌≡◌, refl, ap, ◌∙◌, arith, ◌==◌}
use openring.Web.Redact.Base.{
  update_at, in_mapping, in_items, mask, mask_path, mask_keys, mask_header_values, redact_channel,
  redact_channels, redact_config, channel_sensitive_keys,
}
use openring.Web.Redact.Laws.{
  Idempotent, Commute, compose-Idempotent, compose-Commute, update_at-Idempotent,
  update_at-Commute_other, update_at-Commute, in_mapping-Idempotent, in_mapping-Commute,
  in_items-Idempotent, mask-Idempotent, mask_keys-Idempotent, mask_keys-Commute,
}

module _ (placeholder : String) where
  mask_header_values-Idempotent : Idempotent (mask_header_values placeholder)
  unfolding mask_header_values
  mask_header_values-Idempotent end = refl
  mask_header_values-Idempotent (field name v m) = ground (arith, mask_header_values-Idempotent m)

  -- The masked keys are not the headers.
  redact_channel-Idempotent : Idempotent (redact_channel placeholder)
  unfolding redact_channel mask_keys
  redact_channel-Idempotent =
      let headers = update_at "headers" (in_mapping (mask_header_values placeholder)) in
      let masked = mask placeholder in
      let apart : (k : String) → ("headers" == k) ≡ false → Commute headers (update_at k masked) =
        λ k other. update_at-Commute_other "headers" k _ masked other in
      compose-Idempotent headers (mask_keys placeholder channel_sensitive_keys)
        (update_at-Idempotent "headers" _
          (in_mapping-Idempotent (mask_header_values placeholder) mask_header_values-Idempotent))
        (mask_keys-Idempotent placeholder channel_sensitive_keys)
        (mask_keys-Commute placeholder headers channel_sensitive_keys (
          apart "webhook_url" refl,
          (
            apart "smtp_pass" refl,
            (apart "auth_token" refl, (apart "token" refl, (apart "password" refl, tt))),
          ),
        ))

  redact_channels-Idempotent : Idempotent (redact_channels placeholder)
  unfolding redact_channels
  redact_channels-Idempotent = update_at-Idempotent "notifications" _ (
      in_mapping-Idempotent _ (
        update_at-Idempotent "channels" _
          (in_items-Idempotent (redact_channel placeholder) redact_channel-Idempotent)))

  -- What the three structural paths mask.
  abbrev camera_urls : Fields → Fields
  camera_urls = update_at "cameras" (in_items (update_at "rtsp_url" (mask placeholder)))

  abbrev tuya : String → Fields → Fields
  tuya key =
      update_at "deterrent"
        (in_mapping (update_at "tuya" (in_mapping (update_at key (mask placeholder)))))

  abbrev paths : Fields → Fields
  paths cfg = tuya "api_secret" (tuya "api_key" (camera_urls cfg))

  camera_urls-Idempotent : Idempotent camera_urls
  camera_urls-Idempotent =
      update_at-Idempotent "cameras" _
        (in_items-Idempotent _ (update_at-Idempotent "rtsp_url" _ (mask-Idempotent placeholder)))

  tuya-Idempotent : (key : String) → Idempotent (tuya key)
  tuya-Idempotent key = update_at-Idempotent "deterrent" _ (
      in_mapping-Idempotent _ (
        update_at-Idempotent "tuya" _
          (in_mapping-Idempotent _ (update_at-Idempotent key _ (mask-Idempotent placeholder)))))

  tuya-Commute : (j k : String) → Commute (tuya j) (tuya k)
  tuya-Commute j k = update_at-Commute "deterrent" "deterrent" _ _ (
      in_mapping-Commute _ _ (
        update_at-Commute "tuya" "tuya" _ _
          (in_mapping-Commute _ _ (update_at-Commute j k _ _ (λ v. refl)))))

  paths-Idempotent : Idempotent paths
  paths-Idempotent =
      let apart : (key : String) → Commute (tuya key) camera_urls =
        λ key. update_at-Commute_other "deterrent" "cameras" _ _ refl in
      compose-Idempotent (tuya "api_secret") (λ x. tuya "api_key" (camera_urls x))
        (tuya-Idempotent "api_secret")
        (compose-Idempotent (tuya "api_key") camera_urls (tuya-Idempotent "api_key")
          camera_urls-Idempotent (apart "api_key"))
        (λ x.
          tuya-Commute "api_secret" "api_key" (camera_urls x)
          ∙ ap (tuya "api_key") (apart "api_secret" x))

  redact_config-Idempotent : Idempotent (redact_config placeholder)
  unfolding redact_config redact_channels mask_path
  redact_config-Idempotent =
      let apart : (key : String) (f : Value → Value)
          → ("notifications" == key) ≡ false
          → Commute (redact_channels placeholder) (update_at key f) =
        λ key f other. update_at-Commute_other "notifications" key _ f other in
      compose-Idempotent (redact_channels placeholder) paths redact_channels-Idempotent
        paths-Idempotent
        (compose-Commute (redact_channels placeholder) (tuya "api_secret")
          (λ x. tuya "api_key" (camera_urls x)) (apart "deterrent" _ refl)
          (compose-Commute (redact_channels placeholder) (tuya "api_key") camera_urls
            (apart "deterrent" _ refl) (apart "cameras" _ refl)))

  -- Redacting a configuration that is already redacted, with the same placeholder, changes nothing.
  pub redact_config-redact_config :
      (cfg : Fields)
      → redact_config placeholder (redact_config placeholder cfg) ≡ redact_config placeholder cfg
  redact_config-redact_config cfg = redact_config-Idempotent cfg
