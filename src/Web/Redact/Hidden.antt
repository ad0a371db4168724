-- ===== src/Web/Redact/Hidden.antt =====
-- What a viewer cannot see.
use openring.Prelude.Yaml.{Value, text, Fields, end, field, truthy}
use openring.Prelude.{String, false, ◌≡◌, ◌⊎◌, refl, inl, inr, Bool-cases, List, [], ◌∷◌, All, ◌==◌}
use openring.Web.Redact.Base.{
  update_at, in_mapping, in_items, mask, mask_path, mask_keys, mask_header_values,
  is_sensitive_header, redact_channel, redact_channels, redact_config, channel_sensitive_keys,
}
use openring.Web.Redact.Places.{
  AtKey, AtMapping, AtItems, AtKey-update_at, AtKey-update_at_kept, AtKey-update_at_other,
  AtMapping-in_mapping, AtMapping-in_mapping_kept, AtItems-in_items,
}

module _ (placeholder : String) where
  -- The value is the placeholder, or it is empty.
  abbrev pub IsMasked : Value → Type 0
  IsMasked v = (v ≡ text placeholder) ⊎ (truthy v ≡ false)

  abbrev pub IsMaskedHeaders : Fields → Type 0
  IsMaskedHeaders end = Unit
  IsMaskedHeaders (field name v rest) =
      ((is_sensitive_header name ≡ false) ⊎ IsMasked v) × IsMaskedHeaders rest

  abbrev pub IsMaskedChannel : Fields → Type 0
  IsMaskedChannel channel =
      All (λ k. AtKey k IsMasked channel) channel_sensitive_keys
      × AtKey "headers" (AtMapping IsMaskedHeaders) channel

  -- The key of the Tuya account, where the deterrent has one.
  abbrev pub IsMaskedTuya : String → Fields → Type 0
  IsMaskedTuya key = AtKey "deterrent" (AtMapping (AtKey "tuya" (AtMapping (AtKey key IsMasked))))

  -- No camera's URL, no key of the deterrent and no credential of a channel can be read.
  pub record IsRedacted (cfg : Fields) : Type 0 where
    pub cameras : AtKey "cameras" (AtItems (AtKey "rtsp_url" IsMasked)) cfg
    pub api_key : IsMaskedTuya "api_key" cfg
    pub api_secret : IsMaskedTuya "api_secret" cfg
    pub channels :
        AtKey "notifications" (AtMapping (AtKey "channels" (AtItems IsMaskedChannel))) cfg

  mask-IsMasked : (v : Value) → IsMasked (mask placeholder v)
  unfolding mask
  mask-IsMasked v = elim (Bool-cases (truthy v)) [
    | inl full ↦ rw full (inl refl)
    | inr blank ↦ rw blank (inr blank)
  ]

  mask_keys-keeps :
      (k : String) (ks : List String) (m : Fields)
      → AtKey k IsMasked m
      → AtKey k IsMasked (mask_keys placeholder ks m)
  unfolding mask_keys
  mask_keys-keeps k [] m h = h
  mask_keys-keeps k (j ∷ ks) m h =
      mask_keys-keeps k ks _
        (AtKey-update_at_kept k j IsMasked (mask placeholder) m (λ v kept. mask-IsMasked v) h)

  mask_keys-All :
      (ks : List String) (m : Fields) → All (λ k. AtKey k IsMasked (mask_keys placeholder ks m)) ks
  unfolding mask_keys
  mask_keys-All [] m = tt
  mask_keys-All (k ∷ ks) m = (
    mask_keys-keeps k ks _ (AtKey-update_at k IsMasked (mask placeholder) m mask-IsMasked),
    mask_keys-All ks _,
  )

  mask_header_values-IsMaskedHeaders :
      (m : Fields) → IsMaskedHeaders (mask_header_values placeholder m)
  unfolding mask_header_values
  mask_header_values-IsMaskedHeaders end = tt
  mask_header_values-IsMaskedHeaders (field name v rest) = (
    elim (Bool-cases (is_sensitive_header name)) [
      | inl sensitive ↦ inr (elim (Bool-cases (truthy v)) [
        | inl full ↦ rw sensitive (rw full (inl refl))
        | inr blank ↦ rw sensitive (rw blank (inr blank))
      ])
      | inr plain ↦ inl plain
    ],
    mask_header_values-IsMaskedHeaders rest,
  )

  redact_channel-IsMaskedChannel : (m : Fields) → IsMaskedChannel (redact_channel placeholder m)
  unfolding redact_channel
  redact_channel-IsMaskedChannel m =
      let masked = mask_keys placeholder channel_sensitive_keys m in
      let all = mask_keys-All channel_sensitive_keys m in
      let headers = in_mapping (mask_header_values placeholder) in
      let kept : (k : String)
          → ("headers" == k) ≡ false
          → AtKey k IsMasked masked
          → AtKey k IsMasked (update_at "headers" headers masked) =
        λ k differ h. AtKey-update_at_other k "headers" IsMasked headers masked differ h in
      (
        (
          kept "webhook_url" refl all.0,
          (
            kept "smtp_pass" refl all.1.0,
            (
              kept "auth_token" refl all.1.1.0,
              (kept "token" refl all.1.1.1.0, (kept "password" refl all.1.1.1.1.0, tt)),
            ),
          ),
        ),
        AtKey-update_at "headers" _ headers masked
            (AtMapping-in_mapping IsMaskedHeaders _ mask_header_values-IsMaskedHeaders),
      )

  -- What the three structural paths and the channels do.
  abbrev mask_urls : Fields → Fields
  mask_urls = update_at "cameras" (in_items (update_at "rtsp_url" (mask placeholder)))

  abbrev mask_tuya_key : String → Value → Value
  mask_tuya_key key = in_mapping (update_at "tuya" (in_mapping (update_at key (mask placeholder))))

  abbrev mask_tuya : String → Fields → Fields
  mask_tuya key = update_at "deterrent" (mask_tuya_key key)

  abbrev mask_channels : Value → Value
  mask_channels = in_mapping (update_at "channels" (in_items (redact_channel placeholder)))

  abbrev AtUrls : Value → Type 0
  AtUrls = AtItems (AtKey "rtsp_url" IsMasked)

  abbrev AtTuya : String → Value → Type 0
  AtTuya key = AtMapping (AtKey "tuya" (AtMapping (AtKey key IsMasked)))

  abbrev AtChannels : Value → Type 0
  AtChannels = AtMapping (AtKey "channels" (AtItems IsMaskedChannel))

  mask_urls_masks : (cfg : Fields) → AtKey "cameras" AtUrls (mask_urls cfg)
  mask_urls_masks cfg = AtKey-update_at "cameras" AtUrls _ cfg (
      AtItems-in_items (AtKey "rtsp_url" IsMasked) (update_at "rtsp_url" (mask placeholder))
        (λ m. AtKey-update_at "rtsp_url" IsMasked (mask placeholder) m mask-IsMasked))

  mask_tuya_masks :
      (key : String) (cfg : Fields) → AtKey "deterrent" (AtTuya key) (mask_tuya key cfg)
  mask_tuya_masks key cfg = AtKey-update_at "deterrent" (AtTuya key) (mask_tuya_key key) cfg (
      AtMapping-in_mapping (AtKey "tuya" (AtMapping (AtKey key IsMasked))) _ (λ m.
        AtKey-update_at "tuya" (AtMapping (AtKey key IsMasked)) _ m (
          AtMapping-in_mapping (AtKey key IsMasked) _
            (λ t. AtKey-update_at key IsMasked (mask placeholder) t mask-IsMasked))))

  mask_tuya_keeps :
      (key j : String) (cfg : Fields)
      → AtKey "deterrent" (AtTuya key) cfg
      → AtKey "deterrent" (AtTuya key) (mask_tuya j cfg)
  mask_tuya_keeps key j cfg =
      AtKey-update_at_kept "deterrent" "deterrent" (AtTuya key) (mask_tuya_key j) cfg (
        AtMapping-in_mapping_kept (AtKey "tuya" (AtMapping (AtKey key IsMasked))) _ (λ m.
          AtKey-update_at_kept "tuya" "tuya" (AtMapping (AtKey key IsMasked)) _ m (
            AtMapping-in_mapping_kept (AtKey key IsMasked) _ (λ t.
              AtKey-update_at_kept key j IsMasked (mask placeholder) t
                (λ v kept. mask-IsMasked v)))))

  -- In every redacted configuration the URLs of the cameras, the keys of the deterrent, the
  -- sensitive keys of the channels and their credential headers are empty or the placeholder.
  pub redact_config-IsRedacted : (cfg : Fields) → IsRedacted (redact_config placeholder cfg)
  unfolding redact_config redact_channels mask_path
  redact_config-IsRedacted cfg =
      let urls = mask_urls cfg in
      let keyed = mask_tuya "api_key" urls in
      let masked = mask_tuya "api_secret" keyed in
      record {
        cameras = AtKey-update_at_other "cameras" "notifications" AtUrls mask_channels masked refl (
            AtKey-update_at_other "cameras" "deterrent" AtUrls (mask_tuya_key "api_secret") keyed
              refl
              (AtKey-update_at_other "cameras" "deterrent" AtUrls (mask_tuya_key "api_key") urls
                refl (mask_urls_masks cfg)));
        api_key =
            AtKey-update_at_other "deterrent" "notifications" (AtTuya "api_key") mask_channels
              masked refl
              (mask_tuya_keeps "api_key" "api_secret" keyed (mask_tuya_masks "api_key" urls));
        api_secret =
            AtKey-update_at_other "deterrent" "notifications" (AtTuya "api_secret") mask_channels
              masked refl (mask_tuya_masks "api_secret" keyed);
        channels = AtKey-update_at "notifications" AtChannels mask_channels masked (
            AtMapping-in_mapping (AtKey "channels" (AtItems IsMaskedChannel)) _ (λ m.
              AtKey-update_at "channels" (AtItems IsMaskedChannel) _ m (
                AtItems-in_items IsMaskedChannel (redact_channel placeholder)
                  redact_channel-IsMaskedChannel)));
      }
