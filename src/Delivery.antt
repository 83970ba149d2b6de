-- ===== src/Delivery.antt =====
-- From the publisher (internal/messaging) to the consumer (pkg/configclient): the keys that one writes
-- are the keys that the other parses.
mod Tests
use central_config_stream.Prelude.{
  ℕ, ◌≡◌, refl, Bool, true, Option, none, some, if◌then◌else◌, arith, ap, ◌∙◌,
}
use central_config_stream.Prelude.Int.{ℤ, IsInt64, int_beq, int_beq_iff, int_eq}
use central_config_stream.Prelude.Map.{lookup}
use central_config_stream.Text.{Text, text_beq, text_beq_iff, text_eq}
use central_config_stream.Keys.{
  flag_key, service_settings_key, localization_key, bucket_flags, bucket_service_settings,
  bucket_localization,
}
use central_config_stream.Messaging.Kv.{Kv, JetStream}
use central_config_stream.Messaging.Publish.Progress.{Holds}
use central_config_stream.Messaging.Publisher.{
  FlagCodec, FlagPayload, Publisher, publish_flag, publish_service_settings, publish_localization,
}
use central_config_stream.Messaging.Publisher.Serves.{
  IsLawful, Decodes, Serves, publish_flag-Serves, publish_service_settings-Serves,
  publish_localization-Serves,
}
use central_config_stream.Client.{
  ClientCodec, Client, apply_flag, apply_service_settings, apply_loc, flag_enabled, flag_value,
  in_scope, service_settings, bundle,
}
use central_config_stream.Client.Apply.{
  updated_flag, lookup-apply_flag, lookup-apply_service_settings, bundle-apply_loc,
}

apply_service_settings_ms_id :
    (c : Client) (key : Text) (value : Option Text)
    → (apply_service_settings c key value).ms_id ≡ c.ms_id
unfolding apply_service_settings
apply_service_settings_ms_id c key none = ground arith
apply_service_settings_ms_id c key (some v) = ground arith

in_scope_after :
    (c : Client) (key : Text) (value : Option Text) (m : ℤ)
    → in_scope (apply_service_settings c key value) m ≡ in_scope c m
unfolding in_scope
in_scope_after c key value m = rw (apply_service_settings_ms_id c key value)

pub settings_read :
    (c : Client) (m : ℤ) (v : Text)
    → IsInt64 m
    → in_scope c m ≡ true
    → (service_settings (apply_service_settings c (service_settings_key c.env m) (some v)) m).0
      ≡ some v
unfolding service_settings
settings_read c m v hm scoped =
    let key = service_settings_key c.env m in
    ground (
      arith,
      in_scope_after c key (some v) m,
      lookup-apply_service_settings c m (some v) m hm,
      int_beq_iff m m,
    )

module _ (kv : Kv) (js : JetStream kv) (p : Publisher kv) where
  pub flag_read :
      (json : FlagCodec) (decoder : ClientCodec)
      → ((v : Text) → decoder.flag_payload v ≡ json.unmarshal (some v))
      → (c : Client) (k t : Text) (payload : FlagPayload) → Decodes json t payload
      → let c' = apply_flag decoder c (flag_key c.env k) (some t) in
        (flag_enabled c' k ≡ payload.enabled) × (flag_value c' k ≡ some payload.value)
  unfolding flag_enabled flag_value
  flag_read json decoder same c k t payload d = ground (
    arith,
    lookup-apply_flag decoder c k (some t) k,
    same t,
    d.reads,
    d.enabled,
    d.value,
    text_beq_iff k k,
  )

  -- After `PublishFlag` returned no error, the flag's key holds a text which, delivered to a client of
  -- that environment that decodes as the publisher does, makes it read the published state and value.
  pub flag_delivery :
      (json : FlagCodec)
      → IsLawful json
      → (decoder : ClientCodec) → ((v : Text) → decoder.flag_payload v ≡ json.unmarshal (some v))
      → (clock : ℕ → Text) (e : ℤ) (k : Text) (payload : FlagPayload) (c : Client) → c.env ≡ e
      → (publish_flag kv json clock p e k payload).0 ≡ none
      → Serves kv js p
          (publish_flag kv json clock p e k payload).1
          bucket_flags
          (flag_key e k)
          (λ t.
            let c' = apply_flag decoder c (flag_key e k) (some t) in
            (flag_enabled c' k ≡ payload.enabled) × (flag_value c' k ≡ some payload.value))
  flag_delivery json lawful decoder same clock e k payload c at h =
      let s = publish_flag-Serves kv js json lawful clock p e k payload h in
      record {
        bucket = s.bucket;
        found = s.found;
        text = s.text;
        held = s.held;
        good = rw (← at) (flag_read json decoder same c k s.text payload s.good);
      }

  -- After `PublishServiceSettings` returned no error, the key holds the settings, and a client of the
  -- environment that has the service in its scope reads exactly these once the key is delivered.
  pub settings_delivery :
      (e m : ℤ) (v : Text) (c : Client)
      → IsInt64 m
      → c.env ≡ e
      → in_scope c m ≡ true
      → (publish_service_settings kv p e m v).0 ≡ none
      → Serves kv js p
          (publish_service_settings kv p e m v).1
          bucket_service_settings
          (service_settings_key e m)
          (λ t.
            (service_settings (apply_service_settings c (service_settings_key e m) (some t)) m).0
            ≡ some v)
  settings_delivery e m v c hm at scoped h =
      let s = publish_service_settings-Serves kv js p e m v h in
      record {
        bucket = s.bucket;
        found = s.found;
        text = s.text;
        held = s.held;
        good = rw (← at, s.good) (settings_read c m v hm scoped);
      }

  -- After `PublishLocalization` returned no error, the key holds the bundle, and a client of the
  -- environment has exactly this bundle for the service and locale once the key is delivered.
  pub bundle_delivery :
      (e m : ℤ) (l v : Text) (c : Client)
      → IsInt64 m
      → c.env ≡ e
      → (publish_localization kv p e m l v).0 ≡ none
      → Serves kv js p
          (publish_localization kv p e m l v).1
          bucket_localization
          (localization_key e m l)
          (λ t. bundle (apply_loc c (localization_key e m l) (some t)) m l ≡ some v)
  bundle_delivery e m l v c hm at h =
      let s = publish_localization-Serves kv js p e m l v h in
      record {
        bucket = s.bucket;
        found = s.found;
        text = s.text;
        held = s.held;
        good =
            rw (← at, s.good)
              (ground
                (arith, bundle-apply_loc c m l (some v) m l hm, int_beq_iff m m, text_beq_iff l l));
      }
