-- ===== src/Delivery/Tests.antt =====
-- The delivery theorems at one flag, one document and one bundle of environment 7.
use central_config_stream.Prelude.Map.{lookup}
use central_config_stream.Messaging.Publish.{publish, raw, write_at}
use central_config_stream.Messaging.Buckets.{by_name}
use central_config_stream.Prelude.{◌≡◌, refl, true, none, some, arith}
use central_config_stream.Prelude.Int.{pos, IsInt64}
use central_config_stream.Text.{codes, text_beq}
use central_config_stream.Keys.{
  bucket_service_settings, bucket_localization, service_settings_key, localization_key,
}
use central_config_stream.Messaging.Publisher.{publish_service_settings, publish_localization}
use central_config_stream.Messaging.Publisher.Serves.{Serves}
use central_config_stream.Messaging.Sample.{memory_kv, ready_publisher}
use central_config_stream.Messaging.Sample.Laws.{memory_laws}
use central_config_stream.Client.{
  Client, new_client, in_scope, apply_service_settings, service_settings, apply_loc, bundle,
}
use central_config_stream.Delivery.{settings_delivery, bundle_delivery}

abbrev consumer : Client
consumer = new_client (pos 7) (pos 0)

consumer_env : consumer.env ≡ pos 7
unfolding new_client
consumer_env = refl

consumer_scope : in_scope consumer (pos 3) ≡ true
unfolding new_client in_scope
consumer_scope = refl

three_IsInt64 : IsInt64 (pos 3)
three_IsInt64 = omega arith

settings_published :
    (publish_service_settings memory_kv ready_publisher (pos 7) (pos 3) (codes "{}")).0 ≡ none
unfolding publish_service_settings by_name text_beq publish lookup raw write_at
settings_published = refl

bundle_published :
    (publish_localization memory_kv ready_publisher (pos 7) (pos 3) (codes "en") (codes "{}")).0
    ≡ none
unfolding publish_localization by_name text_beq publish lookup raw write_at
bundle_published = refl

settings_delivery_example :
    Serves memory_kv memory_laws ready_publisher
      (publish_service_settings memory_kv ready_publisher (pos 7) (pos 3) (codes "{}")).1
      bucket_service_settings
      (service_settings_key (pos 7) (pos 3))
      (λ t.
        (service_settings
          (apply_service_settings consumer (service_settings_key (pos 7) (pos 3)) (some t))
          (pos 3)).0
        ≡ some (codes "{}"))
settings_delivery_example =
    settings_delivery memory_kv memory_laws ready_publisher (pos 7) (pos 3) (codes "{}") consumer
      three_IsInt64 consumer_env consumer_scope settings_published

bundle_delivery_example :
    Serves memory_kv memory_laws ready_publisher
      (publish_localization memory_kv ready_publisher (pos 7) (pos 3) (codes "en") (codes "{}")).1
      bucket_localization
      (localization_key (pos 7) (pos 3) (codes "en"))
      (λ t.
        bundle
          (apply_loc consumer (localization_key (pos 7) (pos 3) (codes "en")) (some t))
          (pos 3)
          (codes "en")
        ≡ some (codes "{}"))
bundle_delivery_example =
    bundle_delivery memory_kv memory_laws ready_publisher (pos 7) (pos 3) (codes "en") (codes "{}")
      consumer three_IsInt64 consumer_env bundle_published
