-- ===== src/Messaging/Publisher.antt =====
-- internal/messaging/publisher.go: the `Publisher`, its metrics, and the flag payload. A method takes
-- the publisher's state, the shared server `World` among it, and returns the new state. The JSON form
-- of a flag payload is a parameter (`FlagCodec`), and so are the readings of the clock.
pub mod Metrics
pub mod Serves
pub mod WriteThrough
use central_config_stream.Prelude.{
  ℕ, suc, ◌+◌, ◌≡◌, Bool, true, false, not, Option, none, some, List, [], ◌∷◌, ◌==◌, if◌then◌else◌,
}
use central_config_stream.Prelude.Int.{ℤ}
use central_config_stream.Text.{Text, text_beq, is_empty}
use central_config_stream.Keys.{
  bucket_flags, bucket_service_settings, bucket_localization, flag_key, service_settings_key,
  localization_key,
}
use central_config_stream.Messaging.Kv.{
  Kv, KeyRevision, Listing, listed, nothing_found, list_error, PurgeResult, purged, purge_missing,
  purge_error,
}
use central_config_stream.Messaging.Publish.{
  PublishError, list_failed, purge_failed, empty_settings, empty_locale, empty_bundle, Publication,
  skipped, written, failed, Built, built, build_failed, BuildValue, raw, publish,
}
use central_config_stream.Messaging.Buckets
use central_config_stream.Messaging.Buckets.{Buckets, Resolved, resolved, refused, by_name}

pub record FlagPayload : Type 0 where
  pub enabled : Bool
  pub value : Text
  pub updated_at : Text

-- encoding/json at FlagPayload; the nil slice does not decode
pub record FlagCodec : Type 0 where
  pub marshal : FlagPayload → Option Text
  pub unmarshal : Option Text → Option FlagPayload

-- internal/obs counters of one bucket label each
pub record KvMetrics : Type 0 where
  pub attempts : Text → ℕ
  pub failures : Text → ℕ
  pub skips : Text → ℕ
  pub successes : Text → ℕ
  pub delete_failures : Text → ℕ

abbrev pub inc : Text → (Text → ℕ) → Text → ℕ
inc label counter b = if text_beq label b then suc (counter b) else counter b

abbrev record_outcome : Text → Publication → KvMetrics → KvMetrics
record_outcome bucket (failed e) m = record m { failures = inc bucket m.failures }
record_outcome bucket skipped m = record m { skips = inc bucket m.skips }
record_outcome bucket written m = record m { successes = inc bucket m.successes }

abbrev pub error_of : Publication → Option PublishError
error_of (failed e) = some e
error_of skipped = none
error_of written = none

unfoldable pub observe_publish : Text → Publication → KvMetrics → Option PublishError × KvMetrics
observe_publish bucket p m =
    (error_of p, record_outcome bucket p (record m { attempts = inc bucket m.attempts }))

-- the value of a flag, with the payload to write and the one to compare
abbrev with_previous : FlagPayload → Option FlagPayload → FlagPayload
with_previous payload none = payload
with_previous payload (some prev) = record payload { updated_at = prev.updated_at }

abbrev marshal_both : Option Text → Option Text → Built
marshal_both (some w) (some c) = built w c
marshal_both _ _ = build_failed

unfoldable pub build_flag : FlagCodec → Text → FlagPayload → BuildValue
build_flag json now payload cur =
    if is_empty payload.updated_at
    then marshal_both (json.marshal (record payload { updated_at = now }))
        (json.marshal (with_previous payload (json.unmarshal cur)))
    else marshal_both (json.marshal payload) (json.marshal payload)

module _ (kv : Kv) where
  pub record Publisher : Type 0 where
    pub world : kv.World
    pub buckets : Buckets
    pub metrics : KvMetrics

  abbrev in_world : Publisher → Publication × kv.World → Publication × Publisher
  in_world p (r, w) = (r, record p { world = w })

  abbrev publish_to : Publisher → Text → (ℕ → BuildValue) → Resolved → Publication × Publisher
  publish_to p key build (refused e) = (failed e, p)
  publish_to p key build (resolved bucket) = in_world p (publish kv bucket key build p.world)

  abbrev observed : Text → Publication × Publisher → Option PublishError × Publisher
  observed bucket (r, p) =
      let (e, m) = observe_publish bucket r p.metrics in (e, record p { metrics = m })

  -- `clock n` is the time that the clock shows in the round with `n` rounds left
  pub publish_flag_value :
      FlagCodec → (ℕ → Text) → Publisher → ℤ → Text → FlagPayload → Publication × Publisher
  publish_flag_value json clock p environment_id flag payload =
      publish_to p (flag_key environment_id flag) (λ n. build_flag json (clock n) payload)
        (by_name p.buckets bucket_flags)

  unfoldable pub publish_flag :
      FlagCodec → (ℕ → Text) → Publisher → ℤ → Text → FlagPayload → Option PublishError × Publisher
  unfolding publish_flag_value observe_publish
  publish_flag json clock p environment_id flag payload =
      observed bucket_flags (publish_flag_value json clock p environment_id flag payload)

  pub publish_settings_value : Publisher → ℤ → ℤ → Text → Publication × Publisher
  publish_settings_value p environment_id microservice_id settings =
      if is_empty settings
      then (failed empty_settings, p)
      else publish_to p (service_settings_key environment_id microservice_id) (λ _. raw settings)
          (by_name p.buckets bucket_service_settings)

  unfoldable pub publish_service_settings :
      Publisher → ℤ → ℤ → Text → Option PublishError × Publisher
  unfolding publish_settings_value observe_publish
  publish_service_settings p environment_id microservice_id settings =
      observed bucket_service_settings
        (publish_settings_value p environment_id microservice_id settings)

  pub publish_localization_value : Publisher → ℤ → ℤ → Text → Text → Publication × Publisher
  publish_localization_value p environment_id microservice_id locale bundle =
      if is_empty locale
      then (failed empty_locale, p)
      else if is_empty bundle
      then (failed empty_bundle, p)
      else publish_to p (localization_key environment_id microservice_id locale) (λ _. raw bundle)
          (by_name p.buckets bucket_localization)

  unfoldable pub publish_localization :
      Publisher → ℤ → ℤ → Text → Text → Option PublishError × Publisher
  unfolding publish_localization_value observe_publish
  publish_localization p environment_id microservice_id locale bundle =
      observed bucket_localization
        (publish_localization_value p environment_id microservice_id locale bundle)

-- a listing, where finding nothing is no failure
pub data Listed {ℓ} (A : Type ℓ) : Type ℓ where
  keys : List A → Listed A
  not_listed : PublishError → Listed A

abbrev from_listing {ℓ} : {A : Type ℓ} → Listing A → Listed A
from_listing (listed ks) = keys ks
from_listing nothing_found = keys []
from_listing list_error = not_listed list_failed

module _ (kv : Kv) where
  abbrev list_at {ℓ} : {A : Type ℓ} → (Text → Listing A) → Resolved → Listed A
  list_at list (refused e) = not_listed e
  list_at list (resolved bucket) = from_listing (list bucket)

  unfoldable pub list_keys : Publisher kv → Text → Listed Text
  list_keys p bucket = list_at (kv.list_keys (kv.others p.world)) (by_name p.buckets bucket)

  unfoldable pub list_revisions : Publisher kv → Text → Listed KeyRevision
  list_revisions p bucket =
      list_at (kv.list_revisions (kv.others p.world)) (by_name p.buckets bucket)

  abbrev purge_error_of : PurgeResult → Option PublishError
  purge_error_of purged = none
  purge_error_of purge_missing = none
  purge_error_of purge_error = some purge_failed

  abbrev purge_at : Publisher kv → Text → Resolved → Option PublishError × Publisher kv
  purge_at p key (refused e) = (some e, p)
  purge_at p key (resolved bucket) =
      let (r, w) = kv.purge (kv.others p.world) bucket key in
      (purge_error_of r, record p { world = w })

  abbrev count_failure :
      Text → Option PublishError × Publisher kv → Option PublishError × Publisher kv
  count_failure bucket (none, p) = (none, p)
  count_failure bucket (some e, p) = (
    some e,
    record p {
      metrics = record (p.metrics) { delete_failures = inc bucket p.metrics.delete_failures };
    },
  )

  unfoldable pub delete_key : Publisher kv → Text → Text → Option PublishError × Publisher kv
  delete_key p bucket key = count_failure bucket (purge_at p key (by_name p.buckets bucket))

  unfoldable pub ensure_buckets : Publisher kv → Option PublishError × Publisher kv
  ensure_buckets p =
      let (e, b, w) = Buckets.ensure kv p.buckets p.world in
      (e, record p { buckets = b; world = w })
