-- ===== src/Messaging/Buckets.antt =====
-- internal/messaging/kv.go: provisioning the buckets and resolving a bucket's handle. A handle is the
-- name of its bucket, and `none` is the nil handle of a bucket that is not provisioned yet.
pub mod Laws
use central_config_stream.Prelude.{
  ℕ, ◌≡◌, Bool, true, false, Option, none, some, ◌==◌, if◌then◌else◌,
}
use central_config_stream.Text.{Text, text_beq}
use central_config_stream.Keys.{bucket_flags, bucket_service_settings, bucket_localization}
use central_config_stream.Messaging.Limits.{max_value_size}
use central_config_stream.Messaging.Kv.{Kv, BucketConfig}
use central_config_stream.Messaging.Publish.{
  PublishError, unknown_bucket, not_provisioned, ensure_failed,
}

pub record BucketOptions : Type 0 where
  pub history : ℕ
  pub replicas : ℕ

unfoldable pub with_defaults : BucketOptions → BucketOptions
with_defaults o = record {
  history = if o.history == 0 then 5 else o.history;
  replicas = if o.replicas == 0 then 1 else o.replicas;
}

pub record Buckets : Type 0 where
  pub flags : Option Text
  pub service_settings : Option Text
  pub localization : Option Text
  pub opts : BucketOptions

unfoldable pub new_buckets : BucketOptions → Buckets
new_buckets opts = record {
  flags = none;
  service_settings = none;
  localization = none;
  opts = with_defaults opts;
}

-- a handle, or the error of the caller
pub data Resolved : Type 0 where
  resolved : Text → Resolved
  refused : PublishError → Resolved

abbrev handle : Text → Option Text → Resolved
handle name none = refused (not_provisioned name)
handle name (some kv) = resolved kv

unfoldable pub by_name : Buckets → Text → Resolved
by_name b name =
    if text_beq name bucket_flags
    then handle name b.flags
    else if text_beq name bucket_service_settings
    then handle name b.service_settings
    else if text_beq name bucket_localization
    then handle name b.localization
    else refused (unknown_bucket name)

module _ (kv : Kv) where
  unfoldable pub ensure_bucket : kv.World → Text → BucketOptions → Bool × kv.World
  ensure_bucket w name opts = kv.provision w (record {
    bucket = name;
    history = opts.history;
    replicas = opts.replicas;
    max_value_size = max_value_size;
  })

  -- The first bucket that cannot be provisioned ends the call.
  unfoldable pub ensure_buckets : kv.World → BucketOptions → Option Buckets × kv.World
  ensure_buckets w opts =
      let o = with_defaults opts in
      let (flags_ok, w1) = ensure_bucket w bucket_flags o in
      let (settings_ok, w2) = ensure_bucket w1 bucket_service_settings o in
      let (loc_ok, w3) = ensure_bucket w2 bucket_localization o in
      let fresh : Buckets = record {
        flags = some bucket_flags;
        service_settings = some bucket_service_settings;
        localization = some bucket_localization;
        opts = o;
      } in
      if flags_ok
      then (if settings_ok then (if loc_ok then (some fresh, w3) else (none, w3)) else (none, w2))
      else (none, w1)

  abbrev swap_in : Buckets → Option Buckets × kv.World → Option PublishError × Buckets × kv.World
  swap_in b (none, w) = (some ensure_failed, b, w)
  swap_in b (some fresh, w) = (
    none,
    record b {
      flags = fresh.flags;
      service_settings = fresh.service_settings;
      localization = fresh.localization;
    },
    w,
  )

  unfoldable pub ensure : Buckets → kv.World → Option PublishError × Buckets × kv.World
  unfolding ensure_buckets ensure_bucket
  ensure b w = swap_in b (ensure_buckets w b.opts)
