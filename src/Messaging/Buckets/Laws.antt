-- ===== src/Messaging/Buckets/Laws.antt =====
-- What provisioning leaves behind: three handles, or the old ones.
use central_config_stream.Prelude.{
  ◌≡◌, refl, ◌⊎◌, inl, inr, Bool, true, false, Option, none, some, arith, if◌then◌else◌,
}
use central_config_stream.Text.{text_beq}
use central_config_stream.Keys.{bucket_flags, bucket_service_settings, bucket_localization}
use central_config_stream.Messaging.Kv.{Kv}
use central_config_stream.Messaging.Publish.{PublishError, ensure_failed}
use central_config_stream.Messaging.Buckets.{
  BucketOptions, Buckets, resolved, by_name, swap_in, with_defaults, ensure_bucket, ensure_buckets,
  ensure,
}

-- Every bucket of the program resolves to its own handle.
pub record Ready (b : Buckets) : Type 0 where
  pub flags : by_name b bucket_flags ≡ resolved bucket_flags
  pub service_settings : by_name b bucket_service_settings ≡ resolved bucket_service_settings
  pub localization : by_name b bucket_localization ≡ resolved bucket_localization

abbrev provisioned : BucketOptions → Buckets
provisioned o = record {
  flags = some bucket_flags;
  service_settings = some bucket_service_settings;
  localization = some bucket_localization;
  opts = o;
}

module _ (kv : Kv) where
  ensure_buckets_all_or_none :
      (w : kv.World) (o : BucketOptions)
      → ((ensure_buckets kv w o).0 ≡ none)
        ⊎ ((ensure_buckets kv w o).0 ≡ some (provisioned (with_defaults o)))
  unfolding ensure_buckets
  ensure_buckets_all_or_none w o =
      let d = with_defaults o in
      let r1 = ensure_bucket kv w bucket_flags d in
      let r2 = ensure_bucket kv r1.1 bucket_service_settings d in
      let r3 = ensure_bucket kv r2.1 bucket_localization d in
      go r1.0 r2.0 r3.0 r1.1 r2.1 r3.1 (provisioned d)
    where
      go :
          (x y z : Bool) (u v t : kv.World) (fresh : Buckets)
          → let r =
              if◌then◌else◌ {A = Option Buckets × kv.World} x
                (if y then (if z then (some fresh, t) else (none, t)) else (none, v))
                (none, u) in
            (r.0 ≡ none) ⊎ (r.0 ≡ some fresh)
      go true true true u v t fresh = inr refl
      go true true false u v t fresh = inl refl
      go true false z u v t fresh = inl refl
      go false y z u v t fresh = inl refl

  -- `ensure` returns no error and every bucket then resolves to its own handle, or it returns an error
  -- and the handles are those from before.
  pub ensure-Ready :
      (b : Buckets) (w : kv.World)
      → (((ensure kv b w).0 ≡ none) × Ready (ensure kv b w).1)
        ⊎ ((e : PublishError) × ((ensure kv b w).0 ≡ some e) × ((ensure kv b w).1 ≡ b))
  unfolding ensure by_name text_beq
  ensure-Ready b w = go (ensure_buckets kv w b.opts) (ensure_buckets_all_or_none w b.opts)
    where
      go :
          (r : Option Buckets × kv.World)
          → ((r.0 ≡ none) ⊎ (r.0 ≡ some (provisioned (with_defaults b.opts))))
          → let s = swap_in kv b r in
            ((s.0 ≡ none) × Ready s.1) ⊎ ((e : PublishError) × (s.0 ≡ some e) × (s.1 ≡ b))
      go (none, u) h = inr (ensure_failed, refl, refl)
      go (some fresh, u) (inl h) = cc
      go (some fresh, u) (inr h) = inl (
        refl,
        record {
          flags = ground arith;
          service_settings = ground arith;
          localization = ground arith;
        },
      )
