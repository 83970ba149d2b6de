-- ===== src/Messaging/Publisher/Metrics.antt =====
-- The publish counters of internal/obs that the publisher drives.
use central_config_stream.Prelude.{
  Bool, true, false, some, if◌then◌else◌, ℕ, ◌+◌, ◌≡◌, refl, Option, none, arith,
}
use central_config_stream.Prelude.Int.{ℤ}
use central_config_stream.Text.{Text, is_empty}
use central_config_stream.Keys.{
  bucket_flags, flag_key, bucket_service_settings, service_settings_key, bucket_localization,
  localization_key,
}
use central_config_stream.Messaging.Kv.{Kv}
use central_config_stream.Messaging.Publish.{
  PublishError, Publication, skipped, written, failed, BuildValue, raw, empty_settings,
  empty_locale, empty_bundle,
}
use central_config_stream.Messaging.Buckets.{Resolved, resolved, refused, by_name}
use central_config_stream.Messaging.Publisher.{
  KvMetrics, FlagCodec, FlagPayload, Publisher, observe_publish, observed, publish_to, publish_flag,
  publish_service_settings, publish_localization, delete_key, ensure_buckets, build_flag, purge_at,
  count_failure,
}

-- attempts = failures + skips + successes, for every bucket label
abbrev pub IsCounted : KvMetrics → Type 0
IsCounted m = (b : Text) → m.attempts b ≡ m.failures b + m.skips b + m.successes b

observe_publish-IsCounted :
    (bucket : Text) (p : Publication) (m : KvMetrics)
    → IsCounted m
    → IsCounted (observe_publish bucket p m).1
unfolding observe_publish
observe_publish-IsCounted bucket (failed e) m h b = ground (arith, h b)
observe_publish-IsCounted bucket skipped m h b = ground (arith, h b)
observe_publish-IsCounted bucket written m h b = ground (arith, h b)

module _ (kv : Kv) where
  publish_to_metrics :
      (p : Publisher kv) (key : Text) (build : ℕ → BuildValue) (r : Resolved)
      → (publish_to kv p key build r).1.metrics ≡ p.metrics
  publish_to_metrics p key build (refused e) = refl
  publish_to_metrics p key build (resolved b) = refl

  observed-IsCounted :
      (bucket : Text) (r : Publication) (p : Publisher kv)
      → IsCounted p.metrics
      → IsCounted (observed kv bucket (r, p)).1.metrics
  observed-IsCounted bucket r p h = observe_publish-IsCounted bucket r p.metrics h

  publication-IsCounted :
      (bucket key : Text) (build : ℕ → BuildValue) (p : Publisher kv) (r : Resolved)
      → IsCounted p.metrics
      → IsCounted (observed kv bucket (publish_to kv p key build r)).1.metrics
  publication-IsCounted bucket key build p r h =
      let q = publish_to kv p key build r in
      observed-IsCounted bucket q.0 q.1 (rw (publish_to_metrics p key build r) h)

  publish_flag-IsCounted :
      (json : FlagCodec) (clock : ℕ → Text) (p : Publisher kv) (e : ℤ) (k : Text) (v : FlagPayload)
      → IsCounted p.metrics
      → IsCounted (publish_flag kv json clock p e k v).1.metrics
  unfolding publish_flag
  publish_flag-IsCounted json clock p e k v h =
      publication-IsCounted bucket_flags (flag_key e k) (λ n. build_flag json (clock n) v) p
        (by_name p.buckets bucket_flags) h

  either-IsCounted :
      (bucket : Text) (b : Bool) (x y : Publication × Publisher kv)
      → IsCounted (observed kv bucket x).1.metrics
      → IsCounted (observed kv bucket y).1.metrics
      → IsCounted (observed kv bucket (if b then x else y)).1.metrics
  either-IsCounted bucket true x y h k = h
  either-IsCounted bucket false x y h k = k

  publish_service_settings-IsCounted :
      (p : Publisher kv) (e m : ℤ) (v : Text)
      → IsCounted p.metrics
      → IsCounted (publish_service_settings kv p e m v).1.metrics
  unfolding publish_service_settings
  publish_service_settings-IsCounted p e m v h =
      either-IsCounted bucket_service_settings (is_empty v) (failed empty_settings, p)
        (publish_to kv p (service_settings_key e m) (λ _. raw v)
          (by_name p.buckets bucket_service_settings))
        (observed-IsCounted bucket_service_settings (failed empty_settings) p h)
        (publication-IsCounted bucket_service_settings (service_settings_key e m) (λ _. raw v) p
          (by_name p.buckets bucket_service_settings) h)

  publish_localization-IsCounted :
      (p : Publisher kv) (e m : ℤ) (l v : Text)
      → IsCounted p.metrics
      → IsCounted (publish_localization kv p e m l v).1.metrics
  unfolding publish_localization
  publish_localization-IsCounted p e m l v h =
      let sent =
        publish_to kv p (localization_key e m l) (λ _. raw v)
          (by_name p.buckets bucket_localization) in
      either-IsCounted bucket_localization (is_empty l) (failed empty_locale, p)
        (if is_empty v then (failed empty_bundle, p) else sent)
        (observed-IsCounted bucket_localization (failed empty_locale) p h)
        (either-IsCounted bucket_localization (is_empty v) (failed empty_bundle, p) sent
          (observed-IsCounted bucket_localization (failed empty_bundle) p h)
          (publication-IsCounted bucket_localization (localization_key e m l) (λ _. raw v) p
            (by_name p.buckets bucket_localization) h))

  delete_key-IsCounted :
      (p : Publisher kv) (b k : Text)
      → IsCounted p.metrics
      → IsCounted (delete_key kv p b k).1.metrics
  unfolding delete_key
  delete_key-IsCounted p b k h = go (by_name p.buckets b)
    where
      count :
          (r : Option PublishError × Publisher kv)
          → IsCounted r.1.metrics
          → IsCounted (count_failure kv b r).1.metrics
      count (none, q) h = h
      count (some e, q) h = h

      go : (r : Resolved) → IsCounted (count_failure kv b (purge_at kv p k r)).1.metrics
      go (refused e) = h
      go (resolved name) = count (purge_at kv p k (resolved name)) h

  -- One call of a publisher's method.
  pub data Call (json : FlagCodec) (p : Publisher kv) : Publisher kv → Type 0 where
    flag :
        (clock : ℕ → Text) (e : ℤ) (k : Text) (v : FlagPayload)
        → Call json p (publish_flag kv json clock p e k v).1
    settings : (e m : ℤ) (v : Text) → Call json p (publish_service_settings kv p e m v).1
    bundle : (e m : ℤ) (l v : Text) → Call json p (publish_localization kv p e m l v).1
    removal : (b k : Text) → Call json p (delete_key kv p b k).1
    ensured : Call json p (ensure_buckets kv p).1

  pub data Calls (json : FlagCodec) (p : Publisher kv) : Publisher kv → Type 0 where
    here : Calls json p p
    next : {q r : Publisher kv} → Calls json p q → Call json q r → Calls json p r

  Call-IsCounted :
      {json : FlagCodec} {p q : Publisher kv}
      → Call json p q
      → IsCounted p.metrics
      → IsCounted q.metrics
  unfolding ensure_buckets
  Call-IsCounted {json} {p} (flag clock e k v) h = publish_flag-IsCounted json clock p e k v h
  Call-IsCounted {json} {p} (settings e m v) h = publish_service_settings-IsCounted p e m v h
  Call-IsCounted {json} {p} (bundle e m l v) h = publish_localization-IsCounted p e m l v h
  Call-IsCounted {json} {p} (removal b k) h = delete_key-IsCounted p b k h
  Call-IsCounted {json} {p} ensured h = h

  -- After any calls of a publisher, for each bucket the attempts counted are the failures, the skips
  -- and the successes together, if they were so before.
  pub Calls-IsCounted :
      {json : FlagCodec} {p q : Publisher kv}
      → Calls json p q
      → IsCounted p.metrics
      → IsCounted q.metrics
  Calls-IsCounted here h = h
  Calls-IsCounted (next r c) h = Call-IsCounted c (Calls-IsCounted r h)
