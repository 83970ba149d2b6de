-- ===== src/Messaging/Publisher/WriteThrough.antt =====
-- What a write-through does to a server that answers and that no other client writes to: the document
-- is published, and a purge removes its key.
use central_config_stream.Prelude.{
  ℕ, ◌≤◌, all, ◌≡◌, refl, Bool, true, false, if◌then◌else◌, Option, none, some, Bool-cases, inl,
  inr,
}
use central_config_stream.Prelude.Int.{ℤ}
use central_config_stream.Text.{Text, is_empty, is_label_char, byte_length}
use central_config_stream.Keys.{
  bucket_flags, bucket_service_settings, bucket_localization, flag_key, service_settings_key,
  localization_key,
}
use central_config_stream.Keys.Tokens.{service_settings_key-IsKey, localization_key-IsKey}
use central_config_stream.Messaging.Limits.{max_value_size}
use central_config_stream.Messaging.Kv.{Kv, JetStream, Quiet}
use central_config_stream.Messaging.Publish.{
  PublishError, publish, built, Publication, skipped, written, same_bytes, write_at,
}
use central_config_stream.Messaging.Publish.Progress.{Holds, publish_settles, publish-raw-Holds}
use central_config_stream.Messaging.Publish.Safety.{stored_of}
use central_config_stream.Messaging.Buckets.{Resolved, resolved, refused, by_name}
use central_config_stream.Messaging.Publisher.{
  FlagCodec, FlagPayload, Publisher, build_flag, with_previous, marshal_both, error_of,
  publish_flag, publish_service_settings, publish_localization, purge_at, count_failure, delete_key,
}

module _ (json : FlagCodec) (prints : (v : FlagPayload) → ¬ (json.marshal v ≡ none)) where
  marshal_both_built :
      (v u : FlagPayload)
      → (w : Text) × ((c : Text) × (marshal_both (json.marshal v) (json.marshal u) ≡ built w c))
  marshal_both_built v u = go (json.marshal v) (json.marshal u) (prints v) (prints u)
    where
      go :
          (x y : Option Text)
          → ¬ (x ≡ none)
          → ¬ (y ≡ none)
          → (w : Text) × ((c : Text) × (marshal_both x y ≡ built w c))
      go none y n m = absurd (n refl)
      go (some w) none n m = absurd (m refl)
      go (some w) (some c) n m = (w, (c, refl))

  build_flag_built :
      (now : Text) (payload : FlagPayload) (cur : Option Text)
      → (w : Text) × ((c : Text) × (build_flag json now payload cur ≡ built w c))
  unfolding build_flag
  build_flag_built now payload cur = elim (Bool-cases (is_empty payload.updated_at)) [
    | inl fresh ↦ rw fresh (
        marshal_both_built (record payload { updated_at = now })
          (with_previous payload (json.unmarshal cur)))
    | inr stamped ↦ rw stamped (marshal_both_built payload payload)
  ]

module _ (kv : Kv) (js : JetStream kv) (q : Quiet kv js) (p : Publisher kv) where
  pub publish_localization-Holds :
      (b : Text) (e m : ℤ) (l v : Text)
      → by_name p.buckets bucket_localization ≡ resolved b
      → is_empty l ≡ false
      → is_empty v ≡ false
      → all is_label_char l ≡ true
      → byte_length v ≤ max_value_size
      → ((publish_localization kv p e m l v).1.buckets ≡ p.buckets)
        × Holds js (publish_localization kv p e m l v).1.world b (localization_key e m l) v
  unfolding publish_localization
  publish_localization-Holds b e m l v found hl hv label small =
      let key = localization_key-IsKey e m l (record { nonempty = hl; label = label }) in
      rw (hl, hv, found)
        (refl, publish-raw-Holds kv js q b (localization_key e m l) v p.world key small)

  pub publish_service_settings-Holds :
      (b : Text) (e m : ℤ) (v : Text)
      → by_name p.buckets bucket_service_settings ≡ resolved b
      → is_empty v ≡ false
      → byte_length v ≤ max_value_size
      → ((publish_service_settings kv p e m v).1.buckets ≡ p.buckets)
        × Holds js (publish_service_settings kv p e m v).1.world b (service_settings_key e m) v
  unfolding publish_service_settings
  publish_service_settings-Holds b e m v found hv small =
      let key = service_settings_key-IsKey e m in
      rw (hv, found)
        (refl, publish-raw-Holds kv js q b (service_settings_key e m) v p.world key small)

  counted_world :
      (name : Text) (r : Option PublishError × Publisher kv)
      → (count_failure kv name r).1.world ≡ r.1.world
  counted_world name (none, s) = refl
  counted_world name (some e, s) = refl

  pub delete_key_gone :
      (name b k : Text)
      → by_name p.buckets name ≡ resolved b
      → js.view (delete_key kv p name k).1.world b k ≡ none
  unfolding delete_key
  delete_key_gone name b k found =
      rw
        (
          counted_world name (purge_at kv p k (by_name p.buckets name)),
          found,
          q.others_rest p.world,
        )
        (q.purge_clears p.world b k)

  pub delete_key_others :
      (name b k c j : Text)
      → by_name p.buckets name ≡ resolved b
      → ¬ ((c ≡ b) × (j ≡ k))
      → js.view (delete_key kv p name k).1.world c j ≡ js.view p.world c j
  unfolding delete_key
  delete_key_others name b k c j found n =
      rw
        (
          counted_world name (purge_at kv p k (by_name p.buckets name)),
          found,
          q.others_rest p.world,
        )
        (js.purge_others p.world b k c j n)

  pub delete_key_buckets :
      (name b k : Text)
      → by_name p.buckets name ≡ resolved b
      → (delete_key kv p name k).1.buckets ≡ p.buckets
  unfolding delete_key
  delete_key_buckets name b k found =
      counted (purge_at kv p k (by_name p.buckets name)) (at (by_name p.buckets name))
    where
      at : (r : Resolved) → (purge_at kv p k r).1.buckets ≡ p.buckets
      at (refused e) = refl
      at (resolved c) = refl

      counted :
          (r : Option PublishError × Publisher kv)
          → r.1.buckets ≡ p.buckets
          → (count_failure kv name r).1.buckets ≡ p.buckets
      counted (none, s) h = h
      counted (some e, s) h = h

  -- a flag that the codec can print is published, if the server takes what is built of it
  pub publish_flag_settles :
      (json : FlagCodec) (clock : ℕ → Text) (e : ℤ) (k b : Text) (payload : FlagPayload)
      → ((v : FlagPayload) → ¬ (json.marshal v ≡ none))
      → ((n : ℕ) (cur : Option Text) (text compare : Text)
          → build_flag json (clock n) payload cur ≡ built text compare
          → q.Takes (flag_key e k) text)
      → by_name p.buckets bucket_flags ≡ resolved b
      → (publish_flag kv json clock p e k payload).0 ≡ none
  unfolding publish_flag
  publish_flag_settles json clock e k b payload prints taken found =
      let key = flag_key e k in
      let cur = (stored_of (js.view p.world b key)).value in
      let (w, (c, same)) = build_flag_built json prints (clock 2) payload cur in
      rw found (
        no_failure (publish kv b key (λ n. build_flag json (clock n) payload) p.world)
          (same_bytes cur c) p.world
          (write_at kv b key (build_flag json (clock 2) payload) p.world
            (stored_of (js.view p.world b key)).revision w).1
          (publish_settles kv js q b key (λ n. build_flag json (clock n) payload) p.world w c
            (taken 2 cur w c same) same))
    where
      no_failure :
          (r : Publication × kv.World) (t : Bool) (x y : kv.World)
          → r ≡ (if t then (skipped, x) else (written, y))
          → error_of r.0 ≡ none
      no_failure r true x y h = rw h refl
      no_failure r false x y h = rw h refl
