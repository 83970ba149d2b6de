-- ===== src/Messaging/Publisher/Serves.antt =====
-- What the bucket holds after a publication that returned no error.
use central_config_stream.Prelude.{ℕ, ◌≡◌, refl, Option, none, some, arith, Bool-cases, inl, inr}
use central_config_stream.Prelude.Int.{ℤ}
use central_config_stream.Text.{Text, is_empty}
use central_config_stream.Keys.{
  bucket_flags, flag_key, bucket_service_settings, service_settings_key, bucket_localization,
  localization_key,
}
use central_config_stream.Messaging.Kv.{Kv, JetStream}
use central_config_stream.Messaging.Publish.{
  publish_attempts, Publication, skipped, written, failed, BuildValue, raw, built,
}
use central_config_stream.Messaging.Publish.Safety.{rounds, Justified, Explained, publish-Justified}
use central_config_stream.Messaging.Publish.Progress.{Holds}
use central_config_stream.Messaging.Buckets.{Resolved, resolved, refused, by_name}
use central_config_stream.Messaging.Publisher.{
  FlagCodec, FlagPayload, Publisher, publish_to, publish_flag, publish_service_settings,
  publish_localization, build_flag, error_of, with_previous, marshal_both,
}

-- What the program relies on of encoding/json: a payload that was printed is read back.
pub record IsLawful (json : FlagCodec) : Type 0 where
  pub unmarshal-marshal :
      (p : FlagPayload) (t : Text) → json.marshal p ≡ some t → json.unmarshal (some t) ≡ some p

-- The text decodes to a payload in the given state, at whatever time.
pub record Decodes (json : FlagCodec) (t : Text) (payload : FlagPayload) : Type 0 where
  pub decoded : FlagPayload
  pub reads : json.unmarshal (some t) ≡ some decoded
  pub enabled : decoded.enabled ≡ payload.enabled
  pub value : decoded.value ≡ payload.value

module _ (json : FlagCodec) (lawful : IsLawful json) (now : Text) (payload : FlagPayload) where
  marshal-Decodes :
      (p : FlagPayload) (t : Text)
      → json.marshal p ≡ some t
      → p.enabled ≡ payload.enabled
      → p.value ≡ payload.value
      → Decodes json t payload
  marshal-Decodes p t e h k = record {
    decoded = p;
    reads = lawful.unmarshal-marshal p t e;
    enabled = h;
    value = k;
  }

  marshal_both_parts :
      (x y : Option Text) (w c : Text) → marshal_both x y ≡ built w c → (x ≡ some w) × (y ≡ some c)
  marshal_both_parts none y w c h = cc
  marshal_both_parts (some x) none w c h = cc
  marshal_both_parts (some x) (some y) w c h = ground arith

  with_previous_state :
      (o : Option FlagPayload)
      → ((with_previous payload o).enabled ≡ payload.enabled)
        × ((with_previous payload o).value ≡ payload.value)
  with_previous_state none = (refl, refl)
  with_previous_state (some p) = (refl, refl)

  -- both texts that `build` returns are in the state of the payload
  build_flag-Decodes :
      (cur : Option Text) (w c : Text)
      → build_flag json now payload cur ≡ built w c
      → Decodes json w payload × Decodes json c payload
  unfolding build_flag
  build_flag-Decodes cur w c h = elim (Bool-cases (is_empty payload.updated_at)) [
    | inl e ↦
        let prev = json.unmarshal cur in
        let stamped : FlagPayload = record payload { updated_at = now } in
        let parts =
          marshal_both_parts (json.marshal stamped) (json.marshal (with_previous payload prev)) w c
            (ground arith) in
        let state = with_previous_state prev in
        (
          marshal-Decodes stamped w parts.0 refl refl,
          marshal-Decodes (with_previous payload prev) c parts.1 state.0 state.1,
        )
    | inr e ↦
        let parts =
          marshal_both_parts (json.marshal payload) (json.marshal payload) w c (ground arith) in
        (marshal-Decodes payload w parts.0 refl refl, marshal-Decodes payload c parts.1 refl refl)
  ]

module _ (kv : Kv) (js : JetStream kv) where
  -- a publication without an error leaves a text with property `P` under its key
  Justified-Holds :
      (start : kv.World) (b k : Text) (build : BuildValue) (P : Text → Type 0)
      → ((cur : Option Text) (w c : Text) → build cur ≡ built w c → P w × P c)
      → (r : Publication) (w : kv.World) → error_of r ≡ none
      → Justified kv js b k build start r w
      → (t : Text) × Holds js w b k t × P t
  Justified-Holds start b k build P good skipped w h j =
      (j.value, (j.revision, j.holds), (good (some j.value) j.write j.value j.unchanged).1)
  Justified-Holds start b k build P good written w h j =
      (j.write, (j.revision, j.stores), (good _ j.write j.compare j.from_read).0)
  Justified-Holds start b k build P good (failed e) w h j = cc

  Explained-Holds :
      (n : ℕ) (start : kv.World) (b k : Text) (build : ℕ → BuildValue) (P : Text → Type 0)
      → ((n : ℕ) (cur : Option Text) (w c : Text) → build n cur ≡ built w c → P w × P c)
      → (r : Publication) (w : kv.World) → error_of r ≡ none
      → Explained kv js b k build n start r w
      → (t : Text) × Holds js w b k t × P t
  Explained-Holds n start b k build P good r w h (inl e) = ground (arith, e.0, h)
  Explained-Holds n start b k build P good r w h (inr (j, m, e, x)) =
      Justified-Holds (rounds kv j start) b k (build m) P (good m) r w h x

  publish_to-Holds :
      (p : Publisher kv) (k : Text) (build : ℕ → BuildValue) (P : Text → Type 0) (r : Resolved)
      → ((n : ℕ) (cur : Option Text) (w c : Text) → build n cur ≡ built w c → P w × P c)
      → error_of (publish_to kv p k build r).0 ≡ none
      → (b : Text) × (r ≡ resolved b)
        × ((t : Text) × Holds js (publish_to kv p k build r).1.world b k t × P t)
  publish_to-Holds p k build P (refused e) good h = cc
  publish_to-Holds p k build P (resolved b) good h =
      let made = publish-Justified kv js b k build p.world in
      (b, refl, Explained-Holds publish_attempts p.world b k build P good _ _ h made)

  -- The bucket behind `name` holds, under `k`, a text with the property `P`.
  pub record Serves (p q : Publisher kv) (name k : Text) (P : Text → Type 0) : Type 0 where
    pub bucket : Text
    pub found : by_name p.buckets name ≡ resolved bucket
    pub text : Text
    pub held : Holds js q.world bucket k text
    pub good : P text

  publish_to-Serves :
      (p : Publisher kv) (name k : Text) (build : ℕ → BuildValue) (P : Text → Type 0)
      → ((n : ℕ) (cur : Option Text) (w c : Text) → build n cur ≡ built w c → P w × P c)
      → error_of (publish_to kv p k build (by_name p.buckets name)).0 ≡ none
      → Serves p (publish_to kv p k build (by_name p.buckets name)).1 name k P
  publish_to-Serves p name k build P good h =
      let (b, e, held) = publish_to-Holds p k build P (by_name p.buckets name) good h in
      record { bucket = b; found = e; text = held.0; held = held.1; good = held.2 }

  raw-good :
      (v : Text) (n : ℕ) (cur : Option Text) (w c : Text)
      → raw v cur ≡ built w c
      → (w ≡ v) × (c ≡ v)
  unfolding raw
  raw-good v n cur w c h = ground arith

  -- If `PublishFlag` returns no error, the flag's key holds a text that decodes to the state of the
  -- payload, however other clients interleaved.
  pub publish_flag-Serves :
      (json : FlagCodec)
      → IsLawful json
      → (clock : ℕ → Text) (p : Publisher kv) (e : ℤ) (k : Text) (payload : FlagPayload)
      → (publish_flag kv json clock p e k payload).0 ≡ none
      → Serves p
          (publish_flag kv json clock p e k payload).1
          bucket_flags
          (flag_key e k)
          (λ t. Decodes json t payload)
  unfolding publish_flag
  publish_flag-Serves json lawful clock p e k payload h =
      let s =
        publish_to-Serves p bucket_flags (flag_key e k) (λ n. build_flag json (clock n) payload)
          (λ t. Decodes json t payload)
          (λ n cur w c. build_flag-Decodes json lawful (clock n) payload cur w c) h in
      record { bucket = s.bucket; found = s.found; text = s.text; held = s.held; good = s.good }

  -- If `PublishServiceSettings` returns no error, its key holds the settings byte for byte.
  pub publish_service_settings-Serves :
      (p : Publisher kv) (e m : ℤ) (v : Text)
      → (publish_service_settings kv p e m v).0 ≡ none
      → Serves p
          (publish_service_settings kv p e m v).1
          bucket_service_settings
          (service_settings_key e m)
          (λ t. t ≡ v)
  unfolding publish_service_settings
  publish_service_settings-Serves p e m v h = elim (Bool-cases (is_empty v)) [
    | inl empty ↦ ground arith
    | inr full ↦
        let s =
          publish_to-Serves p bucket_service_settings (service_settings_key e m) (λ _. raw v)
            (λ t. t ≡ v) (raw-good v) (rw full at h) in
        rw full (record {
          bucket = s.bucket;
          found = s.found;
          text = s.text;
          held = s.held;
          good = s.good;
        })
  ]

  -- If `PublishLocalization` returns no error, its key holds the bundle byte for byte.
  pub publish_localization-Serves :
      (p : Publisher kv) (e m : ℤ) (l v : Text)
      → (publish_localization kv p e m l v).0 ≡ none
      → Serves p
          (publish_localization kv p e m l v).1
          bucket_localization
          (localization_key e m l)
          (λ t. t ≡ v)
  unfolding publish_localization
  publish_localization-Serves p e m l v h = elim (Bool-cases (is_empty l)) [
    | inl unnamed ↦ ground arith
    | inr named ↦ elim (Bool-cases (is_empty v)) [
      | inl empty ↦ ground arith
      | inr full ↦
          let s =
            publish_to-Serves p bucket_localization (localization_key e m l) (λ _. raw v)
              (λ t. t ≡ v) (raw-good v) (rw (named, full) at h) in
          rw (named, full)
            (record {
              bucket = s.bucket;
              found = s.found;
              text = s.text;
              held = s.held;
              good = s.good;
            })
    ]
  ]
