-- ===== src/Client/Watchers/Delivered.antt =====
-- What the caches of a client hold once its watchers run.
use central_config_stream.Prelude.{
  ◌≡◌, refl, true, Bool-cases, inl, inr, Option, none, some, List, [], ◌∷◌, arith, ◌∙◌, ap, map,
}
use central_config_stream.Prelude.Map.{lookup}
use central_config_stream.Text.{Text, text_eq}
use central_config_stream.Keys.{bucket_flags, bucket_service_settings, bucket_localization}
use central_config_stream.Client.{
  ClientCodec, Client, env_pattern, micro_pattern, loc_pattern, apply_flag, apply_service_settings,
  apply_loc,
}
use central_config_stream.Prelude.Int.{ℤ, int_eq}
use central_config_stream.Client.Reads.{history, apply_flag_env}
use central_config_stream.Client.Watchers.{
  Update, Nats, Apply, WatchError, Options, drain_initial, start_watch, on_updates, and_then,
  mark_watching, connect_and_watch,
}
use central_config_stream.Client.Watchers.Histories.{
  initial, named, settings_history, flags-drain_initial, micro-drain_initial,
}

-- updates that leave a field of the client alone
abbrev Keeps : {B : Type 0} → (Client → B) → Apply → Type 0
Keeps field apply =
    (c : Client) (key : Text) (value : Option Text) → field (apply c key value) ≡ field c

drain_initial-Keeps :
    {B : Type 0} (field : Client → B) (apply : Apply)
    → Keeps field apply
    → (us : List (Option Update)) (c : Client) → field (drain_initial apply us c).1 ≡ field c
unfolding drain_initial
drain_initial-Keeps field apply k [] c = refl
drain_initial-Keeps field apply k (none ∷ us) c = refl
drain_initial-Keeps field apply k (some u ∷ us) c =
    drain_initial-Keeps field apply k us (apply c u.key u.value) ∙ k c u.key u.value

settings-Keeps_flags : Keeps (λ c. c.flags) apply_service_settings
unfolding apply_service_settings
settings-Keeps_flags c key none = ground arith
settings-Keeps_flags c key (some v) = ground arith

bundles-Keeps_flags : Keeps (λ c. c.flags) apply_loc
unfolding apply_loc
bundles-Keeps_flags c key none = ground arith
bundles-Keeps_flags c key (some v) = ground arith

bundles-Keeps_micro : Keeps (λ c. c.micro) apply_loc
unfolding apply_loc
bundles-Keeps_micro c key none = ground arith
bundles-Keeps_micro c key (some v) = ground arith

flags-Keeps_micro : (json : ClientCodec) → Keeps (λ c. c.micro) (apply_flag json)
unfolding apply_flag
flags-Keeps_micro json c key none = ground arith
flags-Keeps_micro json c key (some v) = ground arith

settings-Keeps_ms_id : Keeps (λ c. c.ms_id) apply_service_settings
unfolding apply_service_settings
settings-Keeps_ms_id c key none = ground arith
settings-Keeps_ms_id c key (some v) = ground arith

bundles-Keeps_ms_id : Keeps (λ c. c.ms_id) apply_loc
unfolding apply_loc
bundles-Keeps_ms_id c key none = ground arith
bundles-Keeps_ms_id c key (some v) = ground arith

flags-Keeps_ms_id : (json : ClientCodec) → Keeps (λ c. c.ms_id) (apply_flag json)
unfolding apply_flag
flags-Keeps_ms_id json c key none = ground arith
flags-Keeps_ms_id json c key (some v) = ground arith

and_then_inv :
    {W : Type 0} (r : Option WatchError × Client × W)
    (next : Client → W → Option WatchError × Client × W)
    → (and_then r next).0 ≡ none
    → (r.0 ≡ none) × (and_then r next ≡ next r.1 r.2)
and_then_inv (some e, c, w) next h = cc
and_then_inv (none, c, w) next h = (refl, refl)

mark_watching_inv :
    {W : Type 0} (r : Option WatchError × Client × W)
    → (mark_watching r).0 ≡ none
    → (r.0 ≡ none) × ((mark_watching r).1 ≡ record r.1 { watch = true })
mark_watching_inv (some e, c, w) h = cc
mark_watching_inv (none, c, w) h = (refl, refl)

module _ (nats : Nats) (json : ClientCodec) where
  -- a watcher of a bucket has delivered the updates, and the client is what they make of it
  pub record Drained (apply : Apply) (bucket pattern : Text) (c after : Client) : Type 0 where
    pub world : nats.World
    pub updates : List (Option Update)
    pub watched : (nats.watch world bucket pattern).0 ≡ some updates
    pub client : after ≡ (drain_initial apply updates c).1

  start_watch-Drained :
      (apply : Apply) (bucket pattern : Text) (c : Client) (w : nats.World)
      → (start_watch nats apply bucket pattern c w).0 ≡ none
      → Drained apply bucket pattern c (start_watch nats apply bucket pattern c w).1
  unfolding start_watch
  start_watch-Drained apply bucket pattern c w h = elim (Bool-cases (nats.key_value w bucket).0) [
    | inr closed ↦ absurd (cc (rw closed at h))
    | inl opened ↦
        rw opened (go (nats.watch (nats.key_value w bucket).1 bucket pattern) refl (rw opened at h))
  ]
    where
      go :
          (r : Option (List (Option Update)) × nats.World)
          → nats.watch (nats.key_value w bucket).1 bucket pattern ≡ r
          → (on_updates nats apply bucket c r).0 ≡ none
          → Drained apply bucket pattern c (on_updates nats apply bucket c r).1
      go (none, w') d h = cc
      go (some us, w') d h = record {
        world = (nats.key_value w bucket).1;
        updates = us;
        watched = rw d refl;
        client = refl;
      }

  -- The three watchers of a new client have delivered, one after the other.
  pub record Delivered (c0 c : Client) : Type 0 where
    pub with_flags : Client
    pub with_settings : Client
    pub with_bundles : Client
    pub of_flags : Drained (apply_flag json) bucket_flags (env_pattern c0) c0 with_flags
    pub of_settings :
        Drained apply_service_settings bucket_service_settings
          (micro_pattern c0)
          with_flags
          with_settings
    pub of_bundles :
        Drained apply_loc bucket_localization (loc_pattern c0) with_settings with_bundles
    pub watching : c ≡ record with_bundles { watch = true }

  pub Delivered-flags :
      (c0 c : Client) (d : Delivered c0 c) (flag : Text)
      → c0.flags ≡ []
      → lookup flag c.flags ≡ history json flag none (map (named c0) (initial d.of_flags.updates))
  unfolding lookup
  Delivered-flags c0 c d flag e =
      ap (λ x. lookup flag x.flags) (d.watching)
      ∙ ap (lookup flag) (
          ap (λ x. x.flags) d.of_bundles.client
          ∙ drain_initial-Keeps (λ x. x.flags) apply_loc bundles-Keeps_flags d.of_bundles.updates
              d.with_settings
          ∙ ap (λ x. x.flags) d.of_settings.client
          ∙ drain_initial-Keeps (λ x. x.flags) apply_service_settings settings-Keeps_flags
              d.of_settings.updates d.with_flags
          ∙ ap (λ x. x.flags) d.of_flags.client)
      ∙ flags-drain_initial json c0 c0 d.of_flags.updates flag refl
      ∙ ap (λ m. history json flag (lookup flag m) (map (named c0) (initial d.of_flags.updates))) e

  pub Delivered-settings :
      (c0 c : Client) (d : Delivered c0 c) (ms : ℤ)
      → c0.micro ≡ []
      → lookup ms c.micro ≡ settings_history c0 ms none (initial d.of_settings.updates)
  unfolding lookup
  Delivered-settings c0 c d ms e =
      ap (λ x. lookup ms x.micro) d.watching
      ∙ ap (lookup ms) (
          ap (λ x. x.micro) d.of_bundles.client
          ∙ drain_initial-Keeps (λ x. x.micro) apply_loc bundles-Keeps_micro d.of_bundles.updates
              d.with_settings
          ∙ ap (λ x. x.micro) d.of_settings.client)
      ∙ micro-drain_initial c0 d.with_flags d.of_settings.updates ms (
          ap (λ x. x.env) d.of_flags.client
          ∙ drain_initial-Keeps (λ x. x.env) (apply_flag json) (apply_flag_env json)
              d.of_flags.updates c0)
      ∙ ap (λ m. settings_history c0 ms (lookup ms m) (initial d.of_settings.updates))
          (ap (λ x. x.micro) d.of_flags.client
            ∙ drain_initial-Keeps (λ x. x.micro) (apply_flag json) (flags-Keeps_micro json)
                d.of_flags.updates c0
            ∙ e)

  pub Delivered-ms_id : (c0 c : Client) → Delivered c0 c → c.ms_id ≡ c0.ms_id
  Delivered-ms_id c0 c d =
      ap (λ x. x.ms_id) d.watching
      ∙ ap (λ x. x.ms_id) d.of_bundles.client
      ∙ drain_initial-Keeps (λ x. x.ms_id) apply_loc bundles-Keeps_ms_id d.of_bundles.updates
          d.with_settings
      ∙ ap (λ x. x.ms_id) d.of_settings.client
      ∙ drain_initial-Keeps (λ x. x.ms_id) apply_service_settings settings-Keeps_ms_id
          d.of_settings.updates d.with_flags
      ∙ ap (λ x. x.ms_id) d.of_flags.client
      ∙ drain_initial-Keeps (λ x. x.ms_id) (apply_flag json) (flags-Keeps_ms_id json)
          d.of_flags.updates c0

  pub connect_and_watch-Delivered :
      (o : Options) (c0 : Client) (w : nats.World)
      → (connect_and_watch nats json o c0 w).0 ≡ none
      → Delivered c0 (connect_and_watch nats json o c0 w).1
  unfolding connect_and_watch
  connect_and_watch-Delivered o c0 w h =
      elim (Bool-cases (nats.connect w o.nats_url o.nats_creds).0) [
        | inr down ↦ absurd (cc (rw down at h))
        | inl up ↦ elim (Bool-cases (nats.init (nats.connect w o.nats_url o.nats_creds).1).0) [
          | inr unready ↦ absurd (cc (rw (up, unready) at h))
          | inl ready ↦ rw (up, ready) (go _ (rw (up, ready) at h))
        ]
      ]
    where
      watch_flags : nats.World → Option WatchError × Client × nats.World
      watch_flags w' = start_watch nats (apply_flag json) bucket_flags (env_pattern c0) c0 w'

      watch_settings : nats.World → Option WatchError × Client × nats.World
      watch_settings w' =
          and_then (watch_flags w')
            (start_watch nats apply_service_settings bucket_service_settings (micro_pattern c0))

      watch_bundles : nats.World → Option WatchError × Client × nats.World
      watch_bundles w' =
          and_then (watch_settings w')
            (start_watch nats apply_loc bucket_localization (loc_pattern c0))

      go :
          (w' : nats.World)
          → (mark_watching (watch_bundles w')).0 ≡ none
          → Delivered c0 (mark_watching (watch_bundles w')).1
      go w' h =
          let (three, marked) = mark_watching_inv (watch_bundles w') h in
          let (two, last) =
            and_then_inv (watch_settings w')
              (start_watch nats apply_loc bucket_localization (loc_pattern c0)) three in
          let (one, second) =
            and_then_inv (watch_flags w')
              (start_watch nats apply_service_settings bucket_service_settings (micro_pattern c0))
              two in
          record {
            with_flags = (watch_flags w').1;
            with_settings = (watch_settings w').1;
            with_bundles = (watch_bundles w').1;
            of_flags =
                start_watch-Drained (apply_flag json) bucket_flags (env_pattern c0) c0 w' one;
            of_settings = rw second (
                start_watch-Drained apply_service_settings bucket_service_settings
                  (micro_pattern c0) (watch_flags w').1 (watch_flags w').2 (rw second at two));
            of_bundles = rw last (
                start_watch-Drained apply_loc bucket_localization (loc_pattern c0)
                  (watch_settings w').1 (watch_settings w').2 (rw last at three));
            watching = marked;
          }
