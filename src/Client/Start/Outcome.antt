-- ===== src/Client/Start/Outcome.antt =====
-- The two ways in which `New` returns a client.
use central_config_stream.Prelude.{
  ◌<◌, ◌≡◌, ◌≢◌, refl, true, false, Bool-cases, ◌⊎◌, inl, inr, Option, none, some, [], ◌∷◌, List,
  map, arith, ◌∙◌, ap, sym,
}
use central_config_stream.Prelude.Int.{ℤ, pos, int_eq}
use central_config_stream.Prelude.Map.{lookup}
use central_config_stream.Prelude.Result.{Result, ok, err}
use central_config_stream.Text.{Text, text_eq}
use central_config_stream.Keys.{bucket_flags, bucket_service_settings}
use central_config_stream.Messaging.Publisher.{FlagPayload}
use central_config_stream.Client.{ClientCodec, Client, new_client, env_pattern, micro_pattern}
use central_config_stream.Client.Reads.{history}
use central_config_stream.Client.Endpoints.{HttpFallback, Http, FetchError, validate}
use central_config_stream.Client.Fallback.{
  Hydration, HydrateError, hydrate, hydrate_all, conclude, count, missing_own_keys,
}
use central_config_stream.Client.Fallback.Stores.{Kept, Kept-refl}
use central_config_stream.Client.Fallback.Keeps.{hydrate-Kept}
use central_config_stream.Client.Fallback.Outcome.{hydrate-none_iff}
use central_config_stream.Client.Watchers.{
  Update, Nats, WatchError, Options, connect_and_watch, close_conn,
}
use central_config_stream.Client.Start.{
  StartError, not_watched, both_failed, LastError, of_watch, hydrated_partially, partial_error,
  Started, on_hydrated, fall_back, top_up, on_watched, on_checked, check_options, start, status,
  World,
}
use central_config_stream.Client.Watchers.Histories.{initial, named, settings_history}
use central_config_stream.Client.Watchers.Delivered.{
  Delivered, Delivered-flags, Delivered-settings, Delivered-ms_id, connect_and_watch-Delivered,
}

conclude-used :
    (http : Http) (f : HttpFallback) (h : Hydration http f)
    → count h.errs < h.attempted
    → (conclude http f h).1.http_used ≡ true
conclude-used http f h k = ground arith

hydrate-used :
    (http : Http) (f : HttpFallback) (c : Client) (w : http.World)
    → (hydrate http f c w).0 ≡ none
    → (validate f ≡ none) × ((hydrate http f c w).1.http_used ≡ true)
unfolding hydrate
hydrate-used http f c w h =
    let (valid, made, accepted) = (hydrate-none_iff http f c w).0 h in
    (valid, rw valid (conclude-used http f (hydrate_all http f c w) made))

module _ (nats : Nats) (json : ClientCodec) (http : Http) where
  -- A client that watches: watchers on its environment and its service have delivered flags and settings,
  -- and what the updates of a flag's key make of it is what the client reads. The same holds of the
  -- settings of every service, unless the client is fleet-wide.
  pub record Warm (o : Options) (s : Started) : Type 0 where
    pub flags_world : nats.World
    pub flag_updates : List (Option Update)
    pub flags_watched :
        (nats.watch flags_world bucket_flags
          (env_pattern (new_client o.environment_id o.microservice_id))).0
        ≡ some flag_updates
    pub flags :
        (flag : Text) (p : FlagPayload)
        → history json flag none
            (map (named (new_client o.environment_id o.microservice_id)) (initial flag_updates))
          ≡ some p
        → lookup flag s.client.flags ≡ some p
    pub settings_world : nats.World
    pub settings_updates : List (Option Update)
    pub settings_watched :
        (nats.watch settings_world bucket_service_settings
          (micro_pattern (new_client o.environment_id o.microservice_id))).0
        ≡ some settings_updates
    pub settings :
        o.microservice_id ≢ pos 0
        → (ms : ℤ) (value : Text)
        → settings_history
            (new_client o.environment_id o.microservice_id)
            ms
            none
            (initial settings_updates)
          ≡ some value
        → lookup ms s.client.micro ≡ some value
    pub connected : (status s).connected ≡ true
    pub watching : (status s).watching ≡ true

  -- the error of the watchers of a new client
  abbrev pub watch_error : Options → World nats json http → Option WatchError
  watch_error o (nw, hw) =
      (connect_and_watch nats json o (new_client o.environment_id o.microservice_id) nw).0

  -- the client as failed watchers have left it, which falls back
  abbrev pub abandoned : Options → World nats json http → Client
  abandoned o (nw, hw) =
      record ((connect_and_watch nats json o (new_client o.environment_id o.microservice_id)
        nw).1) { watch = false }

  -- the errors of the fetches of a client that falls back
  abbrev pub fetch_errors : Options → HttpFallback → World nats json http → List FetchError
  fetch_errors o f (nw, hw) = (hydrate_all http f (abandoned o (nw, hw)) hw).errs

  -- A client that runs on what a fallback has fetched, and says so.
  pub record Cold (o : Options) (ws : World nats json http) (s : Started) : Type 0 where
    pub fallback : HttpFallback
    pub configured : o.http_fallback ≡ some fallback
    pub valid : validate fallback ≡ none
    pub failure : WatchError
    pub failed : watch_error o ws ≡ some failure
    pub filled : s.client ≡ (hydrate http fallback (abandoned o ws) ws.1).1
    pub used : (status s).used_http_fallback ≡ true
    pub not_connected : (status s).connected ≡ false
    pub not_watching : (status s).watching ≡ false
    pub reported :
        ((fetch_errors o fallback ws ≡ []) × ((status s).last_error ≡ some (of_watch failure)))
        ⊎ ((fetch_errors o fallback ws ≢ [])
            × ((status s).last_error ≡ some (hydrated_partially (fetch_errors o fallback ws))))

  -- The watchers failed, and no fallback is configured, or it failed too.
  pub data Failed (o : Options) (ws : World nats json http) : StartError → Type 0 where
    alone :
        (w : WatchError)
        → watch_error o ws ≡ some w
        → o.http_fallback ≡ none
        → Failed o ws (not_watched w)
    both :
        (w : WatchError) (f : HttpFallback) (h : HydrateError)
        → watch_error o ws ≡ some w
        → o.http_fallback ≡ some f
        → (hydrate http f (abandoned o ws) ws.1).0 ≡ some h
        → Failed o ws (both_failed w h)

  abbrev pub Outcome : Options → World nats json http → Result StartError Started → Type 0
  Outcome o ws (err e) = (check_options o ≡ some e) ⊎ Failed o ws e
  Outcome o ws (ok s) = Warm o s ⊎ Cold o ws s

  Warm-Kept :
      (o : Options) (c c' : Client) (e : Option LastError)
      → Delivered nats json (new_client o.environment_id o.microservice_id) c
      → Kept c c'
      → Warm o (record { client = c'; connected = true; last_error = e })
  unfolding status new_client
  Warm-Kept o c c' e d kept =
      let c0 = new_client o.environment_id o.microservice_id in
      record {
        flags_world = d.of_flags.world;
        flag_updates = d.of_flags.updates;
        flags_watched = d.of_flags.watched;
        flags = λ flag p h. kept.flags flag p (Delivered-flags nats json c0 c d flag refl ∙ h);
        settings_world = d.of_settings.world;
        settings_updates = d.of_settings.updates;
        settings_watched = d.of_settings.watched;
        settings = λ scoped ms value h.
            kept.micro (λ fleet. scoped (sym (Delivered-ms_id nats json c0 c d) ∙ fleet)) ms value
              (Delivered-settings nats json c0 c d ms refl ∙ h);
        connected = refl;
        watching = kept.watch ∙ ap (λ x. x.watch) d.watching;
      }

  top_up-Warm :
      (o : Options) (f : Option HttpFallback) (c : Client) (ws ws' : World nats json http)
      → Delivered nats json (new_client o.environment_id o.microservice_id) c
      → Outcome o ws (top_up nats json http f c ws').0
  top_up-Warm o none c ws ws' d = inl (Warm-Kept o c c none d (Kept-refl c))
  top_up-Warm o (some f) c ws (nw, hw) d = elim (Bool-cases (missing_own_keys f c)) [
    | inr complete ↦ rw complete (inl (Warm-Kept o c c none d (Kept-refl c)))
    | inl missing ↦ rw missing (inl (Warm-Kept o c _ _ d (hydrate-Kept http f c hw)))
  ]

  partly :
      (es fs : List FetchError) (w : WatchError)
      → es ≡ fs
      → ((fs ≡ []) × (partial_error es (some (of_watch w)) ≡ some (of_watch w)))
        ⊎ ((fs ≢ []) × (partial_error es (some (of_watch w)) ≡ some (hydrated_partially fs)))
  partly [] fs w same = inl (sym same, refl)
  partly (e ∷ es) fs w same =
      inr
        (λ none_left. ground (arith, same ∙ none_left), ap (λ x. some (hydrated_partially x)) same)

  fall_back-Cold :
      (o : Options) (f : Option HttpFallback) (e : WatchError) (c : Client) (nw nw' : nats.World)
      (hw : http.World)
      → watch_error o (nw, hw) ≡ some e
      → record c { watch = false } ≡ abandoned o (nw, hw)
      → o.http_fallback ≡ f
      → Outcome o (nw, hw) (fall_back nats json http f e c (nw', hw)).0
  unfolding status
  fall_back-Cold o none e c nw nw' hw failed left same = inr (alone e failed same)
  fall_back-Cold o (some f) e c nw nw' hw failed left same =
      go (hydrate_all http f (record c { watch = false }) hw).errs
        (ap (λ x. (hydrate_all http f x hw).errs) left)
        (hydrate http f (record c { watch = false }) hw) refl
    where
      go :
          (es : List FetchError)
          → es ≡ fetch_errors o f (nw, hw)
          → (r : Option HydrateError × Client × http.World)
          → hydrate http f (record c { watch = false }) hw ≡ r
          → Outcome o (nw, hw) (on_hydrated nats json http e es (close_conn nats e nw') r).0
      go es errors (some he, c', hw') d =
          inr (
            both e f he failed same
              (ap (λ x. (hydrate http f x hw).0) (sym left) ∙ ap (λ r. r.0) d))
      go es errors (none, c', hw') d =
          let (valid, used) =
            hydrate-used http f (record c { watch = false }) hw (ap (λ r. r.0) d) in
          inr (record {
            fallback = f;
            configured = same;
            valid = valid;
            failure = e;
            failed = failed;
            filled = ap (λ r. r.1) (sym d) ∙ ap (λ x. (hydrate http f x hw).1) left;
            used = ap (λ r. r.1.http_used) (sym d) ∙ used;
            not_connected = refl;
            not_watching =
                ap (λ r. r.1.watch) (sym d)
                ∙ (hydrate-Kept http f (record c { watch = false }) hw).watch;
            reported = partly es (fetch_errors o f (nw, hw)) e errors;
          })

  -- New fails for options that it rejects, or after its watchers have failed: with their error if no fallback
  -- is configured, and with the errors of both if a pass of the fallback over the cache that the failed
  -- watchers left fails too. A client that it returns is
  -- one of two. Either it watches: every flag that the updates before the marker of its watcher leave with
  -- a payload is read with that payload, even if the HTTP fallback has filled in missing keys, and so are
  -- the settings if the client is not fleet-wide. Or it has no connection and no watchers, a valid fallback
  -- is configured and has filled the cache that the failed watchers left, and the status reports that, with
  -- the errors of the fetches that failed, or with the error of the watchers if none of them failed.
  pub start-Outcome :
      (o : Options) (ws : World nats json http) → Outcome o ws (start nats json http o ws).0
  unfolding start new_client
  start-Outcome o (nw, hw) = checked (check_options o) refl
    where
      watched :
          (r : Option WatchError × Client × nats.World)
          → connect_and_watch nats json o (new_client o.environment_id o.microservice_id) nw ≡ r
          → (r.0 ≡ none → Delivered nats json (new_client o.environment_id o.microservice_id) r.1)
          → Outcome o (nw, hw) (on_watched nats json http o hw r).0
      watched (some e, c, nw') same k =
          fall_back-Cold o o.http_fallback e c nw nw' hw (ap (λ r. r.0) same)
            (ap (λ r. record (r.1) { watch = false }) (sym same)) refl
      watched (none, c, nw') same k = top_up-Warm o o.http_fallback c (nw, hw) (nw', hw) (k refl)

      checked :
          (e : Option StartError)
          → check_options o ≡ e
          → Outcome o (nw, hw) (on_checked nats json http o (nw, hw) e).0
      checked (some e) d = inl d
      checked none d =
          watched (connect_and_watch nats json o (new_client o.environment_id o.microservice_id) nw)
            refl
            (connect_and_watch-Delivered nats json o (new_client o.environment_id o.microservice_id)
              nw)
